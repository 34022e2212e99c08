-- ===== src/Bakery/Ops.antt =====
-- Canonical operations, and the operations of a macaroon id: `CanonicalOps` and `macaroonIdOps` of
-- bakery/oven.go. A sort of operations is determined by which ones it holds and how often, so an
-- insertion sort stands for `sort.Sort`.
pub mod Order
pub mod Canonical
pub mod Unique
pub mod Ids
use macaroon_bakery.Prelude.{
  Bytes, Bool, true, false, not, ◌&&◌, ◌||◌, List, [], ◌∷◌, ◌++◌, if◌then◌else◌, ◌==◌, bytes_eq,
}
use macaroon_bakery.Prelude.Sort.{bytes_le}
use macaroon_bakery.Auth.{Op, op_eq}

-- Go's `a < b` on strings.
unfoldable pub bytes_less : Bytes → Bytes → Bool
bytes_less a b = not (bytes_le b a)

-- `opsByValue.Less`, on the operations.
unfoldable pub op_less : Op → Op → Bool
unfolding bytes_less
op_less a b =
    if not (a.entity == b.entity)
    then bytes_less a.entity b.entity
    else bytes_less a.action b.action

-- No `needNewSlice`: each operation is below the next one.
unfoldable pub is_canonical : List Op → Bool
unfolding op_less
is_canonical [] = true
is_canonical (a ∷ []) = true
is_canonical (a ∷ b ∷ ops) = op_less a b && is_canonical (b ∷ ops)

unfoldable pub insert_op : Op → List Op → List Op
unfolding op_less
insert_op a [] = a ∷ []
insert_op a (b ∷ ops) =
    let later = insert_op a ops in if op_less b a then b ∷ later else a ∷ b ∷ ops

unfoldable pub sort_ops : List Op → List Op
unfolding insert_op
sort_ops [] = []
sort_ops (a ∷ ops) = insert_op a (sort_ops ops)

-- The last loop of `CanonicalOps`, behind `canonOps[j]`.
unfoldable pub drop_repeated : Op → List Op → List Op
drop_repeated kept [] = []
drop_repeated kept (op ∷ ops) =
    let same = drop_repeated kept ops in
    let next = drop_repeated op ops in if not (op == kept) then op ∷ next else same

unfoldable pub drop_repeats : List Op → List Op
unfolding drop_repeated
drop_repeats [] = []
drop_repeats (op ∷ ops) = op ∷ drop_repeated op ops

-- `CanonicalOps`
unfoldable pub canonical_ops : List Op → List Op
unfolding is_canonical sort_ops drop_repeats
canonical_ops ops = if is_canonical ops then ops else drop_repeats (sort_ops ops)

-- `macaroonpb.Op`
pub record IdOp : Type 0 where
  pub entity : Bytes
  pub actions : List Bytes

-- `xs[len(xs)-1]` of a slice that is not empty.
unfoldable pub last_action : List Bytes → Bytes
last_action [] = []
last_action (a ∷ []) = a
last_action (a ∷ b ∷ rest) = last_action (b ∷ rest)

abbrev pub one_action : Op → IdOp
one_action op = record { entity = op.entity; actions = op.action ∷ [] }

-- The loop of `macaroonIdOps`, at the operation `idOp`, with those before it.
unfoldable pub id_ops_from : List IdOp → IdOp → List Op → List IdOp
unfolding last_action
id_ops_from done id_op [] = done ++ id_op ∷ []
id_ops_from done id_op (op ∷ ops) =
    let other = id_ops_from (done ++ id_op ∷ []) (one_action op) ops in
    let more = id_ops_from done (record id_op { actions = id_op.actions ++ op.action ∷ [] }) ops in
    let same = id_ops_from done id_op ops in
    if not (op.entity == id_op.entity)
    then other
    else if not (op.action == last_action id_op.actions)
    then more
    else same

-- `macaroonIdOps`, which is not called without operations.
unfoldable pub macaroon_id_ops : List Op → List IdOp
unfolding id_ops_from
macaroon_id_ops [] = []
macaroon_id_ops (op ∷ ops) = id_ops_from [] (one_action op) ops

-- The operations of a macaroon id, in the loop of `decodeMacaroonId`.
unfoldable pub actions_of : Bytes → List Bytes → List Op
actions_of entity [] = []
actions_of entity (a ∷ rest) = record { entity = entity; action = a } ∷ actions_of entity rest

unfoldable pub ops_of_id : List IdOp → List Op
unfolding actions_of
ops_of_id [] = []
ops_of_id (op ∷ ops) = actions_of op.entity op.actions ++ ops_of_id ops

unfoldable pub has_op : List Op → Op → Bool
has_op [] op = false
has_op (a ∷ ops) op = a == op || has_op ops op
