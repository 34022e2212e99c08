-- ===== src/Bakery/Ops/Ids.antt =====
-- The operations of a macaroon id: `macaroonIdOps` of bakery/oven.go and its inverse.
use macaroon_bakery.Prelude.{
  Bytes, ◌≡◌, ◌∙◌, sym, refl, ap, true, List, [], ◌∷◌, ◌++◌, append_assoc, ◌==◌, bytes_eq,
  bytes_beq_iff, Bool-cases, inl, inr, arith, append-nil,
}
use macaroon_bakery.Auth.{Op, op_eq}
use macaroon_bakery.Bakery.Ops.{
  op_less, is_canonical, IdOp, one_action, last_action, id_ops_from, macaroon_id_ops, actions_of,
  ops_of_id,
}
use macaroon_bakery.Bakery.Ops.Order.{op_less_irrefl}

actions_of-append :
    (entity : Bytes) (xs ys : List Bytes)
    → actions_of entity (xs ++ ys) ≡ actions_of entity xs ++ actions_of entity ys
unfolding actions_of
actions_of-append entity [] ys = refl
actions_of-append entity (x ∷ xs) ys =
    ap (λ l. record { entity = entity; action = x } ∷ l) (actions_of-append entity xs ys)

ops_of_id-append : (xs ys : List IdOp) → ops_of_id (xs ++ ys) ≡ ops_of_id xs ++ ops_of_id ys
unfolding ops_of_id
ops_of_id-append [] ys = refl
ops_of_id-append (x ∷ xs) ys =
    ap (λ l. actions_of x.entity x.actions ++ l) (ops_of_id-append xs ys)
    ∙ sym (append_assoc (actions_of x.entity x.actions) (ops_of_id xs) (ops_of_id ys))

last_action-append : (xs : List Bytes) (x : Bytes) → last_action (xs ++ x ∷ []) ≡ x
unfolding last_action
last_action-append [] x = refl
last_action-append (y ∷ []) x = refl
last_action-append (y ∷ z ∷ xs) x = last_action-append (z ∷ xs) x

-- The operations that an id has when `op` is added to it.
add_entity :
    (done : List IdOp) (id_op : IdOp) (op : Op)
    → ops_of_id ((done ++ id_op ∷ []) ++ one_action op ∷ [])
      ≡ ops_of_id (done ++ id_op ∷ []) ++ op ∷ []
unfolding ops_of_id actions_of
add_entity done id_op op = ops_of_id-append (done ++ id_op ∷ []) (one_action op ∷ [])

add_action :
    (done : List IdOp) (id_op : IdOp) (op : Op)
    → id_op.entity ≡ op.entity
    → ops_of_id (done ++ record id_op { actions = id_op.actions ++ op.action ∷ [] } ∷ [])
      ≡ ops_of_id (done ++ id_op ∷ []) ++ op ∷ []
unfolding ops_of_id
add_action done id_op op h =
    let x = op.action in
    let before = actions_of id_op.entity id_op.actions in
    let added : actions_of id_op.entity (x ∷ []) ≡ op ∷ [] =
      unfold actions_of in ap (λ e. actions_of e (x ∷ [])) h in
    ops_of_id-append done (record id_op { actions = id_op.actions ++ x ∷ [] } ∷ [])
    ∙ ap (λ l. ops_of_id done ++ l)
        (append-nil (actions_of id_op.entity (id_op.actions ++ x ∷ []))
          ∙ actions_of-append id_op.entity id_op.actions (x ∷ [])
          ∙ ap (λ l. before ++ l) added)
    ∙ sym (append_assoc (ops_of_id done) before (op ∷ []))
    ∙ ap (λ l. (ops_of_id done ++ l) ++ op ∷ []) (sym (append-nil before))
    ∙ ap (λ l. l ++ op ∷ []) (sym (ops_of_id-append done (id_op ∷ [])))

step_canonical :
    (a b : Op) (ops : List Op)
    → is_canonical (a ∷ b ∷ ops) ≡ true
    → (op_less a b ≡ true) × (is_canonical (b ∷ ops) ≡ true)
unfolding is_canonical
step_canonical a b ops h = (ground arith, ground arith)

ops_of_id-from :
    (done : List IdOp) (id_op : IdOp) (prev : Op) (ops : List Op)
    → id_op.entity ≡ prev.entity
    → last_action id_op.actions ≡ prev.action
    → is_canonical (prev ∷ ops) ≡ true
    → ops_of_id (id_ops_from done id_op ops) ≡ ops_of_id (done ++ id_op ∷ []) ++ ops
unfolding id_ops_from
ops_of_id-from done id_op prev [] he hl hc = sym (append-nil (ops_of_id (done ++ id_op ∷ [])))
ops_of_id-from done id_op prev (op ∷ ops) he hl hc =
    let (up, rest) = step_canonical prev op ops hc in
    let glue : (l : List Op)
        → l ≡ ops_of_id (done ++ id_op ∷ []) ++ op ∷ []
        → l ++ ops ≡ ops_of_id (done ++ id_op ∷ []) ++ op ∷ ops =
      λ l e. ap (λ l'. l' ++ ops) e ∙ append_assoc (ops_of_id (done ++ id_op ∷ [])) (op ∷ []) ops in
    elim (Bool-cases (op.entity == id_op.entity)) [
      | inr other ↦ rw other (
          ops_of_id-from (done ++ id_op ∷ []) (one_action op) op ops refl
            (unfold last_action in refl) rest
          ∙ glue _ (add_entity done id_op op))
      | inl same ↦
          let e : op.entity ≡ id_op.entity = (bytes_beq_iff op.entity id_op.entity).0 same in
          elim (Bool-cases (op.action == last_action id_op.actions)) [
            | inr new ↦
                rw (same, new)
                  (ops_of_id-from done (record id_op { actions = id_op.actions ++ op.action ∷ [] })
                      op ops (sym e) (last_action-append id_op.actions op.action) rest
                    ∙ glue _ (add_action done id_op op (sym e)))
            | inl old ↦
                let f : op.action ≡ prev.action =
                  (bytes_beq_iff op.action (last_action id_op.actions)).0 old ∙ hl in
                absurd (
                  op_less_irrefl prev op up
                    (λ i. record { entity = (sym he ∙ sym e) i; action = sym f i }))
          ]
    ]

-- The operations of an id are read back from it, where each is below the next one.
pub ops_of_id-macaroon_id_ops :
    (ops : List Op) → is_canonical ops ≡ true → ops_of_id (macaroon_id_ops ops) ≡ ops
unfolding macaroon_id_ops ops_of_id actions_of
ops_of_id-macaroon_id_ops [] h = refl
ops_of_id-macaroon_id_ops (op ∷ ops) h =
    ops_of_id-from [] (one_action op) op ops refl (unfold last_action in refl) h
