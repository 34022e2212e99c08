-- ===== src/Auth.antt =====
-- The authorization checker of bakery/checker.go: `AuthChecker` with its `allowContext`.
pub mod Allow
pub mod Direct
pub mod Granting
pub mod Decision
pub mod Squash
use macaroon_bakery.Prelude.{
  Bytes, ℕ, zero, suc, ◌≡◌, ◌↔◌, Bool, true, false, not, ◌&&◌, ◌||◌, Option, none, some, List, [],
  ◌∷◌, ◌++◌, map, arith, if◌then◌else◌, Eq, ◌==◌, bytes_eq, bytes_beq, bytes_beq_iff, Result, ok,
  err, ◌>>=◌, Map, lookup, insert, replicate, length,
}
use macaroon_bakery.Checkers.Caveat.{Caveat}

pub record Op : Type 0 where
  pub entity : Bytes
  pub action : Bytes

abbrev pub op_beq : Op → Op → Bool
op_beq a b = bytes_beq a.entity b.entity && bytes_beq a.action b.action

pub op_beq_iff : (a b : Op) → (op_beq a b ≡ true) ↔ (a ≡ b)
op_beq_iff a b = ground (arith, bytes_beq_iff a.entity b.entity, bytes_beq_iff a.action b.action)

instance abbrev pub op_eq : Eq Op
op_eq = record { beq = op_beq; beq_iff = op_beq_iff }

-- `NoOp`
abbrev pub no_op : Op
no_op = record { entity = []; action = [] }

-- `statusOK` and `statusUsed`.
pub record MacaroonStatus : Type 0 where
  pub is_ok : Bool
  pub is_used : Bool

abbrev pub no_status : MacaroonStatus
no_status = record { is_ok = false; is_used = false }

-- `xs[i]`, with a value for an index that no call gives.
unfoldable pub get_at {ℓ} : {A : Type ℓ} → A → ℕ → List A → A
get_at a i [] = a
get_at a zero (x ∷ xs) = x
get_at a (suc i) (x ∷ xs) = get_at a i xs

-- `xs[i] = f(xs[i])`
unfoldable pub modify_at {ℓ} : {A : Type ℓ} → ℕ → (A → A) → List A → List A
modify_at i f [] = []
modify_at zero f (x ∷ xs) = f x ∷ xs
modify_at (suc i) f (x ∷ xs) = x ∷ modify_at i f xs

-- The operations with their indexes in the request: `need` and `needIndex`, which have one length.
abbrev pub Needs : Type 0
Needs = List (Op × ℕ)

unfoldable pub needs_from : ℕ → List Op → Needs
needs_from i [] = []
needs_from i (op ∷ ops) = (op, i) ∷ needs_from (suc i) ops

unfoldable pub ops_of : Needs → List Op
ops_of [] = []
ops_of ((op, i) ∷ need) = op ∷ ops_of need

-- `updateNeed`, which moves the operations that remain to the front.
unfoldable pub update_need : List Bool → Needs → Needs
update_need authed [] = []
update_need authed ((op, i) ∷ need) =
    let rest = update_need authed need in if get_at false i authed then rest else (op, i) ∷ rest

unfoldable pub indexes_of : Option (List ℕ) → List ℕ
indexes_of none = []
indexes_of (some is) = is

-- `a.authIndexes[op] = append(a.authIndexes[op], i)` for each operation.
unfoldable pub add_indexes : ℕ → List Op → Map Op (List ℕ) → Map Op (List ℕ)
unfolding indexes_of
add_indexes i [] m = m
add_indexes i (op ∷ ops) m = add_indexes i ops (insert op (indexes_of (lookup op m) ++ i ∷ []) m)

-- What `VerifyMacaroon` fails with: a `*VerificationError` or another error.
pub data VerifyError (Failure : Type 0) : Type 0 where
  verification_error other_error : Failure → VerifyError Failure

pub data AuthError (Failure : Type 0) : Type 0 where
  cannot_retrieve authorizer_failed : Failure → AuthError Failure
  permission_denied : Option Failure → AuthError Failure
  discharge_required : List Op → List Caveat → AuthError Failure
  index_panic : AuthError Failure

-- `allowContext`, less the checker.
pub record AllowContext (Failure : Type 0) : Type 0 where
  pub status : List MacaroonStatus
  pub op_indexes : Map Op ℕ
  pub authed : List Bool
  pub need : Needs
  pub errors : List Failure

-- What `init` finds out about the macaroons.
pub record Verified (Failure : Type 0) : Type 0 where
  pub conditions : List (List Bytes)
  pub init_errors : List Failure
  pub auth_indexes : Map Op (List ℕ)

pub record AuthInfo (Slice : Type 0) : Type 0 where
  pub macaroons : List Slice
  pub used : List Bool
  pub op_indexes : Map Op ℕ

-- `CheckerParams`, over the types of macaroon slices and of errors: the verifier, the first party
-- caveat checker in the context of a slice, and the authorizer in that of a slice or of none.
pub record CheckerParams (Slice Failure : Type 0) : Type 0 where
  pub verify_macaroon : Slice → Result (VerifyError Failure) (List Op × List Bytes)
  pub check_first_party : Slice → Bytes → Option Failure
  pub authorize_ops :
      Option (Option Slice → Op → List Op → Result Failure (List Bool × List Caveat))

module _ {Failure : Type 0} where
  -- `a.status[mindex] |= statusUsed`, with the other assignments for an operation allowed by it.
  unfoldable pub grant : ℕ → Op → ℕ → AllowContext Failure → AllowContext Failure
  unfolding modify_at
  grant mindex op i s = record s {
    authed = modify_at i (λ _. true) s.authed;
    status = modify_at mindex (λ st. record st { is_used = true }) s.status;
    op_indexes = insert op mindex s.op_indexes;
  }

  -- The inner loop of `checkDirect`.
  unfoldable pub direct_by : Op → ℕ → List ℕ → AllowContext Failure → AllowContext Failure
  unfolding grant get_at
  direct_by op i [] s = s
  direct_by op i (m ∷ ms) s =
      let rest = direct_by op i ms s in
      if (get_at no_status m s.status).is_ok then grant m op i s else rest

  unfoldable pub direct_step :
      Map Op (List ℕ) → Op → ℕ → AllowContext Failure → AllowContext Failure
  unfolding direct_by
  direct_step auth_indexes op i s =
      if op == no_op
      then record s { authed = modify_at i (λ _. true) s.authed }
      else direct_by op i (indexes_of (lookup op auth_indexes)) s

  unfoldable pub direct_loop : Map Op (List ℕ) → Needs → AllowContext Failure → AllowContext Failure
  unfolding direct_step
  direct_loop auth_indexes [] s = s
  direct_loop auth_indexes ((op, i) ∷ need) s =
      direct_loop auth_indexes need (direct_step auth_indexes op i s)

  -- The deferred call of `updateNeed`.
  unfoldable pub updated : AllowContext Failure → AllowContext Failure
  unfolding update_need
  updated s = record s { need = update_need s.authed s.need }

  unfoldable pub check_direct : Map Op (List ℕ) → AllowContext Failure → AllowContext Failure
  unfolding direct_loop updated
  check_direct auth_indexes s = updated (direct_loop auth_indexes s.need s)

  unfoldable pub first_error : List Failure → Option Failure
  first_error [] = none
  first_error (e ∷ es) = some e
