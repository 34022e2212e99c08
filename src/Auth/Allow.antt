-- ===== src/Auth/Allow.antt =====
-- `AuthChecker.init`, `newAllowContext`, `checkIndirect`, `Allow` and `Allowed` of bakery/checker.go.
use macaroon_bakery.Prelude.{
  Bytes, ℕ, suc, Bool, true, false, Option, none, some, List, [], ◌∷◌, ◌++◌, map, if◌then◌else◌,
  Result, ok, err, ◌>>=◌, Map, replicate, length,
}
use macaroon_bakery.Checkers.Caveat.{Caveat}
use macaroon_bakery.Auth.{
  Op, op_eq, no_op, MacaroonStatus, no_status, get_at, modify_at, Needs, needs_from, ops_of,
  add_indexes, VerifyError, verification_error, other_error, AuthError, cannot_retrieve,
  authorizer_failed, permission_denied, discharge_required, index_panic, AllowContext, Verified,
  AuthInfo, CheckerParams, grant, updated, check_direct, first_error,
}

module _ {Slice Failure : Type 0} (p : CheckerParams Slice Failure) where
  -- One round of the loop of `initOnceFunc`.
  unfoldable pub init_step :
      ℕ
      → Verified Failure
      → Result (VerifyError Failure) (List Op × List Bytes)
      → Result (AuthError Failure) (Verified Failure)
  init_step i v (err (other_error e)) = err (cannot_retrieve e)
  init_step i v (err (verification_error e)) =
      ok (record v { conditions = v.conditions ++ [] ∷ []; init_errors = v.init_errors ++ e ∷ [] })
  init_step i v (ok (ops, conditions)) = ok (record v {
    conditions = v.conditions ++ conditions ∷ [];
    auth_indexes = add_indexes i ops v.auth_indexes;
  })

  unfoldable pub init_loop :
      ℕ → List Slice → Verified Failure → Result (AuthError Failure) (Verified Failure)
  unfolding init_step
  init_loop i [] v = ok v
  init_loop i (ms ∷ mss) v = do v' ← init_step i v (p.verify_macaroon ms); init_loop (suc i) mss v'

  -- `initOnceFunc`. What it finds is the same however often it is asked for.
  unfoldable pub init_checker : List Slice → Result (AuthError Failure) (Verified Failure)
  unfolding init_loop
  init_checker mss =
      init_loop 0 mss (record { conditions = []; init_errors = []; auth_indexes = [] })

  -- The first error of a condition of a macaroon slice.
  unfoldable pub check_conditions : Slice → List Bytes → Option Failure
  check_conditions ms [] = none
  check_conditions ms (cond ∷ conds) = elim (p.check_first_party ms cond) [
    | some e ↦ some e
    | none ↦ check_conditions ms conds
  ]

  abbrev pub status_of : Option Failure → MacaroonStatus
  status_of none = record { is_ok = true; is_used = false }
  status_of (some e) = no_status

  abbrev pub error_of : Option Failure → List Failure
  error_of none = []
  error_of (some e) = e ∷ []

  -- The loop of `newAllowContext` over the macaroons and their conditions.
  unfoldable pub status_loop :
      List Slice → List (List Bytes) → AllowContext Failure → AllowContext Failure
  unfolding check_conditions
  status_loop [] conditions s = s
  status_loop (ms ∷ mss) [] s = s
  status_loop (ms ∷ mss) (conds ∷ conditions) s =
      let failed = check_conditions ms conds in
      status_loop mss conditions (record s {
        status = s.status ++ status_of failed ∷ [];
        errors = s.errors ++ error_of failed;
      })

  unfoldable pub new_allow_context : List Slice → Verified Failure → List Op → AllowContext Failure
  unfolding needs_from status_loop
  new_allow_context mss v ops = status_loop mss v.conditions (record {
    status = [];
    op_indexes = [];
    authed = replicate (length ops) false;
    need = needs_from 0 ops;
    errors = [];
  })

  -- `newAuthInfo`
  unfoldable pub new_auth_info : List Slice → AllowContext Failure → AuthInfo Slice
  new_auth_info mss s = record {
    macaroons = mss;
    used = map (λ st. st.is_used) s.status;
    op_indexes = s.op_indexes;
  }

  -- The loops of `checkIndirect` over what the authorizer answers for the needed operations, for
  -- the operation of a macaroon and for `NoOp`. An answer that is longer than the needed operations
  -- panics where it is true.
  unfoldable pub grant_all :
      Option ℕ
      → List Bool
      → Needs
      → AllowContext Failure
      → Result (AuthError Failure) (AllowContext Failure)
  unfolding grant modify_at
  grant_all m [] need s = ok s
  grant_all m (false ∷ oks) [] s = grant_all m oks [] s
  grant_all m (true ∷ oks) [] s = err index_panic
  grant_all m (false ∷ oks) (n ∷ need) s = grant_all m oks need s
  grant_all none (true ∷ oks) ((op, i) ∷ need) s =
      grant_all none oks need (record s { authed = modify_at i (λ _. true) s.authed })
  grant_all (some m) (true ∷ oks) ((op, i) ∷ need) s = grant_all (some m) oks need (grant m op i s)

  abbrev pub asked :
      Result Failure (List Bool × List Caveat)
      → Result (AuthError Failure) (List Bool × List Caveat)
  asked (ok r) = ok r
  asked (err e) = err (authorizer_failed e)

  module _ (mss : List Slice)
      (authorize : Option Slice → Op → List Op → Result Failure (List Bool × List Caveat)) where
    abbrev pub slice_at : ℕ → List Slice → Option Slice
    slice_at i xs = get_at none i (map some xs)

    abbrev pub State : Type 0
    State = AllowContext Failure × List Caveat

    -- One round of the loop over the macaroons that authorize an operation.
    unfoldable pub indirect_step : Op → ℕ → State → Result (AuthError Failure) State
    unfolding grant_all
    indirect_step op m (s, caveats) =
        if (get_at no_status m s.status).is_ok
        then (do
          (oks, more) ← asked (authorize (slice_at m mss) op (ops_of s.need))
          s' ← grant_all (some m) oks s.need s
          ok (s', caveats ++ more))
        else ok (s, caveats)

    unfoldable pub indirect_by : Op → List ℕ → State → Result (AuthError Failure) State
    unfolding indirect_step
    indirect_by op [] st = ok st
    indirect_by op (m ∷ ms) st = do st' ← indirect_step op m st; indirect_by op ms st'

    -- The loop over `authIndexes`, which ends when no operation is needed.
    unfoldable pub indirect_loop : Map Op (List ℕ) → State → Result (AuthError Failure) State
    unfolding indirect_by
    indirect_loop [] st = ok st
    indirect_loop ((op, ms) ∷ auth_indexes) (s, caveats) = elim s.need [
      | [] ↦ ok (s, caveats)
      | _ ∷ _ ↦ (do
        (s', caveats') ← indirect_by op ms (s, caveats)
        indirect_loop auth_indexes (updated s', caveats'))
    ]

    -- The call of the authorizer with `NoOp`, if operations are still needed.
    unfoldable pub without_authority : State → Result (AuthError Failure) State
    without_authority (s, caveats) = elim s.need [
      | [] ↦ ok (s, caveats)
      | _ ∷ _ ↦ (do
        (oks, more) ← asked (authorize none no_op (ops_of s.need))
        s' ← grant_all none oks s.need s
        ok (updated s', caveats ++ more))
    ]

  unfoldable pub check_indirect :
      List Slice
      → Map Op (List ℕ)
      → AllowContext Failure
      → Result (AuthError Failure) (AllowContext Failure × List Caveat)
  unfolding indirect_loop without_authority
  check_indirect mss auth_indexes s = elim p.authorize_ops [
    | none ↦ ok (s, [])
    | some authorize ↦ (do
      st ← indirect_loop mss authorize auth_indexes (s, [])
      without_authority mss authorize st)
  ]

  -- `Allow` behind `checkIndirect`.
  unfoldable pub decide :
      List Slice
      → List Failure
      → List Op
      → AllowContext Failure × List Caveat
      → Result (AuthError Failure) (AuthInfo Slice)
  unfolding new_auth_info first_error
  decide mss init_errors ops (s, caveats) = elim s.need [
    | _ ∷ _ ↦ err (permission_denied (first_error (init_errors ++ s.errors)))
    | [] ↦ elim caveats [
      | [] ↦ ok (new_auth_info mss s)
      | c ∷ cs ↦ err (discharge_required ops (c ∷ cs))
    ]
  ]

  unfoldable pub allow_verified :
      List Slice → List Op → Verified Failure → Result (AuthError Failure) (AuthInfo Slice)
  unfolding new_allow_context check_direct check_indirect decide
  allow_verified mss ops v =
      let s = check_direct v.auth_indexes (new_allow_context mss v ops) in
      elim s.need [
        | [] ↦ ok (new_auth_info mss s)
        | _ ∷ _ ↦ (do st ← check_indirect mss v.auth_indexes s; decide mss v.init_errors ops st)
      ]

  -- `Allow`
  unfoldable pub allow : List Slice → List Op → Result (AuthError Failure) (AuthInfo Slice)
  unfolding init_checker allow_verified
  allow mss ops = do v ← init_checker mss; allow_verified mss ops v
