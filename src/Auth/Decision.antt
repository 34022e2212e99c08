-- ===== src/Auth/Decision.antt =====
-- The answer of `Allow` of bakery/checker.go where there is no authorizer.
use macaroon_bakery.Prelude.{
  ℕ, zero, suc, ◌+◌, ◌≤◌, ◌≡◌, refl, ap, sym, ◌∙◌, ◌↔◌, Bool, true, false, ◌||◌, none, List, [],
  ◌∷◌, arith, if◌then◌else◌, ◌==◌, ok, lookup, length, replicate, All, Bool-cases, inl, inr,
}
use macaroon_bakery.Auth.{
  Op, op_eq, no_op, no_status, get_at, Needs, needs_from, ops_of, update_need, indexes_of, Verified,
  AuthInfo, CheckerParams, direct_loop, updated, check_direct,
}
use macaroon_bakery.Auth.Allow.{
  init_checker, new_allow_context, new_auth_info, check_indirect, decide, allow_verified, allow,
}
use macaroon_bakery.Auth.Direct.{
  any_ok, is_covered, uncovered, HasStatus, direct_loop-uncovered, direct_loop-need,
}
use macaroon_bakery.Auth.Granting.{
  some_grants, statuses, init_loop-grants, init_loop-conditions, status_loop-status,
  status_loop-rest, statuses-Follows,
}

replicate-false : (n j : ℕ) → get_at false j (replicate n false) ≡ false
unfolding get_at
replicate-false zero j = refl
replicate-false (suc n) zero = refl
replicate-false (suc n) (suc j) = replicate-false n j

length-replicate : (n : ℕ) → length (replicate n false) ≡ n
length-replicate zero = refl
length-replicate (suc n) = ap suc (length-replicate n)

module _ {Slice Failure : Type 0} (p : CheckerParams Slice Failure) where
  -- An operation is granted where it is `NoOp`, or one of the macaroons verifies, is for it, and has
  -- first party conditions that all pass.
  unfoldable pub is_granted : List Slice → Op → Bool
  unfolding some_grants
  is_granted mss op = op == no_op || some_grants p mss op

  unfoldable pub refused : List Slice → List Op → List Op
  unfolding is_granted
  refused mss [] = []
  refused mss (op ∷ ops) =
      let rest = refused mss ops in if is_granted mss op then rest else op ∷ rest

  abbrev flags : List Slice → ℕ → Bool
  flags mss m = (get_at no_status m (statuses p mss)).is_ok

  is_covered-is_granted :
      (mss : List Slice) (v : Verified Failure) (op : Op)
      → init_checker p mss ≡ ok v
      → is_covered (flags mss) v.auth_indexes op ≡ is_granted mss op
  unfolding init_checker is_covered is_granted lookup indexes_of any_ok
  is_covered-is_granted mss v op h =
      ground (arith, init_loop-grants p (flags mss) op 0 mss _ v (statuses-Follows p [] mss) h)

  uncovered-refused :
      (mss : List Slice) (v : Verified Failure) (ops : List Op)
      → init_checker p mss ≡ ok v
      → uncovered (flags mss) v.auth_indexes ops ≡ refused mss ops
  unfolding uncovered refused
  uncovered-refused mss v [] h = refl
  uncovered-refused mss v (op ∷ ops) h =
      rw (is_covered-is_granted mss v op h, uncovered-refused mss v ops h)

  module _ (mss : List Slice) (ops : List Op) (v : Verified Failure)
      (found : init_checker p mss ≡ ok v) where
    context-status : (new_allow_context p mss v ops).status ≡ statuses p mss
    unfolding new_allow_context init_checker
    context-status = rw (init_loop-conditions p 0 mss _ v found) (status_loop-status p mss _)

    context-need : (new_allow_context p mss v ops).need ≡ needs_from 0 ops
    unfolding new_allow_context
    context-need = (status_loop-rest p mss v.conditions _).0

    context-authed : (new_allow_context p mss v ops).authed ≡ replicate (length ops) false
    unfolding new_allow_context
    context-authed = (status_loop-rest p mss v.conditions _).1

    -- The operations that `checkDirect` leaves needed are, in order, those of the request that
    -- are neither `NoOp` nor granted by a macaroon that verifies with conditions that all pass:
    -- where `init` succeeded.
    pub check_direct-refused :
        ops_of (check_direct v.auth_indexes (new_allow_context p mss v ops)).need ≡ refused mss ops
    unfolding check_direct updated
    check_direct-refused =
        let s = new_allow_context p mss v ops in
        let low : (j : ℕ) → 0 ≤ j → get_at false j s.authed ≡ false = λ j le.
          ap (λ (l : List Bool). get_at false j l) context-authed
          ∙ replicate-false (length ops) j in
        let long : 0 + length ops ≤ length s.authed =
          omega (
            arith,
            ap (λ (l : List Bool). length l) context-authed,
            length-replicate (length ops),
          ) in
        let fits : HasStatus (flags mss) s =
          λ m. ap (λ l. (get_at no_status m l).is_ok) context-status in
        let ai = v.auth_indexes in
        ap (λ n. ops_of (update_need (direct_loop ai s.need s).authed n))
          (direct_loop-need ai s.need s)
        ∙ ap (λ n. ops_of (update_need (direct_loop ai n s).authed n)) context-need
        ∙ direct_loop-uncovered (flags mss) ai ops 0 s fits long low
        ∙ uncovered-refused mss v ops found

  refused-All :
      (mss : List Slice) (ops : List Op)
      → (refused mss ops ≡ []) ↔ All (λ op. is_granted mss op ≡ true) ops
  unfolding refused
  refused-All mss [] = (λ h. tt, λ h. refl)
  refused-All mss (op ∷ ops) =
      let rest = refused-All mss ops in
      elim (Bool-cases (is_granted mss op)) [
        | inl granted ↦ (λ h. (granted, rest.0 (ground arith)), λ h. rw granted (rest.1 h.1))
        | inr denied ↦ (λ h. absurd (ground arith), λ h. absurd (ground arith))
      ]

  ops_of_nil : (need : Needs) → ops_of need ≡ [] → need ≡ []
  unfolding ops_of
  ops_of_nil [] h = refl
  ops_of_nil (n ∷ need) h = absurd (ground arith)

  module _ (mss : List Slice) (ops : List Op) (alone : p.authorize_ops ≡ none) where
    need_after : Verified Failure → Needs
    need_after v = (check_direct v.auth_indexes (new_allow_context p mss v ops)).need

    allow_verified-granted :
        (v : Verified Failure)
        → need_after v ≡ []
        → (info : AuthInfo Slice) × (allow_verified p mss ops v ≡ ok info)
    unfolding need_after allow_verified
    allow_verified-granted v h = (
      new_auth_info p mss (check_direct v.auth_indexes (new_allow_context p mss v ops)),
      rw (allow_verified, h),
    )

    allow_verified-denied :
        (v : Verified Failure) (need : Needs)
        → need_after v ≡ need
        → (info : AuthInfo Slice) → allow_verified p mss ops v ≡ ok info
        → need ≡ []
    unfolding need_after allow_verified check_indirect decide
    allow_verified-denied v [] h info done = refl
    allow_verified-denied v (n ∷ need) h info done = absurd (ground arith)

    -- Without an authorizer, and where the verifier fails for no other reason than that a
    -- macaroon does not verify, `Allow` allows a request exactly where each of its operations is
    -- `NoOp` or is one of those for which some macaroon verifies, with first party conditions
    -- that all pass.
    pub allow_iff :
        (v : Verified Failure)
        → init_checker p mss ≡ ok v
        → ((info : AuthInfo Slice) × (allow p mss ops ≡ ok info))
          ↔ All (λ op. is_granted mss op ≡ true) ops
    unfolding allow need_after ops_of
    allow_iff v found =
        let needed = check_direct-refused mss ops v found in
        let all = refused-All mss ops in
        rw found (
          λ h. all.0 (sym needed ∙ ap ops_of (allow_verified-denied v (need_after v) refl h.0 h.1)),
          λ h. allow_verified-granted v (ops_of_nil (need_after v) (needed ∙ all.1 h)),
        )
