-- ===== src/Auth/Granting.antt =====
-- What `init` and `newAllowContext` of bakery/checker.go find out about the macaroons.
use mathlib.Core.Path.{subst₂}
use macaroon_bakery.Prelude.{
  Bytes, ℕ, suc, ◌≡◌, refl, ap, sym, ◌∙◌, Bool, true, false, ◌&&◌, ◌||◌, Option, none, some, List,
  [], ◌∷◌, ◌++◌, map, arith, ◌==◌, Result, ok, err, >>=-eq-ok, Map, lookup, insert, lookup-insert,
  length, length-append, append_assoc, append-nil,
}
use macaroon_bakery.Auth.{
  Op, op_eq, op_beq_iff, MacaroonStatus, no_status, get_at, indexes_of, add_indexes, VerifyError,
  verification_error, other_error, AllowContext, Verified, CheckerParams,
}
use macaroon_bakery.Auth.Allow.{init_step, init_loop, check_conditions, status_of, status_loop}
use macaroon_bakery.Auth.Direct.{any_ok}

unfoldable pub includes : Op → List Op → Bool
includes op [] = false
includes op (o ∷ ops) = o == op || includes op ops

module _ {Slice Failure : Type 0} (p : CheckerParams Slice Failure) where
  -- The first party conditions of a macaroon, none if it does not verify.
  abbrev pub conditions_of : Result (VerifyError Failure) (List Op × List Bytes) → List Bytes
  conditions_of (err e) = []
  conditions_of (ok (ops, conds)) = conds

  abbrev pub passes : Option Failure → Bool
  passes none = true
  passes (some e) = false

  -- A macaroon that verifies for an operation and whose conditions all pass.
  unfoldable pub grants : Slice → Op → Result (VerifyError Failure) (List Op × List Bytes) → Bool
  unfolding includes
  grants ms op (err e) = false
  grants ms op (ok (ops, conds)) = includes op ops && passes (check_conditions p ms conds)

  unfoldable pub some_grants : List Slice → Op → Bool
  unfolding grants
  some_grants [] op = false
  some_grants (ms ∷ mss) op = grants ms op (p.verify_macaroon ms) || some_grants mss op

  pub fine : Slice → Option Failure
  fine ms = check_conditions p ms (conditions_of (p.verify_macaroon ms))

  -- The flags tell of each macaroon from an index on whether its conditions pass.
  pub Follows : (ℕ → Bool) → ℕ → List Slice → Type 0
  Follows f i [] = Unit
  Follows f i (ms ∷ mss) = (f i ≡ passes (fine ms)) × Follows f (suc i) mss

  any_ok-append :
      (f : ℕ → Bool) (xs : List ℕ) (i : ℕ) → any_ok f (xs ++ i ∷ []) ≡ (any_ok f xs || f i)
  unfolding any_ok
  any_ok-append f [] i = ground arith
  any_ok-append f (x ∷ xs) i = ground (arith, any_ok-append f xs i)

  any_ok-add_indexes :
      (f : ℕ → Bool) (i : ℕ) (op : Op) (ops : List Op) (m : Map Op (List ℕ))
      → any_ok f (indexes_of (lookup op (add_indexes i ops m)))
        ≡ (any_ok f (indexes_of (lookup op m)) || includes op ops && f i)
  unfolding add_indexes includes
  any_ok-add_indexes f i op [] m = ground arith
  any_ok-add_indexes f i op (o ∷ ops) m =
      let old = indexes_of (lookup o m) in
      ground (
        arith,
        any_ok-add_indexes f i op ops (insert o (old ++ i ∷ []) m),
        lookup-insert o op (old ++ i ∷ []) m,
        any_ok-append f old i,
        op_beq_iff o op,
      )

  module _ (f : ℕ → Bool) (op : Op) where
    abbrev is_any_ok : Verified Failure → Bool
    is_any_ok v = any_ok f (indexes_of (lookup op v.auth_indexes))

    init_step-grants :
        (i : ℕ) (ms : Slice) (v v' : Verified Failure)
        (r : Result (VerifyError Failure) (List Op × List Bytes))
        → f i ≡ passes (check_conditions p ms (conditions_of r))
        → init_step p i v r ≡ ok v'
        → is_any_ok v' ≡ (is_any_ok v || grants ms op r)
    unfolding init_step grants
    init_step-grants i ms v v' (err (other_error e)) fi h = cc
    init_step-grants i ms v v' (err (verification_error e)) fi h = ground arith
    init_step-grants i ms v v' (ok (ops, conds)) fi h =
        ground (arith, any_ok-add_indexes f i op ops v.auth_indexes)

    pub init_loop-grants :
        (i : ℕ) (mss : List Slice) (v v' : Verified Failure)
        → Follows f i mss
        → init_loop p i mss v ≡ ok v'
        → is_any_ok v' ≡ (is_any_ok v || some_grants mss op)
    unfolding init_loop some_grants Follows fine
    init_loop-grants i [] v v' fol h = ground arith
    init_loop-grants i (ms ∷ mss) v v' (fi, fol) h =
        let (v1, one, rest) =
          >>=-eq-ok (init_step p i v (p.verify_macaroon ms)) (init_loop p (suc i) mss) h in
        ground (
          arith,
          init_loop-grants (suc i) mss v1 v' fol rest,
          init_step-grants i ms v v1 (p.verify_macaroon ms) fi one,
        )

  abbrev pub all_conditions_of : List Slice → List (List Bytes)
  all_conditions_of mss = map (λ ms. conditions_of (p.verify_macaroon ms)) mss

  init_step-conditions :
      (i : ℕ) (v v' : Verified Failure) (r : Result (VerifyError Failure) (List Op × List Bytes))
      → init_step p i v r ≡ ok v'
      → v'.conditions ≡ v.conditions ++ conditions_of r ∷ []
  unfolding init_step
  init_step-conditions i v v' (err (other_error e)) h = cc
  init_step-conditions i v v' (err (verification_error e)) h = cc
  init_step-conditions i v v' (ok (ops, conds)) h = cc

  pub init_loop-conditions :
      (i : ℕ) (mss : List Slice) (v v' : Verified Failure)
      → init_loop p i mss v ≡ ok v'
      → v'.conditions ≡ v.conditions ++ all_conditions_of mss
  unfolding init_loop
  init_loop-conditions i [] v v' h = ground (arith, append-nil v.conditions)
  init_loop-conditions i (ms ∷ mss) v v' h =
      let (v1, one, rest) =
        >>=-eq-ok (init_step p i v (p.verify_macaroon ms)) (init_loop p (suc i) mss) h in
      init_loop-conditions (suc i) mss v1 v' rest
      ∙ rw (init_step-conditions i v v1 (p.verify_macaroon ms) one) (simp append_assoc)

  abbrev pub statuses : List Slice → List MacaroonStatus
  statuses mss = map (λ ms. status_of p (fine ms)) mss

  pub status_loop-status :
      (mss : List Slice) (s : AllowContext Failure)
      → (status_loop p mss (all_conditions_of mss) s).status ≡ s.status ++ statuses mss
  unfolding status_loop fine
  status_loop-status [] s = sym (append-nil s.status)
  status_loop-status (ms ∷ mss) s = status_loop-status mss _ ∙ simp append_assoc

  pub status_loop-rest :
      (mss : List Slice) (conditions : List (List Bytes)) (s : AllowContext Failure)
      → ((status_loop p mss conditions s).need ≡ s.need)
        × ((status_loop p mss conditions s).authed ≡ s.authed)
  unfolding status_loop
  status_loop-rest [] conditions s = (refl, refl)
  status_loop-rest (ms ∷ mss) [] s = (refl, refl)
  status_loop-rest (ms ∷ mss) (conds ∷ conditions) s = status_loop-rest mss conditions _

  get_at-append :
      (pre post : List MacaroonStatus) (st : MacaroonStatus)
      → get_at no_status (length pre) (pre ++ st ∷ post) ≡ st
  unfolding get_at
  get_at-append [] post st = refl
  get_at-append (x ∷ pre) post st = get_at-append pre post st

  is_ok-status_of : (o : Option Failure) → (status_of p o).is_ok ≡ passes o
  is_ok-status_of none = refl
  is_ok-status_of (some e) = refl

  pub statuses-Follows :
      (pre : List MacaroonStatus) (mss : List Slice)
      → Follows (λ m. (get_at no_status m (pre ++ statuses mss)).is_ok) (length pre) mss
  unfolding Follows
  statuses-Follows pre [] = tt
  statuses-Follows pre (ms ∷ mss) =
      let st = status_of p (fine ms) in
      (
        ap (λ (x : MacaroonStatus). x.is_ok) (get_at-append pre (statuses mss) st)
            ∙ is_ok-status_of (fine ms),
        subst₂ (λ n l. Follows (λ m. (get_at no_status m l).is_ok) n mss)
            (omega (arith, length-append pre (st ∷ []))) (append_assoc pre (st ∷ []) (statuses mss))
            (statuses-Follows (pre ++ st ∷ []) mss),
      )
