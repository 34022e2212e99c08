-- ===== src/Auth/Direct.antt =====
-- The operations that the macaroons allow directly: `checkDirect` of bakery/checker.go.
use macaroon_bakery.Prelude.{
  ℕ, zero, suc, ◌+◌, ◌≤◌, ◌<◌, ◌≡◌, refl, ap, ◌∙◌, Bool, true, false, ◌||◌, List, [], ◌∷◌, arith,
  nat_beq, if◌then◌else◌, ◌==◌, Map, lookup, length, Bool-cases, inl, inr,
}
use macaroon_bakery.Auth.{
  Op, op_eq, no_op, MacaroonStatus, no_status, get_at, modify_at, Needs, needs_from, ops_of,
  update_need, indexes_of, AllowContext, grant, direct_by, direct_step, direct_loop,
}

unfoldable pub any_ok : (ℕ → Bool) → List ℕ → Bool
any_ok f [] = false
any_ok f (m ∷ ms) = f m || any_ok f ms

-- An operation is covered where it is `NoOp` or one of its macaroons is fine.
unfoldable pub is_covered : (ℕ → Bool) → Map Op (List ℕ) → Op → Bool
unfolding any_ok
is_covered f auth_indexes op = op == no_op || any_ok f (indexes_of (lookup op auth_indexes))

unfoldable pub uncovered : (ℕ → Bool) → Map Op (List ℕ) → List Op → List Op
unfolding is_covered
uncovered f auth_indexes [] = []
uncovered f auth_indexes (op ∷ ops) =
    let rest = uncovered f auth_indexes ops in
    if is_covered f auth_indexes op then rest else op ∷ rest

raise : ℕ → List Bool → List Bool
raise i xs = modify_at i (λ _. true) xs

raised : (i : ℕ) (xs : List Bool) → i < length xs → get_at false i (raise i xs) ≡ true
unfolding raise get_at modify_at
raised i [] h = absurd (omega arith)
raised zero (x ∷ xs) h = refl
raised (suc i) (x ∷ xs) h = raised i xs (omega arith)

raised_other :
    (i j : ℕ) (xs : List Bool)
    → nat_beq i j ≡ false
    → get_at false j (raise i xs) ≡ get_at false j xs
unfolding raise get_at modify_at
raised_other i j [] h = refl
raised_other zero zero (x ∷ xs) h = absurd (ground arith)
raised_other zero (suc j) (x ∷ xs) h = refl
raised_other (suc i) zero (x ∷ xs) h = refl
raised_other (suc i) (suc j) (x ∷ xs) h = raised_other i j xs (ground arith)

length-raise : (i : ℕ) (xs : List Bool) → length (raise i xs) ≡ length xs
unfolding raise modify_at
length-raise i [] = refl
length-raise zero (x ∷ xs) = refl
length-raise (suc i) (x ∷ xs) = ap suc (length-raise i xs)

marked_ok :
    (m i : ℕ) (xs : List MacaroonStatus)
    → (get_at no_status m (modify_at i (λ st. record st { is_used = true }) xs)).is_ok
      ≡ (get_at no_status m xs).is_ok
unfolding get_at modify_at
marked_ok m i [] = refl
marked_ok zero zero (x ∷ xs) = refl
marked_ok (suc m) zero (x ∷ xs) = refl
marked_ok zero (suc i) (x ∷ xs) = refl
marked_ok (suc m) (suc i) (x ∷ xs) = marked_ok m i xs

module _ {Failure : Type 0} (f : ℕ → Bool) where
  -- The macaroons that are fine in a context.
  abbrev pub HasStatus : AllowContext Failure → Type 0
  HasStatus s = (m : ℕ) → (get_at no_status m s.status).is_ok ≡ f m

  direct_by-authed :
      (op : Op) (i : ℕ) (ms : List ℕ) (s : AllowContext Failure)
      → HasStatus s
      → (direct_by op i ms s).authed ≡ (if any_ok f ms then raise i s.authed else s.authed)
  unfolding direct_by any_ok raise
  direct_by-authed op i [] s h = refl
  direct_by-authed op i (m ∷ ms) s h = ground (arith, h m, direct_by-authed op i ms s h)

  grant-HasStatus :
      (m : ℕ) (op : Op) (i : ℕ) (s : AllowContext Failure)
      → HasStatus s
      → HasStatus (grant m op i s)
  unfolding grant
  grant-HasStatus m op i s h n = marked_ok n m s.status ∙ h n

  direct_by-HasStatus :
      (op : Op) (i : ℕ) (ms : List ℕ) (s : AllowContext Failure)
      → HasStatus s
      → HasStatus (direct_by op i ms s)
  unfolding direct_by
  direct_by-HasStatus op i [] s h = h
  direct_by-HasStatus op i (m ∷ ms) s h = elim (Bool-cases (get_at no_status m s.status).is_ok) [
    | inl fine ↦ rw fine (grant-HasStatus m op i s h)
    | inr bad ↦ rw bad (direct_by-HasStatus op i ms s h)
  ]

  module _ (auth_indexes : Map Op (List ℕ)) where
    direct_step-authed :
        (op : Op) (i : ℕ) (s : AllowContext Failure)
        → HasStatus s
        → (direct_step auth_indexes op i s).authed
          ≡ (if is_covered f auth_indexes op then raise i s.authed else s.authed)
    unfolding direct_step is_covered raise
    direct_step-authed op i s h =
        ground (arith, direct_by-authed op i (indexes_of (lookup op auth_indexes)) s h)

    direct_step-HasStatus :
        (op : Op) (i : ℕ) (s : AllowContext Failure)
        → HasStatus s
        → HasStatus (direct_step auth_indexes op i s)
    unfolding direct_step
    direct_step-HasStatus op i s h = elim (Bool-cases (op == no_op)) [
      | inl free ↦ rw free h
      | inr bound ↦ rw bound (direct_by-HasStatus op i _ s h)
    ]

    -- The operations from an index on leave the flags below it.
    direct_loop-below :
        (ops : List Op) (k j : ℕ) (s : AllowContext Failure)
        → HasStatus s
        → j < k
        → get_at false j (direct_loop auth_indexes (needs_from k ops) s).authed
          ≡ get_at false j s.authed
    unfolding direct_loop needs_from
    direct_loop-below [] k j s h lt = refl
    direct_loop-below (op ∷ ops) k j s h lt =
        let other : nat_beq k j ≡ false = ground arith in
        let rest =
          direct_loop-below ops (suc k) j (direct_step auth_indexes op k s)
            (direct_step-HasStatus op k s h) (omega arith) in
        rest ∙ ground (arith, direct_step-authed op k s h, raised_other k j s.authed other)

    pub direct_loop-uncovered :
        (ops : List Op) (k : ℕ) (s : AllowContext Failure)
        → HasStatus s
        → k + length ops ≤ length s.authed
        → ((j : ℕ) → k ≤ j → get_at false j s.authed ≡ false)
        → ops_of
            (update_need (direct_loop auth_indexes (needs_from k ops) s).authed (needs_from k ops))
          ≡ uncovered f auth_indexes ops
    unfolding direct_loop needs_from update_need ops_of uncovered
    direct_loop-uncovered [] k s h long low = refl
    direct_loop-uncovered (op ∷ ops) k s h long low =
        let s1 = direct_step auth_indexes op k s in
        let h1 : HasStatus s1 = direct_step-HasStatus op k s h in
        let step = direct_step-authed op k s h in
        let below = direct_loop-below ops (suc k) k s1 h1 (omega arith) in
        let low1 : (j : ℕ) → suc k ≤ j → get_at false j s1.authed ≡ false = λ j le.
          ground (arith, step, raised_other k j s.authed (ground arith), low j (omega arith)) in
        let long1 : suc k + length ops ≤ length s1.authed =
          ground (arith, step, length-raise k s.authed) in
        ground (
          arith,
          direct_loop-uncovered ops (suc k) s1 h1 long1 low1,
          below,
          step,
          raised k s.authed (omega arith),
          low k (omega arith),
        )

module _ {Failure : Type 0} where
  direct_by-need :
      (op : Op) (i : ℕ) (ms : List ℕ) (s : AllowContext Failure)
      → (direct_by op i ms s).need ≡ s.need
  unfolding direct_by grant
  direct_by-need op i [] s = refl
  direct_by-need op i (m ∷ ms) s = ground (arith, direct_by-need op i ms s)

  direct_step-need :
      (auth_indexes : Map Op (List ℕ)) (op : Op) (i : ℕ) (s : AllowContext Failure)
      → (direct_step auth_indexes op i s).need ≡ s.need
  unfolding direct_step
  direct_step-need auth_indexes op i s =
      ground (arith, direct_by-need op i (indexes_of (lookup op auth_indexes)) s)

  pub direct_loop-need :
      (auth_indexes : Map Op (List ℕ)) (need : Needs) (s : AllowContext Failure)
      → (direct_loop auth_indexes need s).need ≡ s.need
  unfolding direct_loop
  direct_loop-need auth_indexes [] s = refl
  direct_loop-need auth_indexes ((op, i) ∷ need) s =
      direct_loop-need auth_indexes need (direct_step auth_indexes op i s)
      ∙ direct_step-need auth_indexes op i s
