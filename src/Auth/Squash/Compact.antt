-- ===== src/Auth/Squash/Compact.antt =====
-- Predicates on the sorted conditions without duplicates of `final` in bakery/checker.go.
use macaroon_bakery.Prelude.{
  Bytes, ◌≡◌, sym, ◌↔◌, inl, inr, List, [], ◌∷◌, ◌==◌, bytes_eq, bytes_beq_iff, All, Bool-cases,
}
use mathlib.Core.Path.{subst}
use macaroon_bakery.Prelude.Sort.{sort_strings, insert_sorted, bytes_le}
use macaroon_bakery.Auth.Squash.{compact_from, compact}

module _ (P : Bytes → Type 0) where
  All-insert_sorted : (a : Bytes) (l : List Bytes) → All P (insert_sorted a l) ↔ (P a × All P l)
  unfolding insert_sorted
  All-insert_sorted a [] = (λ h. h, λ h. h)
  All-insert_sorted a (b ∷ l) =
      let ih = All-insert_sorted a l in
      elim (Bool-cases (bytes_le a b)) [
        | inl first ↦ rw first (λ h. h, λ h. h)
        | inr later ↦
            rw later
              (λ h. let (pa, rest) = ih.0 h.1 in (pa, (h.0, rest)), λ h. (h.1.0, ih.1 (h.0, h.1.1)))
      ]

  All-sort_strings : (l : List Bytes) → All P (sort_strings l) ↔ All P l
  unfolding sort_strings
  All-sort_strings [] = (λ h. h, λ h. h)
  All-sort_strings (a ∷ l) =
      let ih = All-sort_strings l in
      let one = All-insert_sorted a (sort_strings l) in
      (λ h. let (pa, rest) = one.0 h in (pa, ih.0 rest), λ h. one.1 (h.0, ih.1 h.1))

  All-compact_from :
      (prev : Bytes) (l : List Bytes) → (P prev × All P (compact_from prev l)) ↔ (P prev × All P l)
  unfolding compact_from
  All-compact_from prev [] = (λ h. h, λ h. h)
  All-compact_from prev (c ∷ l) = elim (Bool-cases (c == prev)) [
    | inl same ↦
        let e : prev ≡ c = sym ((bytes_beq_iff c prev).0 same) in
        let ih = All-compact_from prev l in
        rw same (λ h. let (pp, rest) = ih.0 h in (pp, (subst P e pp, rest)), λ h. ih.1 (h.0, h.1.1))
    | inr new ↦ let ih = All-compact_from c l in rw new (λ h. (h.0, ih.0 h.1), λ h. (h.0, ih.1 h.1))
  ]

  All-compact : (l : List Bytes) → All P (compact l) ↔ All P l
  unfolding compact
  All-compact [] = (λ h. h, λ h. h)
  All-compact (c ∷ l) = All-compact_from c l

  pub All-sorted_compact : (l : List Bytes) → All P (compact (sort_strings l)) ↔ All P l
  All-sorted_compact l =
      let c = All-compact (sort_strings l) in
      let s = All-sort_strings l in (λ h. s.0 (c.0 h), λ h. c.1 (s.1 h))
