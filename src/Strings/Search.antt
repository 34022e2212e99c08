-- ===== src/Strings/Search.antt =====
-- `strings.IndexByte`, `strings.LastIndex` of a byte, `strings.Contains` of a byte and
-- `strings.SplitN(s, sep, 2)`. The answer -1 is `none`.
use macaroon_bakery.Prelude.{
  Bytes, ℕ, zero, suc, ◌<◌, ◌≡◌, ◌≢◌, refl, sym, ap, ◌∙◌, Bool, true, false, Option, none, some, [],
  ◌∷◌, ◌++◌, arith, nat_beq, if◌then◌else◌, length, take, drop, take-append, All, Option-cases, inl,
  inr, All-append_right,
}
use mathlib.Core.Path.{subst}
use macaroon_bakery.Strings.Utf8.{runes, ascii_rune}
use macaroon_bakery.Strings.Utf8.Ascii.{runes-ascii, NoRune}

unfoldable pub index_byte : Bytes → ℕ → Option ℕ
index_byte [] c = none
index_byte (b ∷ s) c =
    if nat_beq b c then some 0 else elim (index_byte s c) [ none ↦ none | some i ↦ some (suc i) ]

unfoldable pub last_index : Bytes → ℕ → Option ℕ
last_index [] c = none
last_index (b ∷ s) c = elim (last_index s c) [
  | some i ↦ some (suc i)
  | none ↦ if nat_beq b c then some 0 else none
]

unfoldable pub contains_byte : Bytes → ℕ → Bool
contains_byte s c = elim (index_byte s c) [ none ↦ false | some i ↦ true ]

-- `parts := strings.SplitN(s, sep, 2)`: both parts, or `none` where `len(parts) != 2`.
unfoldable pub split_two : Bytes → ℕ → Option (Bytes × Bytes)
unfolding index_byte
split_two s c = elim (index_byte s c) [ none ↦ none | some i ↦ some (take i s, drop (suc i) s) ]

abbrev pub Lacks : ℕ → Bytes → Type 0
Lacks c = All (λ x. x ≢ c)

module _ (c : ℕ) where
  pub index_byte-none : (s : Bytes) → index_byte s c ≡ none → Lacks c s
  unfolding index_byte
  index_byte-none [] h = tt
  index_byte-none (b ∷ s) h = (ground arith, index_byte-none s (ground arith))

  pub index_byte-Lacks : (s : Bytes) → Lacks c s → index_byte s c ≡ none
  unfolding index_byte
  index_byte-Lacks [] h = refl
  index_byte-Lacks (b ∷ s) (h, hs) = ground (arith, index_byte-Lacks s hs)

  pub index_byte-append : (s t : Bytes) → Lacks c s → index_byte (s ++ c ∷ t) c ≡ some (length s)
  unfolding index_byte
  index_byte-append [] t h = ground arith
  index_byte-append (b ∷ s) t (h, hs) = ground (arith, index_byte-append s t hs)

  last_index-Lacks : (s : Bytes) → Lacks c s → last_index s c ≡ none
  unfolding last_index
  last_index-Lacks [] h = refl
  last_index-Lacks (b ∷ s) (h, hs) = ground (arith, last_index-Lacks s hs)

  pub last_index-append : (s t : Bytes) → Lacks c t → last_index (s ++ c ∷ t) c ≡ some (length s)
  unfolding last_index
  last_index-append [] t h = ground (arith, last_index-Lacks t h)
  last_index-append (b ∷ s) t h = ground (arith, last_index-append s t h)

  -- The text around the first `c`.
  pub index_byte-some :
      (s : Bytes) (i : ℕ) → index_byte s c ≡ some i → s ≡ take i s ++ c ∷ drop (suc i) s
  unfolding index_byte
  index_byte-some [] i h = cc
  index_byte-some (b ∷ s) zero h = ground arith
  index_byte-some (b ∷ s) (suc i) h = ap (λ l. b ∷ l) (index_byte-some s i (ground arith))

  pub index_byte-Lacks_before : (s : Bytes) (i : ℕ) → index_byte s c ≡ some i → Lacks c (take i s)
  unfolding index_byte
  index_byte-Lacks_before [] i h = cc
  index_byte-Lacks_before (b ∷ s) zero h = tt
  index_byte-Lacks_before (b ∷ s) (suc i) h =
      (ground arith, index_byte-Lacks_before s i (ground arith))

pub drop_past : (s : Bytes) (c : ℕ) (t : Bytes) → drop (suc (length s)) (s ++ c ∷ t) ≡ t
drop_past [] c t = refl
drop_past (b ∷ s) c t = drop_past s c t

pub split_two-append :
    (s : Bytes) (c : ℕ) (t : Bytes) → Lacks c s → split_two (s ++ c ∷ t) c ≡ some (s, t)
unfolding split_two
split_two-append s c t h =
    rw (index_byte-append c s t h, split_two, take-append s (c ∷ t), drop_past s c t)

-- A text with no rune `c`, an ASCII one, has no byte `c` either.
pub NoRune-Lacks :
    (f : ℕ → Bool) (c : ℕ) (s : Bytes) → c < 0x80 → f c ≡ true → NoRune f (runes s) → Lacks c s
NoRune-Lacks f c s h t free = elim (Option-cases (index_byte s c)) [
  | inl absent ↦ index_byte-none c s absent
  | inr (i, at) ↦
      let before = take i s in
      let behind = drop (suc i) s in
      let parts : NoRune f (runes (before ++ c ∷ behind)) =
        subst (λ x. NoRune f (runes x)) (index_byte-some c s i at) free in
      let met : NoRune f (ascii_rune c ∷ runes behind) =
        All-append_right _ (runes before) _
          (subst (NoRune f) (runes-ascii before c behind h) parts) in
      cc (met.0, t)
]

-- A text is cut in one way at its first `c`.
pub cut_unique :
    (c : ℕ) (a s b t : Bytes)
    → Lacks c a
    → Lacks c b
    → (a ++ c ∷ s) ≡ (b ++ c ∷ t)
    → (a ≡ b) × (s ≡ t)
cut_unique c a s b t ha hb e =
    let both : some (a, s) ≡ some (b, t) =
      sym (split_two-append a c s ha) ∙ ap (λ x. split_two x c) e ∙ split_two-append b c t hb in
    (cc (both), cc (both))
