-- ===== src/Strings/Utf8/Ascii.antt =====
-- The runes of a text that an ASCII byte divides, and the text that runes spell.
use macaroon_bakery.Prelude.{
  Bytes, ℕ, zero, suc, ◌+◌, ◌-◌, ◌≤◌, ◌<◌, ◌≡◌, refl, ap, ◌∙◌, sym, Bool, true, false, Option, none,
  some, List, [], ◌∷◌, ◌++◌, append_assoc, arith, ltb, length, take, drop, take-append-drop,
  length-take, Bool-cases, inl, inr, All,
}
use macaroon_bakery.Strings.Utf8.{
  Rune, Lead, lead, follows, long_rune, lead_rune, decode_rune, decode_rune-append, runes_from,
  runes, width_after, ascii_rune, index_from, index_func, follows-length, all_valid,
}

-- A rune is its first byte and as many of the bytes behind it as it is long.
abbrev Fits : ℕ → Bytes → Rune → Type 0
Fits b s r = (width_after r ≤ length s) × (r.bytes ≡ b ∷ take (width_after r) s)

single-Fits : (b : ℕ) (s : Bytes) (r : Rune) → r.bytes ≡ b ∷ [] → Fits b s r
single-Fits b s r e = rw e (omega arith, refl)

long_rune-Fits : (b : ℕ) (l : Lead) (s : Bytes) → Fits b s (long_rune b l s)
unfolding long_rune
long_rune-Fits b l s = elim (Bool-cases (follows l.extra l.low l.high s)) [
  | inl whole ↦
      let fits : l.extra ≤ length s = follows-length _ l.low l.high s whole in
      let width : suc (length (take l.extra s)) - 1 ≡ l.extra =
        omega (arith, length-take l.extra s fits) in
      rw whole (omega (arith, width), ap (λ n. b ∷ take n s) (sym width))
  | inr broken ↦ rw broken (omega arith, refl)
]

decode_rune-Fits : (b : ℕ) (s : Bytes) → Fits b s (decode_rune b s)
unfolding decode_rune
decode_rune-Fits b s = elim (Bool-cases (ltb b 0x80)) [
  | inl small ↦ rw small (single-Fits b s (ascii_rune b) refl)
  | inr big ↦ rw big (by_lead (lead b))
]
  where
    by_lead : (o : Option Lead) → Fits b s (lead_rune b o s)
    by_lead none = (omega arith, refl)
    by_lead (some l) = long_rune-Fits b l s

-- The runes of a text spell it.
unfoldable pub spell : List Rune → Bytes
spell [] = []
spell (r ∷ rs) = r.bytes ++ spell rs

pub spell-append : (rs qs : List Rune) → spell (rs ++ qs) ≡ spell rs ++ spell qs
unfolding spell
spell-append [] qs = refl
spell-append (r ∷ rs) qs = simp (spell-append rs, append_assoc)

spell-runes_from : (k : ℕ) (s : Bytes) → spell (runes_from k s) ≡ drop k s
unfolding spell runes_from
spell-runes_from zero [] = refl
spell-runes_from (suc k) [] = refl
spell-runes_from (suc k) (b ∷ s) = spell-runes_from k s
spell-runes_from zero (b ∷ s) =
    let w = width_after (decode_rune b s) in
    ap (λ x. x ++ spell (runes_from w s)) (decode_rune-Fits b s).1
    ∙ ap (λ x. b ∷ (take w s ++ x)) (spell-runes_from w s)
    ∙ ap (λ x. b ∷ x) (take-append-drop w s)

pub spell-runes : (s : Bytes) → spell (runes s) ≡ s
unfolding runes
spell-runes s = spell-runes_from 0 s

runes_from-ascii :
    (s : Bytes) (k c : ℕ) (t : Bytes)
    → c < 0x80
    → k ≤ length s
    → runes_from k (s ++ c ∷ t) ≡ runes_from k s ++ ascii_rune c ∷ runes_from 0 t
unfolding runes_from
runes_from-ascii [] zero c t h fits = ground arith
runes_from-ascii [] (suc k) c t h fits = absurd (omega arith)
runes_from-ascii (b ∷ s) (suc k) c t h fits = runes_from-ascii s k c t h (omega arith)
runes_from-ascii (b ∷ s) zero c t h fits = rw (decode_rune-append b s c t h) (
    ap (λ l. decode_rune b s ∷ l)
      (runes_from-ascii s (width_after (decode_rune b s)) c t h (decode_rune-Fits b s).0))

-- An ASCII byte is a rune of its own, whatever stands before it and behind it.
pub runes-ascii :
    (s : Bytes) (c : ℕ) (t : Bytes)
    → c < 0x80
    → runes (s ++ c ∷ t) ≡ runes s ++ ascii_rune c ∷ runes t
unfolding runes
runes-ascii s c t h = runes_from-ascii s 0 c t h (omega arith)

-- No rune of a text passes a test.
abbrev pub NoRune : (ℕ → Bool) → List Rune → Type 0
NoRune f = All (λ r. f r.point ≡ false)

index_from-none : (f : ℕ → Bool) (i : ℕ) (rs : List Rune) → index_from f i rs ≡ none → NoRune f rs
unfolding index_from
index_from-none f i [] h = tt
index_from-none f i (r ∷ rs) h =
    (ground arith, index_from-none f (i + length r.bytes) rs (ground arith))

-- `strings.IndexFunc` answers -1 only where no rune passes.
pub index_func-none : (s : Bytes) (f : ℕ → Bool) → index_func s f ≡ none → NoRune f (runes s)
unfolding index_func
index_func-none s f h = index_from-none f 0 (runes s) h

pub NoRune-mono :
    (f g : ℕ → Bool) (rs : List Rune)
    → ((p : ℕ) → f p ≡ false → g p ≡ false)
    → NoRune f rs
    → NoRune g rs
NoRune-mono f g [] imp h = tt
NoRune-mono f g (r ∷ rs) imp (h, hs) = (imp r.point h, NoRune-mono f g rs imp hs)

all_valid-append :
    (rs qs : List Rune) → all_valid rs ≡ true → all_valid qs ≡ true → all_valid (rs ++ qs) ≡ true
unfolding all_valid
all_valid-append [] qs h k = k
all_valid-append (r ∷ rs) qs h k = ground (arith, all_valid-append rs qs)
