-- ===== src/Strings/Split.antt =====
-- `strings.Split` and `strings.Join` at a separator of one byte.
use macaroon_bakery.Prelude.{
  Bytes, ℕ, ◌≡◌, ◌≢◌, refl, ap, ◌∙◌, List, [], ◌∷◌, ◌++◌, arith, nat_beq, if◌then◌else◌, All,
  Bool-cases, inl, inr,
}
use macaroon_bakery.Strings.Search.{Lacks}

-- A byte before the first part.
abbrev pub push_byte : ℕ → List Bytes → List Bytes
push_byte b [] = (b ∷ []) ∷ []
push_byte b (p ∷ ps) = (b ∷ p) ∷ ps

unfoldable pub split : ℕ → Bytes → List Bytes
split c [] = [] ∷ []
split c (b ∷ s) = let ps = split c s in if nat_beq b c then [] ∷ ps else push_byte b ps

unfoldable pub join : ℕ → List Bytes → Bytes
join c [] = []
join c (p ∷ []) = p
join c (p ∷ q ∷ ps) = p ++ c ∷ join c (q ∷ ps)

pub split-ne-nil : (c : ℕ) (s : Bytes) → split c s ≢ []
unfolding split
split-ne-nil c [] h = cc
split-ne-nil c (b ∷ s) h = elim (Bool-cases (nat_beq b c)) [
  | inl here ↦ ground arith
  | inr later ↦ push_byte-ne-nil b (split c s) (ground arith)
]
  where
    push_byte-ne-nil : (b : ℕ) (ps : List Bytes) → push_byte b ps ≢ []
    push_byte-ne-nil b [] h = cc
    push_byte-ne-nil b (p ∷ ps) h = cc

join-push_byte : (c b : ℕ) (ps : List Bytes) → ps ≢ [] → join c (push_byte b ps) ≡ b ∷ join c ps
unfolding join
join-push_byte c b [] ne = absurd (ne refl)
join-push_byte c b (p ∷ []) ne = refl
join-push_byte c b (p ∷ q ∷ ps) ne = refl

join-cons : (c : ℕ) (p : Bytes) (ps : List Bytes) → ps ≢ [] → join c (p ∷ ps) ≡ p ++ c ∷ join c ps
unfolding join
join-cons c p [] ne = absurd (ne refl)
join-cons c p (q ∷ ps) ne = refl

-- Joining the parts gives the text back.
pub join-split : (c : ℕ) (s : Bytes) → join c (split c s) ≡ s
unfolding split
join-split c [] = unfold join in refl
join-split c (b ∷ s) = elim (Bool-cases (nat_beq b c)) [
  | inl here ↦
      rw here (join-cons c [] (split c s) (split-ne-nil c s) ∙ ground (arith, join-split c s))
  | inr later ↦
      rw later (join-push_byte c b (split c s) (split-ne-nil c s) ∙ ground (arith, join-split c s))
]

-- No part holds the separator, nor any byte that the text lacks.
pub split-Lacks : (c d : ℕ) (s : Bytes) → Lacks d s → All (Lacks d) (split c s)
unfolding split
split-Lacks c d [] h = (tt, tt)
split-Lacks c d (b ∷ s) h = elim (Bool-cases (nat_beq b c)) [
  | inl here ↦ rw here (tt, split-Lacks c d s h.1)
  | inr later ↦ rw later (pushed (split c s) (split-Lacks c d s h.1))
]
  where
    pushed : (ps : List Bytes) → All (Lacks d) ps → All (Lacks d) (push_byte b ps)
    pushed [] k = ((h.0, tt), tt)
    pushed (p ∷ ps) k = ((h.0, k.0), k.1)

pub split-Lacks_separator : (c : ℕ) (s : Bytes) → All (Lacks c) (split c s)
unfolding split
split-Lacks_separator c [] = (tt, tt)
split-Lacks_separator c (b ∷ s) = elim (Bool-cases (nat_beq b c)) [
  | inl here ↦ rw here (tt, split-Lacks_separator c s)
  | inr later ↦ rw later (pushed (ground arith) (split c s) (split-Lacks_separator c s))
]
  where
    pushed : b ≢ c → (ps : List Bytes) → All (Lacks c) ps → All (Lacks c) (push_byte b ps)
    pushed ne [] k = ((ne, tt), tt)
    pushed ne (p ∷ ps) k = ((ne, k.0), k.1)

split-word : (c : ℕ) (p : Bytes) → Lacks c p → split c p ≡ p ∷ []
unfolding split
split-word c [] h = refl
split-word c (b ∷ p) (ne, h) = ground (arith, split-word c p h)

split-cons : (c : ℕ) (p s : Bytes) → Lacks c p → split c (p ++ c ∷ s) ≡ p ∷ split c s
unfolding split
split-cons c [] s h = ground arith
split-cons c (b ∷ p) s (ne, h) = ground (arith, split-cons c p s h)

-- Splitting what was joined gives the parts back.
pub split-join : (c : ℕ) (ps : List Bytes) → ps ≢ [] → All (Lacks c) ps → split c (join c ps) ≡ ps
unfolding join
split-join c [] ne h = absurd (ne refl)
split-join c (p ∷ []) ne h = split-word c p h.0
split-join c (p ∷ q ∷ ps) ne h =
    split-cons c p (join c (q ∷ ps)) h.0 ∙ ap (λ l. p ∷ l) (split-join c (q ∷ ps) (λ e. cc) h.1)
