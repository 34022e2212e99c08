-- ===== src/Checkers/Caveat/Laws.antt =====
-- `Condition`, `ParseCaveat` and `ConditionWithPrefix` of bakery/checkers.
use mathlib.Core.Path.{subst}
use macaroon_bakery.Prelude.{
  Bytes, ℕ, zero, suc, ◌≡◌, ◌≢◌, ◌⊎◌, inl, inr, refl, sym, ◌∙◌, Option, none, some, [], ◌∷◌, ◌++◌,
  arith, ok, take, take-append, All-append_right,
}
use macaroon_bakery.Strings.Search.{
  index_byte, index_byte-append, index_byte-Lacks, index_byte-some, index_byte-Lacks_before, Lacks,
  drop_past, cut_unique, index_byte-none,
}
use macaroon_bakery.Checkers.Caveat.{
  condition, parse_caveat, cut_caveat, condition_with_prefix, blank, colon,
}

-- A name and an argument that make a condition are what `ParseCaveat` finds in it, if the name is
-- not empty and has no blank.
pub parse_caveat-condition :
    (name arg : Bytes)
    → name ≢ []
    → Lacks blank name
    → parse_caveat (condition name arg) ≡ ok (name, arg)
unfolding parse_caveat condition
parse_caveat-condition [] arg ne free = absurd (ne refl)
parse_caveat-condition (c ∷ name) [] ne free = rw (index_byte-Lacks blank (c ∷ name) free)
parse_caveat-condition (c ∷ name) (a ∷ arg) ne free = rw (
  index_byte-append blank (c ∷ name) (a ∷ arg) free,
  take-append name (blank ∷ a ∷ arg),
  drop_past name blank (a ∷ arg),
)

cut_caveat_sound :
    (cav : Bytes) (o : Option ℕ)
    → index_byte cav blank ≡ o
    → (name arg : Bytes) → cut_caveat cav o ≡ ok (name, arg)
    → Lacks blank name × (((cav ≡ name) × (arg ≡ [])) ⊎ (cav ≡ name ++ blank ∷ arg))
unfolding cut_caveat
cut_caveat_sound cav none e name arg h =
    let en : cav ≡ name = ground arith in
    (subst (Lacks blank) en (index_byte-none blank cav e), inl (en, ground arith))
cut_caveat_sound cav (some zero) e name arg h = cc
cut_caveat_sound cav (some (suc i)) e name arg h =
    let en : take (suc i) cav ≡ name = ground arith in
    (
      subst (Lacks blank) en (index_byte-Lacks_before blank cav (suc i) e),
      inr (index_byte-some blank cav (suc i) e ∙ ground arith),
    )

-- What `ParseCaveat` accepts has a name without blanks, and is the name alone, with an empty
-- argument, or the name, a blank and the argument.
pub parse_caveat_sound :
    (cav name arg : Bytes)
    → parse_caveat cav ≡ ok (name, arg)
    → Lacks blank name × (((cav ≡ name) × (arg ≡ [])) ⊎ (cav ≡ name ++ blank ∷ arg))
unfolding parse_caveat
parse_caveat_sound [] name arg h = cc
parse_caveat_sound (b ∷ s) name arg h =
    cut_caveat_sound (b ∷ s) (index_byte (b ∷ s) blank) refl name arg h

-- The prefix and the condition that make a full condition can be told apart: where a prefix has
-- no colon, and a condition under the empty prefix has none either.
pub condition_with_prefix-injective :
    (p c p' c' : Bytes)
    → Lacks colon p
    → Lacks colon p'
    → (p ≡ [] → Lacks colon c)
    → (p' ≡ [] → Lacks colon c')
    → condition_with_prefix p c ≡ condition_with_prefix p' c'
    → (p ≡ p') × (c ≡ c')
unfolding condition_with_prefix
condition_with_prefix-injective [] c [] c' fp fp' fc fc' h = (refl, h)
condition_with_prefix-injective [] c (x ∷ p') c' fp fp' fc fc' h =
    absurd ((All-append_right _ (x ∷ p') _ (subst (Lacks colon) h (fc refl))).0 refl)
condition_with_prefix-injective (x ∷ p) c [] c' fp fp' fc fc' h =
    absurd ((All-append_right _ (x ∷ p) _ (subst (Lacks colon) (sym h) (fc' refl))).0 refl)
condition_with_prefix-injective (x ∷ p) c (y ∷ p') c' fp fp' fc fc' h =
    cut_unique colon (x ∷ p) c (y ∷ p') c' fp fp' h
