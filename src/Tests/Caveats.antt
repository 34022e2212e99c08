-- ===== src/Tests/Caveats.antt =====
-- Caveat conditions of bakery/checkers on small inputs.
use macaroon_bakery.Prelude.{codes, ◌≡◌, ◌⊎◌, refl, [], ◌∷◌, ◌++◌, arith, ok, err}
use macaroon_bakery.Strings.Search.{index_byte, Lacks}
use macaroon_bakery.Checkers.Caveat.{
  condition, parse_caveat, starts_with_space, empty_caveat, blank,
}
use macaroon_bakery.Checkers.Caveat.Laws.{
  parse_caveat-condition, parse_caveat_sound, condition_with_prefix-injective,
}

parse_errors :
    (parse_caveat (codes " a") ≡ err starts_with_space) × (parse_caveat [] ≡ err empty_caveat)
unfolding parse_caveat index_byte
parse_errors = (refl, refl)

parse_three : parse_caveat (codes "declared a b") ≡ ok (codes "declared", codes "a b")
unfolding parse_caveat index_byte
parse_three = refl

parse_caveat-condition_example :
    parse_caveat (condition (codes "declared") (codes "a b")) ≡ ok (codes "declared", codes "a b")
parse_caveat-condition_example =
    parse_caveat-condition (codes "declared") (codes "a b") (λ e. cc) (omega arith)

parse_caveat_sound_example :
    Lacks blank (codes "declared")
    × (((codes "declared a b" ≡ codes "declared") × (codes "a b" ≡ []))
        ⊎ (codes "declared a b" ≡ codes "declared" ++ blank ∷ codes "a b"))
parse_caveat_sound_example =
    parse_caveat_sound (codes "declared a b") (codes "declared") (codes "a b") parse_three

condition_with_prefix-injective_example : (codes "s" ≡ codes "s") × (codes "a:b" ≡ codes "a:b")
condition_with_prefix-injective_example =
    condition_with_prefix-injective (codes "s") (codes "a:b") (codes "s") (codes "a:b")
      (omega arith) (omega arith) (λ e. cc) (λ e. cc) refl
