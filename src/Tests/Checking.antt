-- ===== src/Tests/Checking.antt =====
-- Registered checkers and time-before caveats of bakery/checkers on small inputs.
use macaroon_bakery.Prelude.{
  Bytes, codes, ℕ, ◌+◌, ◌≡◌, ◌↔◌, refl, Option, some, none, [], ◌∷◌, arith, ok, err, lookup,
  if◌then◌else◌, ◌==◌, bytes_eq, nat_eq, All,
}
use macaroon_bakery.Strings.Search.{contains_byte, index_byte}
use macaroon_bakery.Checkers.Caveat.{condition, condition_with_prefix, parse_caveat, is_empty}
use macaroon_bakery.Checkers.Namespace.{resolve, resolve_caveat}
use macaroon_bakery.Checkers.Registry.{
  Func, Checker, CheckerInfo, register, add_checker, check_first_party_caveat, failure,
  colon_in_condition, already_registered,
}
use macaroon_bakery.Checkers.Registry.Laws.{
  IsValidChecker, register-IsValidChecker, check_first_party_caveat-register,
}
use macaroon_bakery.Checkers.Macaroons.{MacaroonCaveat}
use macaroon_bakery.Checkers.Declared.{parts_of}
use macaroon_bakery.Checkers.Time.{
  expiry_time, caveat_time, time_before_cond, macaroons_expiry_time,
}
use macaroon_bakery.Checkers.Time.Laws.{
  IsBefore, PassesAt, expiry_time_iff, macaroons_expiry_time_iff,
}
use macaroon_bakery.Tests.Namespaces.{two_uris, two_uris-IsValid, std_only, namespace_run}

-- A checker that fails with its argument, in the contexts that hold a number.
abbrev reject : Func ℕ Bytes
reject ctx cond arg = some arg

abbrev bare : Checker ℕ Bytes
bare = record { namespace = two_uris; checkers = [] }

nothing-registered : (k : Bytes) (i : CheckerInfo ℕ Bytes) → lookup k [] ≡ some i → ⊥
unfolding lookup
nothing-registered k i h = cc

bare-IsValid : IsValidChecker bare
bare-IsValid = record {
  namespace_valid = two_uris-IsValid;
  registered = λ k i h. absurd (nothing-registered k i h);
}

abbrev with_reject : Checker ℕ Bytes
with_reject = record {
  namespace = two_uris;
  checkers =
      (
        codes "h:deny",
        record {
          check_func = reject;
          prefix = codes "h";
          name = codes "deny";
          namespace = codes "http";
        },
      )
      ∷ [];
}

register-reject : register bare (codes "deny") (codes "http") (some reject) ≡ ok with_reject
unfolding namespace_run register add_checker contains_byte index_byte condition_with_prefix
register-reject = refl

register_again :
    register with_reject (codes "deny") (codes "http") (some reject) ≡ err already_registered
unfolding namespace_run register add_checker contains_byte index_byte condition_with_prefix
register_again = refl

register_colon :
    register
      (record { namespace = std_only; checkers = [] })
      (codes "a:b")
      (codes "std")
      (some reject)
    ≡ err colon_in_condition
unfolding namespace_run register add_checker contains_byte index_byte is_empty
register_colon = refl

register-IsValidChecker_example : IsValidChecker with_reject
register-IsValidChecker_example =
    register-IsValidChecker bare with_reject (codes "deny") (codes "http") (some reject)
      bare-IsValid register-reject

abbrev no_text : Bytes → Bytes → Bytes
no_text cond uri = []

check_first_party_caveat-register_example :
    check_first_party_caveat with_reject 7
      (resolve_caveat no_text (some with_reject.namespace) (record {
        condition = condition (codes "deny") (codes "all");
        namespace = codes "http";
        location = [];
      })).condition
    ≡ failure (
        reject 7
          (condition_with_prefix (resolve (some bare.namespace) (codes "http")).0 (codes "deny"))
          (codes "all"))
check_first_party_caveat-register_example =
    check_first_party_caveat-register no_text bare with_reject (codes "deny") (codes "http")
      (codes "all") reject 7 bare-IsValid register-reject (λ e. cc) (omega arith)

-- Times in unary.
abbrev tally : Bytes → Option ℕ
tally [] = some 0
tally (b ∷ s) = elim (tally s) [ none ↦ none | some n ↦ if b == b'1' then some (n + 1) else none ]

abbrev until_two : MacaroonCaveat
until_two = record { id = codes "time-before 11"; verification_id = []; location = [] }

abbrev until_three : MacaroonCaveat
until_three = record { id = codes "time-before 111"; verification_id = []; location = [] }

expires_at_two : expiry_time tally none (until_three ∷ until_two ∷ []) ≡ some 2
unfolding expiry_time caveat_time parts_of parse_caveat condition_with_prefix namespace_run
    index_byte
expires_at_two = refl

expiry_time_iff_example :
    IsBefore 1 (expiry_time tally none (until_three ∷ until_two ∷ []))
    ↔ All (PassesAt tally (time_before_cond none) 1) (until_three ∷ until_two ∷ [])
expiry_time_iff_example = expiry_time_iff tally none 1 (until_three ∷ until_two ∷ [])

macaroons_expiry_time_iff_example :
    IsBefore 1
      (macaroons_expiry_time tally (λ cavs. cavs) none ((until_three ∷ []) ∷ (until_two ∷ []) ∷ []))
    ↔ All
        (λ m. All (PassesAt tally (time_before_cond none) 1) m)
        ((until_three ∷ []) ∷ (until_two ∷ []) ∷ [])
macaroons_expiry_time_iff_example =
    macaroons_expiry_time_iff tally (λ cavs. cavs) none 1
      ((until_three ∷ []) ∷ (until_two ∷ []) ∷ [])
