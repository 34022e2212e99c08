-- ===== src/Tests/Declaring.antt =====
-- Declared caveats of bakery/checkers/declared.go on small inputs.
use macaroon_bakery.Prelude.{
  Bytes, codes, ◌≡◌, refl, true, some, none, List, [], ◌∷◌, ◌++◌, arith, lookup, delete, bytes_eq,
}
use macaroon_bakery.Strings.Search.{index_byte, split_two}
use macaroon_bakery.Checkers.Caveat.{parse_caveat, std_namespace}
use macaroon_bakery.Checkers.Namespace.{resolve, resolve_caveat}
use macaroon_bakery.Checkers.Declared.{
  declared_caveat, declaration, declared_cond_in, infer_declared_from_conditions,
}
use macaroon_bakery.Checkers.Declared.Laws.{agreed, declarations, lookup-infer_declared}
use macaroon_bakery.Checkers.Declared.Prefixed.{
  infer-declared_caveat, infer-declared_caveat_prefixed,
}
use macaroon_bakery.Tests.Namespaces.{
  two_uris, two_uris-IsValid, std_only, std_only-IsValid, namespace_run,
}

abbrev conds : List Bytes
conds = codes "declared a x" ∷ codes "declared b y" ∷ codes "declared a z" ∷ codes "other" ∷ []

inferred : infer_declared_from_conditions none conds ≡ (codes "b", codes "y") ∷ []
unfolding infer_declared_from_conditions declaration parse_caveat split_two index_byte delete
    namespace_run
inferred = refl

lookup-infer_declared_example :
    lookup (codes "a") (infer_declared_from_conditions none conds)
    ≡ agreed (codes "a") (declarations (declared_cond_in none) conds)
lookup-infer_declared_example = lookup-infer_declared none conds (codes "a")

std_resolved : resolve (some std_only) std_namespace ≡ ([], true)
unfolding namespace_run
std_resolved = refl

two_resolved : resolve (some two_uris) std_namespace ≡ (codes "s", true)
unfolding namespace_run
two_resolved = refl

abbrev quoted : Bytes → Bytes
quoted key = key

abbrev unregistered : Bytes → Bytes → Bytes
unregistered cond uri = cond ++ uri

infer-declared_caveat_example :
    lookup (codes "user") (
      infer_declared_from_conditions (some std_only) (
        (resolve_caveat unregistered
          (some std_only)
          (declared_caveat quoted (codes "user") (codes "bob"))).condition
        ∷ []))
    ≡ some (codes "bob")
infer-declared_caveat_example =
    infer-declared_caveat quoted unregistered std_only (codes "user") (codes "bob") std_only-IsValid
      std_resolved (λ e. cc) (omega arith)

infer-declared_caveat_prefixed_example :
    lookup (codes "user") (
      infer_declared_from_conditions (some two_uris) (
        (resolve_caveat unregistered
          (some two_uris)
          (declared_caveat quoted (codes "user") (codes "bob"))).condition
        ∷ []))
    ≡ none
infer-declared_caveat_prefixed_example =
    infer-declared_caveat_prefixed quoted unregistered two_uris (codes "s") (codes "user")
      (codes "bob") (codes "user") two_uris-IsValid two_resolved (λ e. cc) (λ e. cc) (omega arith)
