-- ===== src/Checkers/Declared/Prefixed.antt =====
-- `DeclaredCaveat` against `InferDeclaredFromConditions`, which looks for `prefix + "declared"`.
use macaroon_bakery.Prelude.{
  Bytes, ℕ, ◌≡◌, ◌≢◌, refl, ap, ◌∙◌, true, none, some, [], ◌∷◌, ◌++◌, arith, if◌then◌else◌, ◌==◌,
  bytes_eq, bytes_beq_iff, beq_refl, lookup, length, length-append, ok,
}
use macaroon_bakery.Strings.Search.{contains_byte, index_byte-Lacks, split_two-append, Lacks}
use macaroon_bakery.Checkers.Caveat.{
  first_party, condition, condition_with_prefix, parse_caveat, is_empty, blank, colon,
  cond_declared, std_namespace,
}
use macaroon_bakery.Checkers.Caveat.Laws.{parse_caveat-condition}
use macaroon_bakery.Checkers.Namespace.{Namespace, resolve, resolve_caveat}
use macaroon_bakery.Checkers.Namespace.Valid.{IsValid}
use macaroon_bakery.Checkers.Namespace.Text.{prefix-Lacks-blank}
use macaroon_bakery.Checkers.Registry.Laws.{
  condition-prefix, full_cond-Lacks, full_cond-ne-nil, resolved-IsEntry, resolve_caveat-found,
}
use macaroon_bakery.Checkers.Declared.{
  declared_caveat, declaration, declared_cond_in, infer_declared_from_conditions,
}
use macaroon_bakery.Checkers.Declared.Laws.{declarations, disputed, agreed, lookup-infer_declared}

pub declared_caveat-valid :
    (bad_key : Bytes → Bytes) (key value : Bytes)
    → key ≢ []
    → Lacks blank key
    → declared_caveat bad_key key value ≡ first_party cond_declared (key ++ blank ∷ value)
unfolding declared_caveat contains_byte is_empty
declared_caveat-valid bad_key [] value ne free = absurd (ne refl)
declared_caveat-valid bad_key (x ∷ key) value ne free =
    ground (arith, index_byte-Lacks blank (x ∷ key) free)

pub cond_declared-Lacks : Lacks blank cond_declared
cond_declared-Lacks = omega arith

module _ (bad_key : Bytes → Bytes) (unregistered : Bytes → Bytes → Bytes) (ns : Namespace)
    (prefix : Bytes) (valid : IsValid ns)
    (found : resolve (some ns) std_namespace ≡ (prefix, true)) where
  -- The condition that a declared caveat has in a macaroon.
  abbrev pub declared_condition : Bytes → Bytes → Bytes
  declared_condition key value =
      (resolve_caveat unregistered (some ns) (declared_caveat bad_key key value)).condition

  parse-declared :
      (key value : Bytes)
      → key ≢ []
      → Lacks blank key
      → parse_caveat (declared_condition key value)
        ≡ ok (condition_with_prefix prefix cond_declared, key ++ blank ∷ value)
  unfolding first_party
  parse-declared key value ne free =
      let rest = key ++ blank ∷ value in
      let full = condition_with_prefix prefix cond_declared in
      let entry = resolved-IsEntry ns std_namespace prefix valid found in
      let text : declared_condition key value ≡ condition full rest =
        ap (λ c. (resolve_caveat unregistered (some ns) c).condition)
          (declared_caveat-valid bad_key key value ne free)
        ∙ resolve_caveat-found unregistered ns (condition cond_declared rest) std_namespace prefix
            (λ e. cc) found
        ∙ condition-prefix prefix cond_declared rest in
      ap parse_caveat text
      ∙ parse_caveat-condition full rest (full_cond-ne-nil prefix cond_declared (λ e. cc)) (
          full_cond-Lacks prefix cond_declared (prefix-Lacks-blank prefix entry.prefix_valid)
            cond_declared-Lacks)

  declaration-declared :
      (key value : Bytes)
      → key ≢ []
      → Lacks blank key
      → declaration (declared_cond_in (some ns)) (declared_condition key value) ≡ (
          if condition_with_prefix prefix cond_declared == prefix ++ cond_declared
          then some (key, value)
          else none)
  unfolding declaration declared_cond_in
  declaration-declared key value ne free =
      rw (parse-declared key value ne free, found, split_two-append key blank value free)

agreed-single :
    (dc cond key value : Bytes)
    → declaration dc cond ≡ some (key, value)
    → agreed key (declarations dc (cond ∷ [])) ≡ some value
unfolding agreed declarations lookup disputed
agreed-single dc cond key value d = rw d (ground (arith, beq_refl key, beq_refl value))

agreed-none :
    (dc cond key : Bytes)
    → declaration dc cond ≡ none
    → agreed key (declarations dc (cond ∷ [])) ≡ none
unfolding agreed declarations lookup
agreed-none dc cond key d = rw d

-- Under the empty prefix of the standard namespace, in a valid namespace, what `DeclaredCaveat`
-- declares is inferred. The key is not empty and has no blank.
pub infer-declared_caveat :
    (bad_key : Bytes → Bytes) (unregistered : Bytes → Bytes → Bytes) (ns : Namespace)
    (key value : Bytes)
    → IsValid ns
    → resolve (some ns) std_namespace ≡ ([], true)
    → key ≢ []
    → Lacks blank key
    → lookup key (
        infer_declared_from_conditions (some ns) (
          (resolve_caveat unregistered (some ns) (declared_caveat bad_key key value)).condition
          ∷ []))
      ≡ some value
unfolding condition_with_prefix
infer-declared_caveat bad_key un ns key value valid found ne free =
    let cond = declared_condition bad_key un ns [] valid found key value in
    let dc = declared_cond_in (some ns) in
    let d : declaration dc cond ≡ some (key, value) =
      declaration-declared bad_key un ns [] valid found key value ne free
      ∙ rw (beq_refl cond_declared) in
    lookup-infer_declared (some ns) (cond ∷ []) key ∙ agreed-single dc cond key value d

longer : (p s : Bytes) (c : ℕ) → (p ++ c ∷ s) ≢ (p ++ s)
longer p s c e =
    omega (arith, ap (λ (x : Bytes). length x) e, length-append p (c ∷ s), length-append p s)

-- Under any other prefix of the standard namespace, in a valid namespace, nothing that
-- `DeclaredCaveat` declares is inferred: the loop looks for the prefix and `declared` with no
-- colon between them. The key is not empty and has no blank.
pub infer-declared_caveat_prefixed :
    (bad_key : Bytes → Bytes) (unregistered : Bytes → Bytes → Bytes) (ns : Namespace)
    (prefix key value k : Bytes)
    → IsValid ns
    → resolve (some ns) std_namespace ≡ (prefix, true)
    → prefix ≢ []
    → key ≢ []
    → Lacks blank key
    → lookup k (
        infer_declared_from_conditions (some ns) (
          (resolve_caveat unregistered (some ns) (declared_caveat bad_key key value)).condition
          ∷ []))
      ≡ none
unfolding condition_with_prefix
infer-declared_caveat_prefixed bad_key un ns [] key value k valid found full ne free =
    absurd (full refl)
infer-declared_caveat_prefixed bad_key un ns (x ∷ prefix) key value k valid found full ne free =
    let cond = declared_condition bad_key un ns (x ∷ prefix) valid found key value in
    let dc = declared_cond_in (some ns) in
    let other = longer (x ∷ prefix) cond_declared colon in
    let d : declaration dc cond ≡ none =
      declaration-declared bad_key un ns (x ∷ prefix) valid found key value ne free
      ∙ ground (
        arith,
        bytes_beq_iff ((x ∷ prefix) ++ colon ∷ cond_declared) ((x ∷ prefix) ++ cond_declared),
        other,
      ) in
    lookup-infer_declared (some ns) (cond ∷ []) k ∙ agreed-none dc cond k d
