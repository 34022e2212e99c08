-- ===== src/Tests/Namespaces.antt =====
-- Namespaces of bakery/checkers/namespace.go on small inputs.
use macaroon_bakery.Prelude.{
  Bytes, codes, ◌≡◌, ◌≢◌, ◌↔◌, refl, true, not, ◌&&◌, some, none, [], ◌∷◌, arith, ok, err, lookup,
  insert, if◌then◌else◌, ◌==◌, bytes_eq, bytes_beq, bytes_beq_iff,
}
use macaroon_bakery.Prelude.Sort.{sort_strings}
use macaroon_bakery.Strings.Utf8.{valid_string, index_func, runes, is_space}
use macaroon_bakery.Strings.Search.{last_index}
use macaroon_bakery.Strings.Fields.{fields, fields_loop, flush}
use macaroon_bakery.Checkers.Caveat.{std_namespace}
use macaroon_bakery.Checkers.Namespace.{
  Namespace, new_namespace, register_all, register, is_valid_schema_uri, is_valid_prefix,
  marshal_text, elements, element, more_elements, get_prefix, uris_of, unmarshal_text, add_elements,
  add_element, resolve, equal, same_prefixes, no_colon, invalid_uri, duplicate_uri,
}
use macaroon_bakery.Checkers.Namespace.Valid.{
  IsValid, new_namespace-IsValid, resolve-register, unmarshal_text-IsValid,
}
use macaroon_bakery.Checkers.Namespace.Text.{unmarshal_text-marshal_text}
use macaroon_bakery.Checkers.Namespace.Canonical.{marshal_text-canonical}
use macaroon_bakery.Checkers.Namespace.Equality.{equal_iff, equal_confuses}

abbrev pub std_only : Namespace
std_only = record { uri_to_prefix = (std_namespace, []) ∷ [] }

abbrev pub two_uris : Namespace
two_uris = record { uri_to_prefix = (codes "http", codes "h") ∷ (std_namespace, codes "s") ∷ [] }

abbrev pub two_swapped : Namespace
two_swapped = record { uri_to_prefix = (std_namespace, codes "s") ∷ (codes "http", codes "h") ∷ [] }

-- Everything that a run of the functions on namespaces calls.
unfoldable pub namespace_run : Unit {0}
unfolding new_namespace register_all register is_valid_schema_uri is_valid_prefix valid_string
    index_func runes is_space lookup insert marshal_text elements element more_elements get_prefix
    uris_of sort_strings unmarshal_text add_elements add_element fields fields_loop flush last_index
    resolve equal same_prefixes bytes_beq
namespace_run = tt

new_two : new_namespace two_uris.uri_to_prefix ≡ ok two_uris
unfolding namespace_run
new_two = refl

new_std : new_namespace std_only.uri_to_prefix ≡ ok std_only
unfolding namespace_run
new_std = refl

new_swapped : new_namespace two_swapped.uri_to_prefix ≡ ok two_swapped
unfolding namespace_run
new_swapped = refl

pub two_uris-IsValid : IsValid two_uris
two_uris-IsValid = new_namespace-IsValid two_uris.uri_to_prefix two_uris new_two

pub std_only-IsValid : IsValid std_only
std_only-IsValid = new_namespace-IsValid std_only.uri_to_prefix std_only new_std

two_swapped-IsValid : IsValid two_swapped
two_swapped-IsValid = new_namespace-IsValid two_swapped.uri_to_prefix two_swapped new_swapped

two_text : marshal_text (some two_swapped) ≡ codes "http:h std:s"
unfolding namespace_run
two_text = refl

bad_texts :
    (unmarshal_text (codes "std") ≡ err no_colon)
    × (unmarshal_text (codes ":a") ≡ err invalid_uri)
    × (unmarshal_text (codes "a:x a:y") ≡ err duplicate_uri)
unfolding namespace_run
bad_texts = (refl, refl, refl)

-- A no-break space divides words, a broken UTF-8 sequence does not and is refused.
wide_space :
    (fields (0x61 ∷ 0xC2 ∷ 0xA0 ∷ 0x62 ∷ []) ≡ codes "a" ∷ codes "b" ∷ [])
    × (unmarshal_text (0xC2 ∷ b':' ∷ []) ≡ err invalid_uri)
unfolding namespace_run
wide_space = (refl, refl)

new_namespace-IsValid_example : IsValid two_uris
new_namespace-IsValid_example = new_namespace-IsValid two_uris.uri_to_prefix two_uris new_two

read_two : unmarshal_text (codes " http:h\tstd:s ") ≡ ok two_uris
unfolding namespace_run
read_two = refl

unmarshal_text-IsValid_example : IsValid two_uris
unmarshal_text-IsValid_example = unmarshal_text-IsValid (codes " http:h\tstd:s ") two_uris read_two

register_new :
    register std_only (codes "http") (codes "h")
    ≡ ok (record { uri_to_prefix = (std_namespace, []) ∷ (codes "http", codes "h") ∷ [] })
unfolding namespace_run
register_new = refl

resolve-register_example :
    resolve
      (some (record { uri_to_prefix = (std_namespace, []) ∷ (codes "http", codes "h") ∷ [] }))
      (codes "http")
    ≡ (if codes "http" == codes "http" && not (resolve (some std_only) (codes "http")).1
        then (codes "h", true)
        else resolve (some std_only) (codes "http"))
resolve-register_example =
    resolve-register std_only
      (record { uri_to_prefix = (std_namespace, []) ∷ (codes "http", codes "h") ∷ [] })
      (codes "http") (codes "h") (codes "http") register_new

unmarshal_text-marshal_text_example :
    (ns' : Namespace) × (unmarshal_text (marshal_text (some two_uris)) ≡ ok ns')
    × ((uri : Bytes) → resolve (some ns') uri ≡ resolve (some two_uris) uri)
unmarshal_text-marshal_text_example = unmarshal_text-marshal_text two_uris two_uris-IsValid

same_two : (uri : Bytes) → resolve (some two_uris) uri ≡ resolve (some two_swapped) uri
unfolding resolve lookup
same_two uri = ground (arith, bytes_beq_iff (codes "http") uri, bytes_beq_iff std_namespace uri)

marshal_text-canonical_example : marshal_text (some two_uris) ≡ marshal_text (some two_swapped)
marshal_text-canonical_example =
    marshal_text-canonical two_uris two_swapped two_uris-IsValid two_swapped-IsValid same_two

equal_iff_example :
    (equal (some two_uris) (some two_swapped) ≡ true)
    ↔ ((uri : Bytes) → resolve (some two_uris) uri ≡ resolve (some two_swapped) uri)
equal_iff_example =
    equal_iff two_uris two_swapped two_uris-IsValid two_swapped-IsValid ((λ e. cc), ((λ e. cc), tt))

missing_both :
    (lookup {V = Bytes} (codes "a") [] ≡ none) × (lookup {V = Bytes} (codes "b") [] ≡ none)
unfolding lookup
missing_both = (refl, refl)

a_ne_b : ◌≢◌ {A = Bytes} (codes "a") (codes "b")
a_ne_b = ground arith

equal_confuses_example :
    (equal
        (some (record { uri_to_prefix = (codes "a", []) ∷ [] }))
        (some (record { uri_to_prefix = (codes "b", []) ∷ [] }))
      ≡ true)
    × (resolve (some (record { uri_to_prefix = (codes "a", []) ∷ [] })) (codes "a")
        ≢ resolve (some (record { uri_to_prefix = (codes "b", []) ∷ [] })) (codes "a"))
equal_confuses_example =
    equal_confuses [] (codes "a") (codes "b") a_ne_b tt missing_both.0 missing_both.1
