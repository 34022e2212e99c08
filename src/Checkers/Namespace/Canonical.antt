-- ===== src/Checkers/Namespace/Canonical.antt =====
-- The text of a namespace is canonical: `MarshalText` of bakery/checkers/namespace.go.
use macaroon_bakery.Prelude.{
  Bytes, ◌≡◌, refl, sym, ap, ◌∙◌, some, List, [], ◌∷◌, arith, lookup, bytes_eq,
}
use macaroon_bakery.Prelude.Sort.{
  sort_strings, contains-sort_strings, sort_strings-IsDistinct, sort_strings-IsSorted,
  sorted_unique,
}
use macaroon_bakery.Checkers.Namespace.{
  Prefixes, Namespace, get_prefix, element, elements, more_elements, uris_of, marshal_text, resolve,
}
use macaroon_bakery.Checkers.Namespace.Valid.{IsValid}
use macaroon_bakery.Checkers.Namespace.Text.{present, contains-uris_of, uris_of-IsDistinct}

module _ (m n : Prefixes) (same : (k : Bytes) → lookup k m ≡ lookup k n) where
  element-same : (u : Bytes) → element m u ≡ element n u
  unfolding element get_prefix
  element-same u = rw (same u)

  more_elements-same : (us : List Bytes) → more_elements m us ≡ more_elements n us
  unfolding more_elements
  more_elements-same [] = refl
  more_elements-same (u ∷ us) = rw (element-same u, more_elements-same us)

  elements-same : (us : List Bytes) → elements m us ≡ elements n us
  unfolding elements
  elements-same [] = refl
  elements-same (u ∷ us) = rw (element-same u, more_elements-same us)

pub lookup-resolve :
    (ns ns' : Namespace) (k : Bytes)
    → resolve (some ns) k ≡ resolve (some ns') k
    → lookup k ns.uri_to_prefix ≡ lookup k ns'.uri_to_prefix
unfolding resolve
lookup-resolve ns ns' k h = ground arith

-- Two valid namespaces that resolve every URI alike have the same text: it does not depend on the
-- order of the map, nor on which URI was registered first.
pub marshal_text-canonical :
    (ns ns' : Namespace)
    → IsValid ns
    → IsValid ns'
    → ((uri : Bytes) → resolve (some ns) uri ≡ resolve (some ns') uri)
    → marshal_text (some ns) ≡ marshal_text (some ns')
unfolding marshal_text
marshal_text-canonical ns ns' v v' h =
    let m = ns.uri_to_prefix in
    let n = ns'.uri_to_prefix in
    let same : (k : Bytes) → lookup k m ≡ lookup k n = λ k. lookup-resolve ns ns' k (h k) in
    let uris : sort_strings (uris_of m) ≡ sort_strings (uris_of n) =
      sorted_unique _ _ (sort_strings-IsSorted (uris_of m))
        (sort_strings-IsDistinct _ (uris_of-IsDistinct m v.unique))
        (sort_strings-IsSorted (uris_of n))
        (sort_strings-IsDistinct _ (uris_of-IsDistinct n v'.unique))
        (λ k.
          contains-sort_strings (uris_of m) k
          ∙ contains-uris_of m k
          ∙ ap present (same k)
          ∙ sym (contains-sort_strings (uris_of n) k ∙ contains-uris_of n k)) in
    ap (elements m) uris ∙ elements-same m n same (sort_strings (uris_of n))
