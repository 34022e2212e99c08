-- ===== src/Checkers/Namespace/Valid.antt =====
-- What every namespace of bakery/checkers/namespace.go satisfies, and what `Register` does.
use macaroon_bakery.Prelude.{
  Bytes, ℕ, ◌≡◌, true, not, ◌&&◌, Option, none, some, List, [], ◌∷◌, arith, if◌then◌else◌, ◌==◌,
  bytes_eq, bytes_beq_iff, ok, >>=-eq-ok, Option-cases, Bool-cases, inl, inr, lookup, insert,
  lookup-insert, HasUniqueKeys, insert-HasUniqueKeys, take, drop, suc, check-eq-ok,
}
use mathlib.Core.Path.{sym, subst, subst₂}
use mathlib.Core.Logic.{◌⊎◌, ◌≢◌}
use macaroon_bakery.Strings.Search.{last_index}
use macaroon_bakery.Strings.Fields.{fields}
use macaroon_bakery.Checkers.Caveat.{colon}
use macaroon_bakery.Checkers.Namespace.{
  Prefixes, Namespace, is_valid_schema_uri, is_valid_prefix, register, register_all, new_namespace,
  resolve, add_element, add_elements, unmarshal_text,
}

pub record IsEntry (uri prefix : Bytes) : Type 0 where
  pub uri_valid : is_valid_schema_uri uri ≡ true
  pub prefix_valid : is_valid_prefix prefix ≡ true

-- Valid URIs and prefixes, each URI once.
pub record IsValidMap (m : Prefixes) : Type 0 where
  pub unique : HasUniqueKeys m
  pub entry : (uri prefix : Bytes) → lookup uri m ≡ some prefix → IsEntry uri prefix

abbrev pub IsValid : Namespace → Type 0
IsValid ns = IsValidMap ns.uri_to_prefix

pub IsValidMap-nil : IsValidMap []
IsValidMap-nil = record { unique = tt; entry = λ u p h. unfold lookup in cc }

pub insert-IsValidMap :
    (uri prefix : Bytes) (m : Prefixes)
    → IsEntry uri prefix
    → IsValidMap m
    → IsValidMap (insert uri prefix m)
insert-IsValidMap uri prefix m e v = record {
  unique = insert-HasUniqueKeys uri prefix m v.unique;
  entry = λ u p h. elim (Bool-cases (uri == u)) [
    | inl same ↦
        let eu : uri ≡ u = (bytes_beq_iff uri u).0 same in
        let ep : prefix ≡ p = ground (arith, lookup-insert uri u prefix m) in subst₂ IsEntry eu ep e
    | inr other ↦ v.entry u p (ground (arith, lookup-insert uri u prefix m))
  ];
}

-- What `Register` has done where it has not panicked: nothing if the URI is there already.
pub register_inv :
    (ns ns' : Namespace) (uri prefix : Bytes)
    → register ns uri prefix ≡ ok ns'
    → IsEntry uri prefix
      × (((lookup uri ns.uri_to_prefix ≡ none)
            × (ns' ≡ record { uri_to_prefix = insert uri prefix ns.uri_to_prefix }))
          ⊎ ((lookup uri ns.uri_to_prefix ≢ none) × (ns' ≡ ns)))
unfolding register
register_inv ns ns' uri prefix h =
    let (uv, h1) = check-eq-ok (is_valid_schema_uri uri) _ _ h in
    let (pv, h2) = check-eq-ok (is_valid_prefix prefix) _ _ h1 in
    (
      record { uri_valid = uv; prefix_valid = pv },
      elim (Option-cases (lookup uri ns.uri_to_prefix)) [
        | inl new ↦ inl (new, ground arith)
        | inr (q, old) ↦ inr (ground arith, ground arith)
      ],
    )

pub register-IsValid :
    (ns ns' : Namespace) (uri prefix : Bytes)
    → IsValid ns
    → register ns uri prefix ≡ ok ns'
    → IsValid ns'
register-IsValid ns ns' uri prefix v h =
    let (e, done) = register_inv ns ns' uri prefix h in
    elim done [
      | inl (new, same) ↦ subst IsValid (sym same) (insert-IsValidMap uri prefix _ e v)
      | inr (old, same) ↦ subst IsValid (sym same) v
    ]

-- After a `Register` that does not panic, a registered URI keeps the prefix that it was first
-- registered with, a new one has the given prefix, and no other URI changes.
pub resolve-register :
    (ns ns' : Namespace) (uri prefix k : Bytes)
    → register ns uri prefix ≡ ok ns'
    → resolve (some ns') k
      ≡ (if uri == k && not (resolve (some ns) uri).1 then (prefix, true) else resolve (some ns) k)
unfolding resolve
resolve-register ns ns' uri prefix k h =
    let (e, done) = register_inv ns ns' uri prefix h in
    elim done [
      | inl (new, same) ↦ rw same (ground (arith, lookup-insert uri k prefix ns.uri_to_prefix, new))
      | inr (old, same) ↦ rw same (ground (arith, old))
    ]

register_all-IsValid :
    (m : Prefixes) (ns ns' : Namespace) → IsValid ns → register_all ns m ≡ ok ns' → IsValid ns'
unfolding register_all
register_all-IsValid [] ns ns' v h = subst IsValid (ground arith) v
register_all-IsValid ((uri, prefix) ∷ m) ns ns' v h =
    let (n, one, rest) = >>=-eq-ok (register ns uri prefix) (λ x. register_all x m) h in
    register_all-IsValid m n ns' (register-IsValid ns n uri prefix v one) rest

-- A namespace that `NewNamespace` returns is valid.
pub new_namespace-IsValid : (m : Prefixes) (ns : Namespace) → new_namespace m ≡ ok ns → IsValid ns
unfolding new_namespace
new_namespace-IsValid m ns h = register_all-IsValid m _ ns IsValidMap-nil h

add_element-IsValid :
    (m m' : Prefixes) (elem : Bytes) (at : Option ℕ)
    → IsValidMap m
    → add_element m elem at ≡ ok m'
    → IsValidMap m'
unfolding add_element
add_element-IsValid m m' elem none v h = cc
add_element-IsValid m m' elem (some i) v h =
    let (uv, h1) = check-eq-ok (is_valid_schema_uri (take i elem)) _ _ h in
    let (pv, h2) = check-eq-ok (is_valid_prefix (drop (suc i) elem)) _ _ h1 in
    subst IsValidMap (ground arith) (
      insert-IsValidMap (take i elem) (drop (suc i) elem) m
        (record { uri_valid = uv; prefix_valid = pv }) v)

add_elements-IsValid :
    (elems : List Bytes) (m m' : Prefixes)
    → IsValidMap m
    → add_elements elems m ≡ ok m'
    → IsValidMap m'
unfolding add_elements
add_elements-IsValid [] m m' v h = subst IsValidMap (ground arith) v
add_elements-IsValid (elem ∷ elems) m m' v h =
    let (n, one, rest) =
      >>=-eq-ok (add_element m elem (last_index elem colon)) (add_elements elems) h in
    add_elements-IsValid elems n m' (add_element-IsValid m n elem (last_index elem colon) v one)
      rest

-- A namespace that `UnmarshalText` accepts is valid, whatever the text.
pub unmarshal_text-IsValid :
    (text : Bytes) (ns : Namespace) → unmarshal_text text ≡ ok ns → IsValid ns
unfolding unmarshal_text
unmarshal_text-IsValid text ns h =
    let (m, one, rest) = >>=-eq-ok (add_elements (fields text) []) _ h in
    add_elements-IsValid (fields text) [] ns.uri_to_prefix IsValidMap-nil (ground arith)
