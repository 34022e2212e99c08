-- ===== src/Checkers/Namespace/Text.antt =====
-- `MarshalText` and `UnmarshalText` of bakery/checkers/namespace.go.
use macaroon_bakery.Prelude.{
  Bytes, ℕ, ◌≡◌, ◌≢◌, refl, ap, ◌∙◌, Bool, true, false, Option, none, some, List, [], ◌∷◌, ◌++◌,
  append-nil, map, arith, if◌then◌else◌, bytes_eq, bytes_beq_iff, beq_refl, ok, Option-cases, inl,
  inr, lookup, insert, lookup-insert, HasUniqueKeys, All-append, take-append,
}
use macaroon_bakery.Prelude.Sort.{
  sort_strings, contains, contains-sort_strings, IsDistinct, sort_strings-IsDistinct,
}
use macaroon_bakery.Strings.Utf8.{runes, is_space}
use macaroon_bakery.Strings.Utf8.Ascii.{runes-ascii, NoRune, NoRune-mono, index_func-none}
use macaroon_bakery.Strings.Search.{last_index, last_index-append, Lacks, NoRune-Lacks, drop_past}
use macaroon_bakery.Strings.Fields.{fields, fields_loop, flush, fields-word, fields-cons}
use macaroon_bakery.Checkers.Caveat.{colon, blank}
use macaroon_bakery.Checkers.Namespace.{
  Prefixes, Namespace, get_prefix, is_valid_schema_uri, is_valid_prefix, invalid_schema_rune,
  invalid_prefix_rune, absent, element, elements, uris_of, marshal_text, add_element, add_elements,
  unmarshal_text, resolve,
}
use macaroon_bakery.Checkers.Namespace.Valid.{IsEntry, IsValidMap, IsValid}

absent-none : (o : Option ℕ) → absent o ≡ true → o ≡ none
unfolding absent
absent-none none h = refl
absent-none (some i) h = cc

uri-NoRune : (uri : Bytes) → is_valid_schema_uri uri ≡ true → NoRune is_space (runes uri)
unfolding is_valid_schema_uri invalid_schema_rune
uri-NoRune uri h = index_func-none uri is_space (absent-none _ (ground arith))

pub uri-ne-nil : (uri : Bytes) → is_valid_schema_uri uri ≡ true → uri ≢ []
unfolding is_valid_schema_uri
uri-ne-nil uri h = ground arith

prefix-NoRune : (p : Bytes) → is_valid_prefix p ≡ true → NoRune invalid_prefix_rune (runes p)
unfolding is_valid_prefix
prefix-NoRune p h = index_func-none p invalid_prefix_rune (absent-none _ (ground arith))

prefix-no_space : (p : Bytes) → is_valid_prefix p ≡ true → NoRune is_space (runes p)
prefix-no_space p h =
    NoRune-mono invalid_prefix_rune is_space (runes p)
      (λ r e. unfold invalid_prefix_rune in ground arith) (prefix-NoRune p h)

-- A valid prefix holds no colon.
pub prefix-Lacks : (p : Bytes) → is_valid_prefix p ≡ true → Lacks colon p
unfolding invalid_prefix_rune
prefix-Lacks p h = NoRune-Lacks invalid_prefix_rune colon p (omega arith) refl (prefix-NoRune p h)

-- A valid prefix holds no blank.
pub prefix-Lacks-blank : (p : Bytes) → is_valid_prefix p ≡ true → Lacks blank p
unfolding invalid_prefix_rune
prefix-Lacks-blank p h =
    NoRune-Lacks invalid_prefix_rune blank p (omega arith) refl (prefix-NoRune p h)

is_space-colon : is_space colon ≡ false
unfolding is_space
is_space-colon = refl

append-ne-nil : (a : Bytes) (c : ℕ) (t : Bytes) → (a ++ c ∷ t) ≢ []
append-ne-nil [] c t h = cc
append-ne-nil (x ∷ a) c t h = cc

module _ (m : Prefixes) where
  abbrev Entry : Bytes → Type 0
  Entry u = IsEntry u (get_prefix m u)

  -- All of a list's URIs are entries of the map.
  abbrev AreEntries : List Bytes → Type 0
  AreEntries us = (u : Bytes) → contains us u ≡ true → Entry u

  AreEntries-head : (u : Bytes) (us : List Bytes) → AreEntries (u ∷ us) → Entry u
  unfolding contains
  AreEntries-head u us h = h u (ground (arith, beq_refl u))

  AreEntries-tail : (u : Bytes) (us : List Bytes) → AreEntries (u ∷ us) → AreEntries us
  unfolding contains
  AreEntries-tail u us h k c = h k (ground (arith, c))

  element-NoRune : (u : Bytes) → Entry u → NoRune is_space (runes (element m u))
  unfolding element
  element-NoRune u e =
      let p = get_prefix m u in
      rw (runes-ascii u colon p (omega arith)) (
        All-append _ (runes u) _ (uri-NoRune u e.uri_valid)
          (is_space-colon, prefix-no_space p e.prefix_valid))

  element-ne-nil : (u : Bytes) → element m u ≢ []
  unfolding element
  element-ne-nil u = append-ne-nil u colon (get_prefix m u)

  -- The words of the text are the elements.
  fields-elements :
      (u : Bytes) (us : List Bytes)
      → AreEntries (u ∷ us)
      → fields (elements m (u ∷ us)) ≡ map (element m) (u ∷ us)
  unfolding elements
  fields-elements u [] h =
      rw append-nil
        (fields-word (element m u) (element-ne-nil u) (element-NoRune u (AreEntries-head u [] h)))
  fields-elements u (v ∷ us) h =
      fields-cons (element m u) (elements m (v ∷ us)) (element-ne-nil u)
        (element-NoRune u (AreEntries-head u (v ∷ us) h))
      ∙ ap (λ l. element m u ∷ l) (fields-elements v us (AreEntries-tail u (v ∷ us) h))

  add_element-element :
      (u : Bytes) (acc : Prefixes)
      → Entry u
      → lookup u acc ≡ none
      → add_element acc (element m u) (last_index (element m u) colon)
        ≡ ok (insert u (get_prefix m u) acc)
  unfolding add_element element
  add_element-element u acc e new =
      let p = get_prefix m u in
      ground (
        arith,
        last_index-append colon u p (prefix-Lacks p e.prefix_valid),
        take-append u (colon ∷ p),
        drop_past u colon p,
        e.uri_valid,
        e.prefix_valid,
      )

  insert_all : List Bytes → Prefixes → Prefixes
  insert_all [] acc = acc
  insert_all (u ∷ us) acc = insert_all us (insert u (get_prefix m u) acc)

  add_elements-elements :
      (us : List Bytes) (acc : Prefixes)
      → AreEntries us
      → IsDistinct us
      → ((u : Bytes) → contains us u ≡ true → lookup u acc ≡ none)
      → add_elements (map (element m) us) acc ≡ ok (insert_all us acc)
  unfolding add_elements insert_all contains
  add_elements-elements [] acc h d new = refl
  add_elements-elements (u ∷ us) acc h (du, d) new =
      let acc' = insert u (get_prefix m u) acc in
      rw (add_element-element u acc (AreEntries-head u us h) (new u (ground (arith, beq_refl u)))) (
        add_elements-elements us acc' (AreEntries-tail u us h) d
          (λ k c. ground (arith, new k, lookup-insert u k (get_prefix m u) acc, bytes_beq_iff u k)))

  lookup-insert_all :
      (us : List Bytes) (acc : Prefixes) (k : Bytes)
      → lookup k (insert_all us acc)
        ≡ (if contains us k then some (get_prefix m k) else lookup k acc)
  unfolding insert_all contains
  lookup-insert_all [] acc k = refl
  lookup-insert_all (u ∷ us) acc k = ground (
    arith,
    lookup-insert_all us (insert u (get_prefix m u) acc) k,
    lookup-insert u k (get_prefix m u) acc,
    bytes_beq_iff u k,
  )

lookup-nil : (k : Bytes) → lookup {V = Bytes} k [] ≡ none
unfolding lookup
lookup-nil k = refl

-- Whether a key is there.
abbrev pub present : Option Bytes → Bool
present none = false
present (some v) = true

pub contains-uris_of : (m : Prefixes) (k : Bytes) → contains (uris_of m) k ≡ present (lookup k m)
unfolding uris_of contains lookup
contains-uris_of [] k = refl
contains-uris_of ((u, p) ∷ m) k = ground (arith, contains-uris_of m k)

pub uris_of-IsDistinct : (m : Prefixes) → HasUniqueKeys m → IsDistinct (uris_of m)
unfolding uris_of
uris_of-IsDistinct [] h = tt
uris_of-IsDistinct ((u, p) ∷ m) (new, h) =
    (ground (arith, contains-uris_of m u, new), uris_of-IsDistinct m h)

entries-AreEntries :
    (m : Prefixes) (us : List Bytes)
    → IsValidMap m
    → ((k : Bytes) → contains us k ≡ present (lookup k m))
    → AreEntries m us
unfolding get_prefix
entries-AreEntries m us v same u c = elim (Option-cases (lookup u m)) [
  | inl missing ↦ ground (arith, same u)
  | inr (p, there) ↦ rw there (v.entry u p there)
]

add_elements-round :
    (m : Prefixes) (us : List Bytes)
    → AreEntries m us
    → IsDistinct us
    → add_elements (fields (elements m us)) [] ≡ ok (insert_all m us [])
unfolding lookup
add_elements-round m [] h d =
    unfold fields runes fields_loop flush elements add_elements insert_all in refl
add_elements-round m (u ∷ us) h d =
    rw (fields-elements m u us h) (add_elements-elements m (u ∷ us) [] h d (λ k c. refl))

lookup-round :
    (m : Prefixes) (us : List Bytes) (k : Bytes)
    → ((k : Bytes) → contains us k ≡ present (lookup k m))
    → lookup k (insert_all m us []) ≡ lookup k m
unfolding get_prefix
lookup-round m us k same = ground (arith, lookup-insert_all m us [] k, same k, lookup-nil k)

-- Reading the text of a valid namespace gives a namespace that resolves every URI alike.
pub unmarshal_text-marshal_text :
    (ns : Namespace)
    → IsValid ns
    → (ns' : Namespace) × (unmarshal_text (marshal_text (some ns)) ≡ ok ns')
      × ((uri : Bytes) → resolve (some ns') uri ≡ resolve (some ns) uri)
unfolding marshal_text unmarshal_text resolve
unmarshal_text-marshal_text ns v =
    let m = ns.uri_to_prefix in
    let us = sort_strings (uris_of m) in
    let same : (k : Bytes) → contains us k ≡ present (lookup k m) =
      λ k. contains-sort_strings (uris_of m) k ∙ contains-uris_of m k in
    let distinct : IsDistinct us = sort_strings-IsDistinct _ (uris_of-IsDistinct m v.unique) in
    (
      record { uri_to_prefix = insert_all m us [] },
      rw (add_elements-round m us (entries-AreEntries m us v same) distinct),
      λ uri. rw (lookup-round m us uri same, resolve),
    )
