-- ===== src/Checkers/Namespace.antt =====
-- Namespaces: bakery/checkers/namespace.go. A `*Namespace` that may be nil is an `Option`.
pub mod Valid
pub mod Text
pub mod Canonical
pub mod Equality
use macaroon_bakery.Prelude.{
  Bytes, ℕ, suc, Bool, true, false, not, ◌&&◌, ◌||◌, Option, none, some, List, [], ◌∷◌, ◌++◌, ltb,
  nat_beq, if◌then◌else◌, ◌==◌, bytes_eq, Result, ok, err, ◌>>=◌, ◌>>◌, check, take, drop, length,
  Map, lookup, insert,
}
use macaroon_bakery.Prelude.Sort.{sort_strings}
use macaroon_bakery.Strings.Utf8.{valid_string, index_func, is_space}
use macaroon_bakery.Strings.Search.{last_index}
use macaroon_bakery.Strings.Fields.{fields}
use macaroon_bakery.Checkers.Caveat.{
  Caveat, error_caveat, condition_with_prefix, is_empty, blank, colon,
}

-- `map[string]string`
abbrev pub Prefixes : Type 0
Prefixes = Map Bytes Bytes

pub record Namespace : Type 0 where
  pub uri_to_prefix : Prefixes

pub data NamespaceError : Type 0 where
  no_colon invalid_uri invalid_prefix duplicate_uri : NamespaceError

-- What a read of a Go map gives for a key: the zero value where the key is missing.
unfoldable pub text_of : Option Bytes → Bytes
text_of none = []
text_of (some v) = v

unfoldable pub get_prefix : Prefixes → Bytes → Bytes
unfolding text_of
get_prefix m uri = text_of (lookup uri m)

-- `strings.IndexFunc(s, f) == -1`
unfoldable pub absent : Option ℕ → Bool
absent none = true
absent (some i) = false

unfoldable pub invalid_schema_rune : ℕ → Bool
invalid_schema_rune r = is_space r

unfoldable pub is_valid_schema_uri : Bytes → Bool
unfolding invalid_schema_rune absent
is_valid_schema_uri uri =
    ltb 0 (length uri) && valid_string uri && absent (index_func uri invalid_schema_rune)

unfoldable pub invalid_prefix_rune : ℕ → Bool
invalid_prefix_rune r = nat_beq r blank || nat_beq r colon || is_space r

unfoldable pub is_valid_prefix : Bytes → Bool
unfolding invalid_prefix_rune absent
is_valid_prefix prefix = valid_string prefix && absent (index_func prefix invalid_prefix_rune)

-- The loop of `Equal` over the entries of the receiver's map.
unfoldable pub same_prefixes : Prefixes → Prefixes → Bool
same_prefixes [] m2 = true
same_prefixes ((k, v) ∷ m1) m2 = get_prefix m2 k == v && same_prefixes m1 m2

-- `Equal`, where the two pointers differ unless both are nil.
unfoldable pub equal : Option Namespace → Option Namespace → Bool
unfolding same_prefixes
equal none none = true
equal none (some n) = false
equal (some n) none = false
equal (some n1) (some n2) =
    if nat_beq (length n1.uri_to_prefix) (length n2.uri_to_prefix)
    then same_prefixes n1.uri_to_prefix n2.uri_to_prefix
    else false

-- What one URI adds to the text of `MarshalText`.
unfoldable pub element : Prefixes → Bytes → Bytes
element m uri = uri ++ colon ∷ get_prefix m uri

-- The loop of `MarshalText` behind its first element.
unfoldable pub more_elements : Prefixes → List Bytes → Bytes
more_elements m [] = []
more_elements m (uri ∷ uris) = blank ∷ (element m uri ++ more_elements m uris)

unfoldable pub elements : Prefixes → List Bytes → Bytes
unfolding more_elements
elements m [] = []
elements m (uri ∷ uris) = element m uri ++ more_elements m uris

unfoldable pub uris_of : Prefixes → List Bytes
uris_of [] = []
uris_of ((uri, prefix) ∷ m) = uri ∷ uris_of m

-- `MarshalText`, which never fails.
unfoldable pub marshal_text : Option Namespace → Bytes
unfolding elements uris_of
marshal_text none = []
marshal_text (some ns) = elements ns.uri_to_prefix (sort_strings (uris_of ns.uri_to_prefix))

-- One round of the loop of `UnmarshalText`, behind the search for the colon.
unfoldable pub add_element : Prefixes → Bytes → Option ℕ → Result NamespaceError Prefixes
add_element m elem none = err no_colon
add_element m elem (some i) = do
  let uri = take i elem
  let prefix = drop (suc i) elem
  check (is_valid_schema_uri uri) invalid_uri
  check (is_valid_prefix prefix) invalid_prefix
  elim (lookup uri m) [ some _ ↦ err duplicate_uri | none ↦ ok (insert uri prefix m) ]

unfoldable pub add_elements : List Bytes → Prefixes → Result NamespaceError Prefixes
add_elements [] m = ok m
add_elements (elem ∷ elems) m = do
  m' ← add_element m elem (last_index elem colon)
  add_elements elems m'

unfoldable pub unmarshal_text : Bytes → Result NamespaceError Namespace
unfolding add_elements
unmarshal_text text = do m ← add_elements (fields text) []; ok (record { uri_to_prefix = m })

-- `Resolve`: the prefix and whether it was found.
unfoldable pub resolve : Option Namespace → Bytes → Bytes × Bool
resolve none uri = ([], false)
resolve (some ns) uri = elim (lookup uri ns.uri_to_prefix) [
  | none ↦ ([], false)
  | some prefix ↦ (prefix, true)
]

unfoldable pub ensure_resolved : Option Namespace → Bytes → Bytes × Bool
ensure_resolved ns uri = resolve ns uri

-- `Register`, which panics on an invalid URI or prefix.
unfoldable pub register : Namespace → Bytes → Bytes → Result NamespaceError Namespace
register ns uri prefix = do
  check (is_valid_schema_uri uri) invalid_uri
  check (is_valid_prefix prefix) invalid_prefix
  elim (lookup uri ns.uri_to_prefix) [
    | some _ ↦ ok ns
    | none ↦ ok (record { uri_to_prefix = insert uri prefix ns.uri_to_prefix })
  ]

-- `NewNamespace`: the initial contents are registered one by one.
unfoldable pub register_all : Namespace → Prefixes → Result NamespaceError Namespace
register_all ns [] = ok ns
register_all ns ((uri, prefix) ∷ m) = do ns' ← register ns uri prefix; register_all ns' m

unfoldable pub new_namespace : Prefixes → Result NamespaceError Namespace
unfolding register_all
new_namespace m = register_all (record { uri_to_prefix = [] }) m

-- `fmt.Sprintf` with `%q`, whose quoting rests on the printable characters of Unicode, is a
-- parameter: the text of the caveat that says that a namespace is not registered.
module _ (unregistered : Bytes → Bytes → Bytes) where
  -- `ResolveCaveat` behind its first test.
  unfoldable pub resolve_found : Option Namespace → Caveat → Bytes × Bool → Caveat
  unfolding is_empty
  resolve_found ns cav (prefix, true) = record {
    condition =
        if is_empty prefix then cav.condition else condition_with_prefix prefix cav.condition;
    namespace = [];
    location = cav.location;
  }
  resolve_found ns cav (prefix, false) =
      let bad = error_caveat (unregistered cav.condition cav.namespace) in
      let prefix' =
        if bad.namespace == cav.namespace then prefix else (resolve ns bad.namespace).0 in
      record {
        condition =
            if is_empty prefix' then bad.condition else condition_with_prefix prefix' bad.condition;
        namespace = [];
        location = bad.location;
      }

  unfoldable pub resolve_caveat : Option Namespace → Caveat → Caveat
  unfolding resolve_found
  resolve_caveat ns cav =
      if is_empty cav.namespace || not (is_empty cav.location)
      then cav
      else resolve_found ns cav (resolve ns cav.namespace)
