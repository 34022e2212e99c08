-- ===== src/Bakery/Macaroon/Json/RoundTrip.antt =====
-- `MarshalJSON` against `UnmarshalJSON` of bakery/macaroon.go.
use macaroon_bakery.Prelude.{
  Bytes, ◌≡◌, ◌∙◌, refl, sym, ap, true, false, Option, none, some, nat_beq, nat_beq_iff, bytes_eq,
  ok, from_option, lookup, HasUniqueKeys, arith,
}
use macaroon_bakery.Checkers.Namespace.{Namespace, marshal_text, resolve}
use macaroon_bakery.Checkers.Namespace.Valid.{IsValid}
use macaroon_bakery.Checkers.Namespace.Text.{unmarshal_text-marshal_text}
use macaroon_bakery.Bakery.Codec.{version3}
use macaroon_bakery.Bakery.Codec.Legacy.{at_version}
use macaroon_bakery.Bakery.Macaroon.{MacaroonLib, Macaroon, macaroon_version}
use macaroon_bakery.Bakery.Macaroon.Adding.{is_before_v3}
use macaroon_bakery.Bakery.Macaroon.Json.{
  JsonLib, JsonError, cannot_marshal, encode_data, marshal_macaroon, macaroon_of_json,
  unmarshal_macaroon, namespace_text, read_namespace, is_unexpected,
}
use macaroon_bakery.Bakery.Macaroon.Json.Entries.{
  IsText, IsTextOrNull, JsonLaws, decoded, lookup-encode_data, encode_data-HasUniqueKeys,
  encode_data-IsText, encode_data-IsEncoded, decoded-encoded, decode_data-IsEncoded,
}

-- A namespace that has a text in JSON: a valid one, whose text is valid UTF-8, or a nil one.
abbrev pub IsWritten : Option Namespace → Type 0
IsWritten none = Unit
IsWritten (some ns) = IsValid ns × IsText (marshal_text (some ns))

from_option-ok :
    (e : JsonError) (o : Option Bytes) (s : Bytes) → from_option e o ≡ ok s → o ≡ some s
from_option-ok e none s h = absurd (cc)
from_option-ok e (some t) s h = ground arith

namespace_text-IsTextOrNull :
    (ns : Option Namespace) → IsWritten ns → IsTextOrNull (namespace_text ns)
unfolding namespace_text
namespace_text-IsTextOrNull none w = tt
namespace_text-IsTextOrNull (some ns) (valid, text) = text

-- The namespace is read back from its text, up to the order of its map.
read_namespace-namespace_text :
    (ns : Option Namespace)
    → IsWritten ns
    → (ns' : Option Namespace) × (read_namespace (namespace_text ns) ≡ ok ns')
      × ((uri : Bytes) → resolve ns' uri ≡ resolve ns uri)
unfolding namespace_text read_namespace
read_namespace-namespace_text none w = (none, refl, λ uri. refl)
read_namespace-namespace_text (some ns) (valid, text) =
    let (ns', reads, alike) = unmarshal_text-marshal_text ns valid in
    (some ns', rw reads refl, alike)

module _ {M : Type 0} (lib : MacaroonLib M) (j : JsonLib M) (laws : JsonLaws j) where
  -- A version 3 macaroon that `MarshalJSON` writes is read by `UnmarshalJSON`, whatever the
  -- caveat id prefix was, with the same underlying macaroon and version, a namespace that
  -- resolves every URI alike, and the same encrypted caveat under each id: where the underlying
  -- macaroon has the format of its version and is read back from its own JSON, the namespace is
  -- nil, or valid with a text that is valid UTF-8, no id is kept twice, JSON keeps the strings
  -- that are valid UTF-8 and a map of them up to its order, and base64 is such a string and is
  -- read back.
  pub unmarshal-marshal_macaroon :
      (mac : Macaroon M) (m_text prefix text : Bytes)
      → mac.version ≡ at_version version3
      → lib.version_of mac.m ≡ macaroon_version (at_version version3)
      → j.marshal_m mac.m ≡ some m_text
      → j.unmarshal_m m_text ≡ some mac.m
      → HasUniqueKeys mac.caveat_data
      → IsWritten mac.namespace
      → marshal_macaroon lib j mac ≡ ok text
      → (mac' : Macaroon M) × (unmarshal_macaroon lib j prefix text ≡ ok mac')
        × (mac'.m ≡ mac.m)
        × (mac'.version ≡ mac.version)
        × ((uri : Bytes) → resolve mac'.namespace uri ≡ resolve mac.namespace uri)
        × ((id : Bytes) → lookup id mac'.caveat_data ≡ lookup id mac.caveat_data)
  unfolding marshal_macaroon unmarshal_macaroon macaroon_of_json
  unmarshal-marshal_macaroon mac m_text prefix text v3 format m_writes m_reads unique w h =
      let new : is_before_v3 mac.version ≡ false =
        ap is_before_v3 v3 ∙ (unfold is_before_v3 in refl) in
      let marshals : j.marshal_json (record {
        macaroon = some mac.m;
        version = mac.version;
        caveat_data = encode_data lib j mac.caveat_data;
        namespace = namespace_text mac.namespace;
      })
          ≡ some text =
        from_option-ok cannot_marshal _ text (rw new at h) in
      let (texts, reads, distinct, alike) =
        laws.unmarshal-marshal_json mac.m m_text mac.version (encode_data lib j mac.caveat_data)
          (namespace_text mac.namespace) text m_writes m_reads
          (encode_data-HasUniqueKeys lib j laws mac.caveat_data unique)
          (encode_data-IsText lib j laws mac.caveat_data)
          (namespace_text-IsTextOrNull mac.namespace w) marshals in
      let (ns', ns_reads, ns_alike) = read_namespace-namespace_text mac.namespace w in
      let (entries, decodes, found) = decode_data-IsEncoded lib j laws texts distinct (λ k v there.
        encode_data-IsEncoded lib j laws mac.caveat_data k v (sym (alike k) ∙ there)) in
      let in_range : is_unexpected mac.version ≡ false =
        ap is_unexpected v3 ∙ (unfold is_unexpected in refl) in
      let consistent : nat_beq (lib.version_of mac.m) (macaroon_version mac.version) ≡ true =
        (nat_beq_iff (lib.version_of mac.m) (macaroon_version mac.version)).1
          (format ∙ ap macaroon_version (sym v3)) in
      (
        record {
          m = mac.m;
          version = mac.version;
          caveat_data = entries;
          namespace = ns';
          caveat_id_prefix = prefix;
        },
        rw (reads, ns_reads, in_range, consistent, decodes) refl,
        refl,
        refl,
        ns_alike,
        λ id.
            found id
            ∙ ap (λ o. decoded lib j laws o)
                (alike (j.to_raw_base64 id) ∙ lookup-encode_data lib j laws id mac.caveat_data)
            ∙ decoded-encoded lib j laws (lookup id mac.caveat_data),
      )
