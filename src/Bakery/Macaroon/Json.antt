-- ===== src/Bakery/Macaroon/Json.antt =====
-- The JSON form of macaroons: `MarshalJSON` and `UnmarshalJSON` of bakery/macaroon.go.
pub mod Entries
pub mod RoundTrip
use macaroon_bakery.Prelude.{
  Bytes, ℕ, Bool, true, false, not, ◌||◌, Option, none, some, List, [], ◌∷◌, ltb, nat_beq,
  if◌then◌else◌, bytes_eq, Result, ok, err, ◌>>=◌, ◌>>◌, check, from_option, Map, insert, length,
}
use macaroon_bakery.Checkers.Namespace.{Namespace, NamespaceError, marshal_text, unmarshal_text}
use macaroon_bakery.Bakery.Codec.Legacy.{Version, negative, at_version}
use macaroon_bakery.Bakery.Macaroon.{
  MacaroonLib, MacaroonError, Macaroon, latest_version, macaroon_version, new_legacy_macaroon,
}
use macaroon_bakery.Bakery.Macaroon.Adding.{is_before_v3}

-- `macaroonJSON`, with the text of the namespace, and `none` for a nil one.
pub record MacaroonJson (M : Type 0) : Type 0 where
  pub macaroon : Option M
  pub version : Version
  pub caveat_data : Map Bytes Bytes
  pub namespace : Option Bytes

-- encoding/json on macaroons, and on `macaroonJSON` with the namespace as a text; `base64.RawURLEncoding` and
-- `macaroon.Base64Decode`.
pub record JsonLib (M : Type 0) : Type 0 where
  pub marshal_m : M → Option Bytes
  pub unmarshal_m : Bytes → Option M
  pub marshal_json : MacaroonJson M → Option Bytes
  pub unmarshal_json : Bytes → Option (MacaroonJson M)
  pub to_raw_base64 : Bytes → Bytes
  pub base64_decode : Bytes → Option Bytes

pub data JsonError : Type 0 where
  external_caveat_data cannot_marshal cannot_unmarshal unexpected_version : JsonError
  inconsistent_version bad_caveat_id bad_caveat_data : JsonError
  bad_legacy : MacaroonError → JsonError

abbrev pub from_legacy {ℓ} : {A : Type ℓ} → Result MacaroonError A → Result JsonError A
from_legacy (ok a) = ok a
from_legacy (err e) = err (bad_legacy e)

-- `MarshalText` of the field `ns`. A nil namespace is null.
unfoldable pub namespace_text : Option Namespace → Option Bytes
namespace_text none = none
namespace_text (some ns) = some (marshal_text (some ns))

-- `UnmarshalText` of the field `ns`, whose error is that of the unmarshaling.
unfoldable pub in_json : Result NamespaceError Namespace → Result JsonError (Option Namespace)
in_json (ok ns) = ok (some ns)
in_json (err e) = err cannot_unmarshal

unfoldable pub read_namespace : Option Bytes → Result JsonError (Option Namespace)
unfolding in_json
read_namespace none = ok none
read_namespace (some text) = in_json (unmarshal_text text)

-- `m1.Version < Version3 || m1.Version > LatestVersion`
unfoldable pub is_unexpected : Version → Bool
unfolding is_before_v3
is_unexpected negative = true
is_unexpected (at_version v) = is_before_v3 (at_version v) || ltb latest_version v

module _ {M : Type 0} (lib : MacaroonLib M) (j : JsonLib M) where
  -- The loop of `MarshalJSON`. Different ids have different texts, so the order of the map does not
  -- matter and no text is set twice.
  unfoldable pub encode_data : Map Bytes Bytes → Map Bytes Bytes
  encode_data [] = []
  encode_data ((id, d) ∷ entries) = (j.to_raw_base64 id, j.to_raw_base64 d) ∷ encode_data entries

  -- `Macaroon.MarshalJSON`
  unfoldable pub marshal_macaroon : Macaroon M → Result JsonError Bytes
  unfolding encode_data namespace_text is_before_v3
  marshal_macaroon mac =
      if is_before_v3 mac.version
      then (do
        check (nat_beq (length mac.caveat_data) 0) external_caveat_data
        from_option cannot_marshal (j.marshal_m mac.m))
      else from_option cannot_marshal (
          j.marshal_json (record {
            macaroon = some mac.m;
            version = mac.version;
            caveat_data = encode_data mac.caveat_data;
            namespace = namespace_text mac.namespace;
          }))

  -- The loop of `UnmarshalJSON`
  unfoldable pub decode_data : Map Bytes Bytes → Result JsonError (Map Bytes Bytes)
  decode_data [] = ok []
  decode_data ((id64, data64) ∷ entries) = do
    id ← from_option bad_caveat_id (j.base64_decode id64)
    d ← from_option bad_caveat_data (j.base64_decode data64)
    rest ← decode_data entries
    ok (insert id d rest)

  -- `unmarshalJSONOldFormat`
  unfoldable pub unmarshal_old_format : Bytes → Result JsonError (Macaroon M)
  unmarshal_old_format text = do
    m ← from_option cannot_unmarshal (j.unmarshal_m text)
    from_legacy (new_legacy_macaroon lib m)

  -- `UnmarshalJSON` behind the unmarshaling. It leaves `caveatIdPrefix` as it is.
  unfoldable pub macaroon_of_json :
      Bytes → Bytes → MacaroonJson M → Option Namespace → Option M → Result JsonError (Macaroon M)
  unfolding decode_data unmarshal_old_format is_unexpected
  macaroon_of_json prefix text m1 ns none = unmarshal_old_format text
  macaroon_of_json prefix text m1 ns (some m) = do
    check (not (is_unexpected m1.version)) unexpected_version
    check (nat_beq (lib.version_of m) (macaroon_version m1.version)) inconsistent_version
    entries ← decode_data m1.caveat_data
    ok (record {
      m = m;
      version = m1.version;
      caveat_data = entries;
      namespace = ns;
      caveat_id_prefix = prefix;
    })

  -- `Macaroon.UnmarshalJSON` on a macaroon with the prefix.
  unfoldable pub unmarshal_macaroon : Bytes → Bytes → Result JsonError (Macaroon M)
  unfolding macaroon_of_json read_namespace
  unmarshal_macaroon prefix text = do
    m1 ← from_option cannot_unmarshal (j.unmarshal_json text)
    ns ← read_namespace m1.namespace
    macaroon_of_json prefix text m1 ns m1.macaroon
