-- ===== src/Bakery/Codec.antt =====
-- Third party caveat ids: bakery/codec.go. Slicing beyond a slice and a nil dereference panic.
pub mod SecretPart
pub mod RoundTrip
pub mod Panics
pub mod Legacy
pub mod Versions
use macaroon_bakery.Prelude.{
  Bytes, ℕ, ◌+◌, ◌%◌, ◌^◌, Bool, true, false, Option, none, some, List, [], ◌∷◌, ◌++◌, ltb, leb,
  nat_beq, if◌then◌else◌, ◌==◌, bytes_eq, Result, ok, err, ◌>>=◌, ◌>>◌, check, from_option, take,
  drop, length,
}
use macaroon_bakery.Checkers.Caveat.{std_namespace}
use macaroon_bakery.Checkers.Namespace.{
  Namespace, NamespaceError, marshal_text, unmarshal_text, register,
}
use macaroon_bakery.Bakery.Uvarint.{append_uvarint, uvarint}
use macaroon_bakery.Bakery.Crypto.{Box, KeyPair, key_len, nonce_len, box_overhead}

abbrev pub version2 : ℕ
version2 = 2

abbrev pub version3 : ℕ
version3 = 3

abbrev pub public_key_prefix_len : ℕ
public_key_prefix_len = 4

-- `version3CaveatMinLen`
abbrev pub version3_caveat_min_len : ℕ
version3_caveat_min_len = 1 + 4 + 32 + 24 + box_overhead + 1

pub data CaveatError : Type 0 where
  empty_caveat no_payload unsupported_version too_short public_key_mismatch : CaveatError
  no_first_party_key bad_encoding nonce_too_short cannot_decrypt : CaveatError
  secret_too_short wrong_secret_version bad_root_key_length bad_namespace_length : CaveatError
  bad_namespace : NamespaceError → CaveatError
  cannot_encode slice_panic nil_panic : CaveatError

-- `encodeSecretPartV2V3`
unfoldable pub namespace_part : ℕ → Bytes → Bytes → Bytes
namespace_part version bytes ns_bytes =
    if leb version3 version then append_uvarint bytes (length ns_bytes) ++ ns_bytes else bytes

unfoldable pub encode_secret_part : ℕ → Bytes → Bytes → Bytes → Bytes
unfolding namespace_part
encode_secret_part version condition root_key ns_bytes =
    let bytes = append_uvarint (version % 2 ^ 8 ∷ []) (length root_key) ++ root_key in
    namespace_part version bytes ns_bytes ++ condition

-- `data[:l], data[l:]`
unfoldable pub slice_at : ℕ → Bytes → Result CaveatError (Bytes × Bytes)
slice_at l bytes = if leb l (length bytes) then ok (take l bytes, drop l bytes) else err slice_panic

-- A length `l`, read in `n` bytes, and what it measures: `uint64(n)+l > uint64(len(data))` wraps.
unfoldable pub read_measured :
    CaveatError → Bytes → Option (ℕ × ℕ) → Result CaveatError (Bytes × Bytes)
unfolding slice_at
read_measured e bytes none = err e
read_measured e bytes (some (l, n)) =
    if ltb (length bytes) ((n + l) % 2 ^ 64) then err e else slice_at l (drop n bytes)

unfoldable pub read_chunk : CaveatError → Bytes → Result CaveatError (Bytes × Bytes)
unfolding read_measured
read_chunk e bytes = read_measured e bytes (uvarint bytes)

unfoldable pub as_namespace : Result NamespaceError Namespace → Result CaveatError Namespace
as_namespace (ok ns) = ok ns
as_namespace (err e) = err (bad_namespace e)

-- `legacyNamespace`
unfoldable pub legacy_namespace : Result CaveatError Namespace
unfolding as_namespace
legacy_namespace = as_namespace (register (record { uri_to_prefix = [] }) std_namespace [])

pub record Secret : Type 0 where
  pub root_key : Bytes
  pub namespace : Namespace
  pub condition : Bytes

-- The rest of the secret part, behind the root key.
unfoldable pub decode_tail : ℕ → Bytes → Bytes → Result CaveatError Secret
unfolding as_namespace
decode_tail version root_key bytes =
    if leb version3 version
    then (do
      (ns_bytes, condition) ← read_chunk bad_namespace_length bytes
      ns ← as_namespace (unmarshal_text ns_bytes)
      ok (record { root_key = root_key; namespace = ns; condition = condition }))
    else (do
      ns ← legacy_namespace
      ok (record { root_key = root_key; namespace = ns; condition = bytes }))

-- `decodeSecretPartV2V3`
unfoldable pub decode_secret_part : ℕ → Bytes → Result CaveatError Secret
decode_secret_part version [] = err secret_too_short
decode_secret_part version (got_version ∷ bytes) = do
  check (nat_beq version got_version) wrong_secret_version
  (root_key, rest) ← read_chunk bad_root_key_length bytes
  decode_tail version root_key rest

-- `ThirdPartyCaveatInfo` of bakery/discharge.go, less the `Id` that the decoder leaves empty.
pub record ThirdPartyCaveatInfo : Type 0 where
  pub condition : Bytes
  pub first_party_public_key : Bytes
  pub third_party_key_pair : KeyPair
  pub root_key : Bytes
  pub caveat : Bytes
  pub version : ℕ
  pub namespace : Namespace

module _ (box : Box) where
  -- `encodeCaveatV2V3`, with the nonce that `uuidGen.Next` gives.
  unfoldable pub encode_caveat_v2v3 :
      ℕ → Bytes → Bytes → Bytes → KeyPair → Option Namespace → Bytes → Bytes
  encode_caveat_v2v3 version condition root_key third_party_key key ns nonce =
      let ns_bytes = if leb version3 version then marshal_text ns else [] in
      let secret = encode_secret_part version condition root_key ns_bytes in
      version % 2 ^ 8
      ∷ (take public_key_prefix_len third_party_key
          ++ (key.public ++ (nonce ++ box.seal secret nonce third_party_key key.private)))

  -- `decodeCaveatV2V3` behind its length test: `caveat` is what follows the version.
  unfoldable pub open_caveat : ℕ → KeyPair → Bytes → Bytes → Result CaveatError ThirdPartyCaveatInfo
  open_caveat version key orig_caveat caveat = do
    check (take public_key_prefix_len key.public == take public_key_prefix_len caveat)
        public_key_mismatch
    let caveat1 = drop public_key_prefix_len caveat
    let first_party_pub = take key_len caveat1
    let caveat2 = drop key_len caveat1
    let nonce = take nonce_len caveat2
    let sealed = drop nonce_len caveat2
    bytes ← from_option cannot_decrypt (box.open_box sealed nonce first_party_pub key.private)
    secret ← decode_secret_part version bytes
    ok (record {
      condition = secret.condition;
      first_party_public_key = first_party_pub;
      third_party_key_pair = key;
      root_key = secret.root_key;
      caveat = orig_caveat;
      version = version;
      namespace = secret.namespace;
    })

  unfoldable pub decode_caveat_v2v3 : ℕ → KeyPair → Bytes → Result CaveatError ThirdPartyCaveatInfo
  unfolding open_caveat
  decode_caveat_v2v3 version key caveat =
      if ltb (length caveat) (1 + public_key_prefix_len + key_len + nonce_len + box_overhead)
      then err too_short
      else open_caveat version key caveat (drop 1 caveat)
