-- ===== src/Bakery/Codec/Legacy.antt =====
-- Version 1 caveat ids, and the choice of the version: `encodeCaveat` and `decodeCaveat` of
-- bakery/codec.go.
use macaroon_bakery.Prelude.{
  Bytes, ℕ, ◌≡◌, Option, none, some, [], ◌∷◌, true, ltb, leb, nat_beq, if◌then◌else◌, ◌==◌,
  bytes_eq, Result, ok, err, ◌>>=◌, ◌>>◌, check, from_option, take, length,
}
use macaroon_bakery.Strings.Utf8.{valid_string}
use macaroon_bakery.Checkers.Namespace.{Namespace}
use macaroon_bakery.Bakery.Crypto.{Box, KeyPair, nonce_len}
use macaroon_bakery.Bakery.Codec.{
  CaveatError, empty_caveat, no_payload, unsupported_version, public_key_mismatch,
  no_first_party_key, bad_encoding, nonce_too_short, cannot_decrypt, nil_panic, cannot_encode,
  legacy_namespace, ThirdPartyCaveatInfo, version2, version3, version3_caveat_min_len,
  encode_caveat_v2v3, decode_caveat_v2v3,
}

abbrev pub version1 : ℕ
version1 = 1

-- `caveatRecord`
pub record CaveatRecord : Type 0 where
  pub root_key : Bytes
  pub condition : Bytes

-- `caveatJSON`: a nil key is `none`.
pub record CaveatJson : Type 0 where
  pub third_party_public_key : Option Bytes
  pub first_party_public_key : Option Bytes
  pub nonce : Bytes
  pub id : Bytes

-- encoding/json on the two records, and `base64.StdEncoding`.
pub record Encodings : Type 0 where
  pub marshal_record : CaveatRecord → Option Bytes
  pub unmarshal_record : Bytes → Option CaveatRecord
  pub marshal_caveat : CaveatJson → Option Bytes
  pub unmarshal_caveat : Bytes → Option CaveatJson
  pub to_base64 : Bytes → Bytes
  pub from_base64 : Bytes → Option Bytes

-- Both records are written as JSON objects and read back, where the condition is valid UTF-8 and
-- the keys are there; base64 is read back, and that of an object starts with an `e`.
pub record EncodingLaws (enc : Encodings) : Type 0 where
  pub record-text :
      (r : CaveatRecord)
      → valid_string r.condition ≡ true
      → (text : Bytes) × (enc.marshal_record r ≡ some text) × (enc.unmarshal_record text ≡ some r)
  pub caveat-text :
      (third first nonce id : Bytes)
      → (text : Bytes) × (enc.marshal_caveat (record {
        third_party_public_key = some third;
        first_party_public_key = some first;
        nonce = nonce;
        id = enc.to_base64 id;
      })
          ≡ some (b'{' ∷ text))
        × (enc.unmarshal_caveat (b'{' ∷ text)
            ≡ some (record {
              third_party_public_key = some third;
              first_party_public_key = some first;
              nonce = nonce;
              id = enc.to_base64 id;
            }))
  pub from-to_base64 : (s : Bytes) → enc.from_base64 (enc.to_base64 s) ≡ some s
  pub to_base64-brace : (s : Bytes) → (rest : Bytes) × (enc.to_base64 (b'{' ∷ s) ≡ b'e' ∷ rest)

-- What `rand.Read` and `uuidGen.Next` give for a nonce: the former may fail.
pub record Entropy : Type 0 where
  pub random_nonce : Option Bytes
  pub uuid : Bytes

-- A `Version` is an int, of which the code does not tell the negative ones apart.
pub data Version : Type 0 where
  negative : Version
  at_version : ℕ → Version

-- `ThirdPartyInfo` of bakery/keys.go.
pub record ThirdPartyInfo : Type 0 where
  pub public_key : Bytes
  pub version : Version

module _ (box : Box) (enc : Encodings) where
  unfoldable pub encode_caveat_v1 :
      Bytes → Bytes → Bytes → KeyPair → Option Bytes → Result CaveatError Bytes
  encode_caveat_v1 condition root_key third_party_key key random_nonce = do
    nonce ← from_option cannot_encode random_nonce
    plain ←
        from_option cannot_encode
          (enc.marshal_record (record { root_key = root_key; condition = condition }))
    let sealed = box.seal plain nonce third_party_key key.private
    bytes ← from_option cannot_encode (
        enc.marshal_caveat (record {
          third_party_public_key = some third_party_key;
          first_party_public_key = some key.public;
          nonce = nonce;
          id = enc.to_base64 sealed;
        }))
    ok (enc.to_base64 bytes)

  -- The `switch` of `encodeCaveat`.
  unfoldable pub encode_at_version :
      Bytes
      → Bytes
      → Bytes
      → KeyPair
      → Option Namespace
      → Entropy
      → Version
      → Result CaveatError Bytes
  unfolding encode_caveat_v1
  encode_at_version condition root_key third_party_key key ns e negative =
      ok (encode_caveat_v2v3 box version3 condition root_key third_party_key key ns e.uuid)
  encode_at_version condition root_key third_party_key key ns e (at_version v) =
      if leb v version1
      then encode_caveat_v1 condition root_key third_party_key key e.random_nonce
      else if nat_beq v version2
      then ok (encode_caveat_v2v3 box version2 condition root_key third_party_key key none e.uuid)
      else ok (encode_caveat_v2v3 box version3 condition root_key third_party_key key ns e.uuid)

  unfoldable pub encode_caveat :
      Bytes
      → Bytes
      → ThirdPartyInfo
      → KeyPair
      → Option Namespace
      → Entropy
      → Result CaveatError Bytes
  unfolding encode_at_version
  encode_caveat condition root_key info key ns e =
      encode_at_version condition root_key info.public_key key ns e info.version

  -- `decodeCaveatV1` behind the unmarshaling of the id.
  unfoldable pub open_wrapper :
      KeyPair → Bytes → CaveatJson → Option Bytes → Result CaveatError ThirdPartyCaveatInfo
  open_wrapper key caveat wrapper none = err nil_panic
  open_wrapper key caveat wrapper (some third) = do
    check (key.public == third) public_key_mismatch
    first ← from_option no_first_party_key wrapper.first_party_public_key
    secret ← from_option bad_encoding (enc.from_base64 wrapper.id)
    check (leb nonce_len (length wrapper.nonce)) nonce_too_short
    plain ←
        from_option cannot_decrypt
          (box.open_box secret (take nonce_len wrapper.nonce) first key.private)
    r ← from_option bad_encoding (enc.unmarshal_record plain)
    ns ← legacy_namespace
    ok (record {
      condition = r.condition;
      first_party_public_key = first;
      third_party_key_pair = key;
      root_key = r.root_key;
      caveat = caveat;
      version = version1;
      namespace = ns;
    })

  unfoldable pub decode_caveat_v1 : KeyPair → Bytes → Result CaveatError ThirdPartyCaveatInfo
  unfolding open_wrapper
  decode_caveat_v1 key caveat = do
    bytes ← from_option bad_encoding (enc.from_base64 caveat)
    wrapper ← from_option bad_encoding (enc.unmarshal_caveat bytes)
    open_wrapper key caveat wrapper wrapper.third_party_public_key

  unfoldable pub decode_caveat : KeyPair → Bytes → Result CaveatError ThirdPartyCaveatInfo
  unfolding decode_caveat_v1
  decode_caveat key [] = err empty_caveat
  decode_caveat key (tag ∷ rest) =
      if nat_beq tag version2
      then decode_caveat_v2v3 box version2 key (tag ∷ rest)
      else if nat_beq tag version3
      then (if ltb (length (tag ∷ rest)) version3_caveat_min_len
          then err no_payload
          else decode_caveat_v2v3 box version3 key (tag ∷ rest))
      else if nat_beq tag b'e'
      then decode_caveat_v1 key (tag ∷ rest)
      else err unsupported_version
