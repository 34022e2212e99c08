-- ===== src/Bakery/Codec/RoundTrip.antt =====
-- `encodeCaveatV2V3` against `decodeCaveatV2V3` of bakery/codec.go.
use macaroon_bakery.Prelude.{
  Bytes, ℕ, ◌%◌, ◌^◌, ◌≤◌, ◌≡◌, false, Option, some, [], ◌∷◌, ◌++◌, arith, ltb, leb, bytes_eq,
  beq_refl, if◌then◌else◌, ok, take, drop, length, length-append, take-append, drop-append,
  length-take,
}
use macaroon_bakery.Checkers.Namespace.{Namespace, marshal_text, resolve}
use macaroon_bakery.Checkers.Namespace.Valid.{IsValid}
use macaroon_bakery.Checkers.Namespace.Text.{unmarshal_text-marshal_text}
use macaroon_bakery.Bakery.Uvarint.{IsU64}
use macaroon_bakery.Bakery.Crypto.{Box, BoxLaws, KeyPair, IsKeyPair, key_len, nonce_len}
use macaroon_bakery.Bakery.Codec.{
  Secret, encode_secret_part, decode_secret_part, version2, version3, public_key_prefix_len,
  encode_caveat_v2v3, open_caveat, decode_caveat_v2v3,
}
use macaroon_bakery.Bakery.Codec.SecretPart.{
  encode_secret_part-nonempty, decode-encode_secret_part_v2, decode-encode_secret_part_v3, legacy,
}

-- Fields of known length are taken off the front.
take-field : (n : ℕ) (s t : Bytes) → length s ≡ n → take n (s ++ t) ≡ s
take-field n s t h = rw (← h) (take-append s t)

drop-field : (n : ℕ) (s t : Bytes) → length s ≡ n → drop n (s ++ t) ≡ t
drop-field n s t h = rw (← h) (drop-append s t)

module _ (box : Box) (laws : BoxLaws box) (version : ℕ) (condition root_key nonce : Bytes)
    (first third : KeyPair) (ns : Option Namespace) (first_keys : IsKeyPair box first)
    (third_keys : IsKeyPair box third) (nonce_length : length nonce ≡ nonce_len) where
  abbrev ns_bytes : Bytes
  ns_bytes = if leb version3 version then marshal_text ns else []

  abbrev secret_bytes : Bytes
  secret_bytes = encode_secret_part version condition root_key ns_bytes

  abbrev encoded : Bytes
  encoded = encode_caveat_v2v3 box version condition root_key third.public first ns nonce

  abbrev sealed : Bytes
  sealed = box.seal secret_bytes nonce third.public first.private

  abbrev packed : Bytes
  packed = take public_key_prefix_len third.public ++ (first.public ++ (nonce ++ sealed))

  opened : box.open_box sealed nonce first.public third.private ≡ some secret_bytes
  opened =
      rw (first_keys.belongs, third_keys.belongs)
        (laws.open-seal secret_bytes nonce first.private third.private)

  -- Opening what was encoded comes to reading the secret part.
  open_caveat-encode :
      (orig : Bytes) (secret : Secret)
      → decode_secret_part version secret_bytes ≡ ok secret
      → open_caveat box version third orig packed
        ≡ ok (record {
          condition = secret.condition;
          first_party_public_key = first.public;
          third_party_key_pair = third;
          root_key = secret.root_key;
          caveat = orig;
          version = version;
          namespace = secret.namespace;
        })
  unfolding open_caveat
  open_caveat-encode orig secret h =
      let prefix = take public_key_prefix_len third.public in
      let prefix_length : length prefix ≡ public_key_prefix_len =
        length-take public_key_prefix_len third.public (omega (arith, third_keys.public_length)) in
      let rest = first.public ++ (nonce ++ sealed) in
      rw (take-field public_key_prefix_len prefix rest prefix_length, beq_refl prefix)
        (rw (drop-field public_key_prefix_len prefix rest prefix_length) (
          rw
            (
              take-field key_len first.public (nonce ++ sealed) first_keys.public_length,
              drop-field key_len first.public (nonce ++ sealed) first_keys.public_length,
            )
            (rw
              (
                take-field nonce_len nonce sealed nonce_length,
                drop-field nonce_len nonce sealed nonce_length,
              )
              (rw (opened, h)))))

  -- The whole id is long enough.
  pub length-encoded : 78 ≤ length (version % 2 ^ 8 ∷ packed)
  length-encoded = omega (
    arith,
    length-append (take public_key_prefix_len third.public) (first.public ++ (nonce ++ sealed)),
    length-take public_key_prefix_len third.public (omega (arith, third_keys.public_length)),
    length-append first.public (nonce ++ sealed),
    length-append nonce sealed,
    laws.length-seal secret_bytes nonce third.public first.private,
    first_keys.public_length,
    encode_secret_part-nonempty version condition root_key ns_bytes,
    nonce_length,
  )

  decode-encode :
      (secret : Secret)
      → decode_secret_part version secret_bytes ≡ ok secret
      → decode_caveat_v2v3 box version third encoded
        ≡ ok (record {
          condition = secret.condition;
          first_party_public_key = first.public;
          third_party_key_pair = third;
          root_key = secret.root_key;
          caveat = encoded;
          version = version;
          namespace = secret.namespace;
        })
  unfolding decode_caveat_v2v3 encode_caveat_v2v3
  decode-encode secret h =
      let long : ltb (length (version % 2 ^ 8 ∷ packed)) 77 ≡ false =
        ground (arith, length-encoded) in
      rw long (open_caveat-encode encoded secret h)

-- A version 3 caveat id that was made for a third party is decoded by it to the condition, the
-- root key and the first party's key that went into it, with a namespace that resolves every URI
-- as the first party's does: where the box obeys its laws, both have key pairs, the nonce has its
-- length, the namespace is valid and the length of the secret part fits uint64.
pub decode-encode_caveat_v3 :
    (box : Box) (condition root_key nonce : Bytes) (first third : KeyPair) (ns : Namespace)
    → BoxLaws box
    → IsKeyPair box first
    → IsKeyPair box third
    → length nonce ≡ nonce_len
    → IsValid ns
    → IsU64 (length (encode_secret_part version3 condition root_key (marshal_text (some ns))))
    → (ns' : Namespace) × (decode_caveat_v2v3 box version3 third
          (encode_caveat_v2v3 box version3 condition root_key third.public first (some ns) nonce)
        ≡ ok (record {
          condition = condition;
          first_party_public_key = first.public;
          third_party_key_pair = third;
          root_key = root_key;
          caveat =
              encode_caveat_v2v3 box version3 condition root_key third.public first (some ns) nonce;
          version = version3;
          namespace = ns';
        }))
      × ((uri : Bytes) → resolve (some ns') uri ≡ resolve (some ns) uri)
decode-encode_caveat_v3 box condition root_key nonce first third ns laws fk tk nl valid size =
    let (ns', read, same) = unmarshal_text-marshal_text ns valid in
    (
      ns',
      decode-encode box laws version3 condition root_key nonce first third (some ns) fk tk nl
          (record { root_key = root_key; namespace = ns'; condition = condition })
          (decode-encode_secret_part_v3 condition root_key (marshal_text (some ns)) ns' read size),
      same,
    )

-- A version 2 caveat id that was made for a third party is decoded by it to the condition, the
-- root key and the first party's key that went into it, with the legacy namespace: where the box
-- obeys its laws, both have key pairs, the nonce has its length and the length of the secret part
-- fits uint64.
pub decode-encode_caveat_v2 :
    (box : Box) (condition root_key nonce : Bytes) (first third : KeyPair) (ns : Option Namespace)
    → BoxLaws box
    → IsKeyPair box first
    → IsKeyPair box third
    → length nonce ≡ nonce_len
    → IsU64 (length (encode_secret_part version2 condition root_key []))
    → decode_caveat_v2v3 box version2 third
        (encode_caveat_v2v3 box version2 condition root_key third.public first ns nonce)
      ≡ ok (record {
        condition = condition;
        first_party_public_key = first.public;
        third_party_key_pair = third;
        root_key = root_key;
        caveat = encode_caveat_v2v3 box version2 condition root_key third.public first ns nonce;
        version = version2;
        namespace = legacy;
      })
decode-encode_caveat_v2 box condition root_key nonce first third ns laws fk tk nl size =
    decode-encode box laws version2 condition root_key nonce first third ns fk tk nl
      (record { root_key = root_key; namespace = legacy; condition = condition })
      (decode-encode_secret_part_v2 condition root_key [] size)
