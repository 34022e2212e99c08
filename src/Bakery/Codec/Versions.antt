-- ===== src/Bakery/Codec/Versions.antt =====
-- `encodeCaveat` against `decodeCaveat` of bakery/codec.go, in every version.
use mathlib.Core.Path.{subst}
use macaroon_bakery.Prelude.{
  Bytes, ℕ, ◌≤◌, ◌≡◌, refl, sym, ap, ◌∙◌, true, false, Option, none, some, [], ◌∷◌, arith, ltb, leb,
  nat_beq, bytes_eq, beq_refl, ok, take, length, take-append, append-nil, Bool-cases, inl, inr,
}
use macaroon_bakery.Strings.Utf8.{valid_string}
use macaroon_bakery.Checkers.Namespace.{Namespace, marshal_text}
use macaroon_bakery.Checkers.Namespace.Valid.{IsValid}
use macaroon_bakery.Bakery.Uvarint.{IsU64}
use macaroon_bakery.Bakery.Crypto.{Box, BoxLaws, KeyPair, IsKeyPair, nonce_len}
use macaroon_bakery.Bakery.Codec.{
  ThirdPartyCaveatInfo, version2, version3, version3_caveat_min_len, encode_secret_part,
  encode_caveat_v2v3, decode_caveat_v2v3,
}
use macaroon_bakery.Bakery.Codec.SecretPart.{legacy, legacy_namespace_lem}
use macaroon_bakery.Bakery.Codec.RoundTrip.{
  length-encoded, decode-encode_caveat_v2, decode-encode_caveat_v3,
}
use macaroon_bakery.Bakery.Codec.Legacy.{
  CaveatJson, Encodings, EncodingLaws, Entropy, Version, negative, at_version, version1,
  encode_caveat_v1, encode_caveat, decode_caveat_v1, decode_caveat,
}

-- What went into a caveat id is what was decoded from it.
pub record Carries (condition root_key : Bytes) (first third : KeyPair) (id : Bytes)
    (d : ThirdPartyCaveatInfo) : Type 0 where
  pub same_condition : d.condition ≡ condition
  pub same_root_key : d.root_key ≡ root_key
  pub same_first : d.first_party_public_key ≡ first.public
  pub same_third : d.third_party_key_pair ≡ third
  pub same_id : d.caveat ≡ id

-- The nonces have their length, and the secret part fits uint64.
pub record IsEncodable (e : Entropy) (condition root_key : Bytes) (ns : Namespace) : Type 0 where
  pub valid_condition : valid_string condition ≡ true
  pub valid_namespace : IsValid ns
  pub uuid_length : length e.uuid ≡ nonce_len
  pub nonce_length : (nonce : Bytes) → e.random_nonce ≡ some nonce → length nonce ≡ nonce_len
  pub v2_size : IsU64 (length (encode_secret_part version2 condition root_key []))
  pub v3_size :
      IsU64 (length (encode_secret_part version3 condition root_key (marshal_text (some ns))))

take-all : (n : ℕ) (s : Bytes) → length s ≡ n → take n s ≡ s
take-all n s h = rw (← h) (ap (λ l. take (length s) l) (sym (append-nil s)) ∙ take-append s [])

module _ (box : Box) (enc : Encodings) (condition root_key nonce plain bytes : Bytes)
    (first third : KeyPair) where
  abbrev sealed : Bytes
  sealed = box.seal plain nonce third.public first.private

  abbrev wrapper : CaveatJson
  wrapper = record {
    third_party_public_key = some third.public;
    first_party_public_key = some first.public;
    nonce = nonce;
    id = enc.to_base64 sealed;
  }

  abbrev v1_info : Bytes → ThirdPartyCaveatInfo
  v1_info caveat = record {
    condition = condition;
    first_party_public_key = first.public;
    third_party_key_pair = third;
    root_key = root_key;
    caveat = caveat;
    version = version1;
    namespace = legacy;
  }

  encode_caveat_v1-eq :
      enc.marshal_record (record { root_key = root_key; condition = condition }) ≡ some plain
      → enc.marshal_caveat wrapper ≡ some bytes
      → encode_caveat_v1 box enc condition root_key third.public first (some nonce)
        ≡ ok (enc.to_base64 bytes)
  unfolding encode_caveat_v1
  encode_caveat_v1-eq written marshals = rw written (rw marshals)

  decode_caveat_v1-eq :
      (caveat : Bytes)
      → EncodingLaws enc
      → enc.from_base64 caveat ≡ some bytes
      → enc.unmarshal_caveat bytes ≡ some wrapper
      → length nonce ≡ nonce_len
      → box.open_box sealed nonce first.public third.private ≡ some plain
      → enc.unmarshal_record plain ≡ some (record { root_key = root_key; condition = condition })
      → decode_caveat_v1 box enc third caveat ≡ ok (v1_info caveat)
  unfolding decode_caveat_v1
  decode_caveat_v1-eq caveat enc_laws decoded unmarshals nl opened reads =
      let full : take nonce_len nonce ≡ nonce = take-all nonce_len nonce nl in
      let long : leb nonce_len (length nonce) ≡ true = ground arith in
      rw decoded (
        rw unmarshals (
          rw (beq_refl third.public, enc_laws.from-to_base64 sealed)
            (rw (long, full) (rw opened (rw (reads, legacy_namespace_lem))))))

tagged_v1 :
    (box : Box) (enc : Encodings) (key : KeyPair) (caveat rest : Bytes)
    → caveat ≡ b'e' ∷ rest
    → decode_caveat box enc key caveat ≡ decode_caveat_v1 box enc key caveat
unfolding decode_caveat
tagged_v1 box enc key caveat rest h = rw h

module _ (box : Box) (enc : Encodings) (laws : BoxLaws box) (enc_laws : EncodingLaws enc)
    (condition root_key : Bytes) (first third : KeyPair) (first_keys : IsKeyPair box first)
    (third_keys : IsKeyPair box third) where
  decode-encode_caveat_v1 :
      (nonce : Bytes)
      → valid_string condition ≡ true
      → length nonce ≡ nonce_len
      → (id : Bytes) × (d : ThirdPartyCaveatInfo) × (encode_caveat_v1 box enc condition root_key
            third.public first
            (some nonce)
          ≡ ok id)
        × (decode_caveat box enc third id ≡ ok d)
        × Carries condition root_key first third id d
  decode-encode_caveat_v1 nonce vs nl =
      let (plain, written, reads) =
        enc_laws.record-text (record { root_key = root_key; condition = condition }) vs in
      let s = box.seal plain nonce third.public first.private in
      let (text, marshals, unmarshals) = enc_laws.caveat-text third.public first.public nonce s in
      let (rest, tagged) = enc_laws.to_base64-brace text in
      let id = enc.to_base64 (b'{' ∷ text) in
      let opened : box.open_box s nonce first.public third.private ≡ some plain =
        rw (first_keys.belongs, third_keys.belongs)
          (laws.open-seal plain nonce first.private third.private) in
      (
        id,
        v1_info box enc condition root_key nonce plain (b'{' ∷ text) first third id,
        encode_caveat_v1-eq box enc condition root_key nonce plain (b'{' ∷ text) first third written
            marshals,
        tagged_v1 box enc third id rest tagged
            ∙ decode_caveat_v1-eq box enc condition root_key nonce plain (b'{' ∷ text) first third
                id enc_laws (enc_laws.from-to_base64 (b'{' ∷ text)) unmarshals nl opened reads,
        record {
          same_condition = refl;
          same_root_key = refl;
          same_first = refl;
          same_third = refl;
          same_id = refl;
        },
      )

tagged_v2 :
    (box : Box) (enc : Encodings) (key : KeyPair) (rest : Bytes)
    → decode_caveat box enc key (version2 ∷ rest)
      ≡ decode_caveat_v2v3 box version2 key (version2 ∷ rest)
unfolding decode_caveat
tagged_v2 box enc key rest = refl

tagged_v3 :
    (box : Box) (enc : Encodings) (key : KeyPair) (rest : Bytes)
    → 78 ≤ length (version3 ∷ rest)
    → decode_caveat box enc key (version3 ∷ rest)
      ≡ decode_caveat_v2v3 box version3 key (version3 ∷ rest)
unfolding decode_caveat
tagged_v3 box enc key rest h =
    let long : ltb (length (version3 ∷ rest)) version3_caveat_min_len ≡ false = ground arith in
    rw long

module _ (box : Box) (enc : Encodings) (laws : BoxLaws box) (enc_laws : EncodingLaws enc)
    (condition root_key : Bytes) (first third : KeyPair) (first_keys : IsKeyPair box first)
    (third_keys : IsKeyPair box third) (e : Entropy) (ns : Namespace)
    (fits : IsEncodable e condition root_key ns) where
  abbrev Decodes : Bytes → Type 0
  Decodes id =
      (d : ThirdPartyCaveatInfo) × (decode_caveat box enc third id ≡ ok d)
      × Carries condition root_key first third id d

  v1-Decodes :
      (o : Option Bytes) (id : Bytes)
      → e.random_nonce ≡ o
      → encode_caveat_v1 box enc condition root_key third.public first o ≡ ok id
      → Decodes id
  v1-Decodes none id h encoded = absurd (unfold encode_caveat_v1 in cc)
  v1-Decodes (some nonce) id h encoded =
      let (id', d, encoded', decoded, carries) =
        decode-encode_caveat_v1 box enc laws enc_laws condition root_key first third first_keys
          third_keys nonce fits.valid_condition (fits.nonce_length nonce h) in
      let same : id' ≡ id = ground arith in subst Decodes same (d, decoded, carries)

  v2-Decodes :
      Decodes (encode_caveat_v2v3 box version2 condition root_key third.public first none e.uuid)
  unfolding encode_caveat_v2v3
  v2-Decodes = (
    _,
    tagged_v2 box enc third _
        ∙ decode-encode_caveat_v2 box condition root_key e.uuid first third none laws first_keys
            third_keys fits.uuid_length fits.v2_size,
    record {
      same_condition = refl;
      same_root_key = refl;
      same_first = refl;
      same_third = refl;
      same_id = refl;
    },
  )

  v3-Decodes :
      Decodes
        (encode_caveat_v2v3 box version3 condition root_key third.public first (some ns) e.uuid)
  unfolding encode_caveat_v2v3
  v3-Decodes =
      let (ns', decoded, same) =
        decode-encode_caveat_v3 box condition root_key e.uuid first third ns laws first_keys
          third_keys fits.uuid_length fits.valid_namespace fits.v3_size in
      (
        _,
        tagged_v3 box enc third _ (
              length-encoded box laws version3 condition root_key e.uuid first third (some ns)
                first_keys third_keys fits.uuid_length)
            ∙ decoded,
        record {
          same_condition = refl;
          same_root_key = refl;
          same_first = refl;
          same_third = refl;
          same_id = refl;
        },
      )

  -- A caveat id that `encodeCaveat` made in any version, the old ones and numbers that are no
  -- version included, is decoded by the third party to the condition, the root key and the keys
  -- that went into it. The box, JSON and base64 obey their laws, both parties have key pairs, the
  -- nonces have their length, the condition is valid UTF-8, the namespace is valid, and the
  -- secret parts fit uint64.
  pub decode-encode_caveat :
      (version : Version) (id : Bytes)
      → encode_caveat box enc condition root_key
          (record { public_key = third.public; version = version })
          first
          (some ns)
          e
        ≡ ok id
      → (d : ThirdPartyCaveatInfo) × (decode_caveat box enc third id ≡ ok d)
        × Carries condition root_key first third id d
  unfolding encode_caveat
  decode-encode_caveat negative id h = subst Decodes (ground arith) v3-Decodes
  decode-encode_caveat (at_version v) id h = elim (Bool-cases (leb v version1)) [
    | inl old ↦ v1-Decodes e.random_nonce id refl (ground arith)
    | inr newer ↦ elim (Bool-cases (nat_beq v version2)) [
      | inl two ↦ subst Decodes (ground arith) v2-Decodes
      | inr three ↦ subst Decodes (ground arith) v3-Decodes
    ]
  ]
