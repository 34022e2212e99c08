-- ===== src/Bakery/Codec/SecretPart.antt =====
-- Reading back the secret part of a third party caveat: bakery/codec.go.
use macaroon_bakery.Prelude.{
  Bytes, ℕ, ◌+◌, ◌%◌, ◌^◌, ◌≤◌, ◌<◌, ◌≡◌, refl, ap, ◌∙◌, true, false, [], ◌∷◌, ◌++◌, append_assoc,
  arith, ltb, leb, nat_beq, if◌then◌else◌, ok, length, length-append, take-append, drop-append,
  lookup, insert, Bool-cases, inl, inr,
}
use macaroon_bakery.Checkers.Caveat.{std_namespace}
use macaroon_bakery.Checkers.Namespace.{
  Namespace, unmarshal_text, register, is_valid_schema_uri, is_valid_prefix,
}
use macaroon_bakery.Strings.Utf8.{valid_string, index_func, runes, is_space}
use macaroon_bakery.Bakery.Uvarint.{IsU64, append_uvarint, put_uvarint}
use macaroon_bakery.Bakery.Uvarint.Laws.{uvarint-put_uvarint}
use macaroon_bakery.Bakery.Codec.{
  CaveatError, encode_secret_part, decode_secret_part, decode_tail, read_chunk, read_measured,
  slice_at, legacy_namespace, version2, version3, bad_root_key_length, bad_namespace_length,
}

slice_at-append : (s t : Bytes) → slice_at (length s) (s ++ t) ≡ ok (s, t)
unfolding slice_at
slice_at-append s t = ground (arith, length-append s t, take-append s t, drop-append s t)

-- A text behind its length is read back, with what follows it, where the whole has a length that a
-- slice can have.
pub read_chunk-append :
    (e : CaveatError) (s t : Bytes)
    → IsU64 (length (put_uvarint (length s) ++ (s ++ t)))
    → read_chunk e (put_uvarint (length s) ++ (s ++ t)) ≡ ok (s, t)
unfolding read_chunk
read_chunk-append e s t h =
    let l = length s in
    let head = put_uvarint l in
    let total = length-append head (s ++ t) in
    let inner = length-append s t in
    let small : IsU64 l = omega (arith, total, inner) in
    let fits : ltb (length (head ++ (s ++ t))) ((length head + l) % 2 ^ 64) ≡ false =
      ground (arith, total, inner) in
    rw (uvarint-put_uvarint l (s ++ t) small)
      (unfold read_measured in rw fits (rw drop-append (slice_at-append s t)))

-- A text behind its length, written by `appendUvarint`, is read back by the decoder of secret
-- parts, with what follows it, where the length of the whole fits uint64.
pub read_chunk-append_uvarint :
    (e : CaveatError) (s t : Bytes)
    → IsU64 (length (append_uvarint [] (length s) ++ (s ++ t)))
    → read_chunk e (append_uvarint [] (length s) ++ (s ++ t)) ≡ ok (s, t)
unfolding append_uvarint
read_chunk-append_uvarint e s t h = read_chunk-append e s t h

-- What the decoder leaves to the part behind the root key.
tail_bytes : ℕ → Bytes → Bytes → Bytes
tail_bytes version condition ns_bytes =
    if leb version3 version
    then put_uvarint (length ns_bytes) ++ (ns_bytes ++ condition)
    else condition

encode_secret_part-tail :
    (version : ℕ) (condition root_key ns_bytes : Bytes)
    → encode_secret_part version condition root_key ns_bytes
      ≡ version % 2 ^ 8
        ∷ (put_uvarint (length root_key) ++ (root_key ++ tail_bytes version condition ns_bytes))
unfolding encode_secret_part append_uvarint tail_bytes
encode_secret_part-tail version condition root_key ns_bytes =
    elim (Bool-cases (leb version3 version)) [
      | inl new ↦ rw new (simp append_assoc)
      | inr old ↦ rw old (simp append_assoc)
    ]

pub encode_secret_part-nonempty :
    (version : ℕ) (condition root_key ns_bytes : Bytes)
    → 1 ≤ length (encode_secret_part version condition root_key ns_bytes)
encode_secret_part-nonempty version condition root_key ns_bytes =
    let shape = encode_secret_part-tail version condition root_key ns_bytes in
    omega (arith, ap (λ (x : Bytes). length x) shape)

-- Reading the secret part comes to reading what stands behind the root key.
decode-encode_tail :
    (version : ℕ) (condition root_key ns_bytes : Bytes)
    → version < 2 ^ 8
    → IsU64 (length (encode_secret_part version condition root_key ns_bytes))
    → decode_secret_part version (encode_secret_part version condition root_key ns_bytes)
      ≡ decode_tail version root_key (tail_bytes version condition ns_bytes)
unfolding decode_secret_part
decode-encode_tail version condition root_key ns_bytes hv hl =
    let shape = encode_secret_part-tail version condition root_key ns_bytes in
    let tail = tail_bytes version condition ns_bytes in
    let small : IsU64 (length (put_uvarint (length root_key) ++ (root_key ++ tail))) =
      omega (arith, ap (λ (x : Bytes). length x) shape) in
    let same : version % 2 ^ 8 ≡ version = omega arith in
    let test : nat_beq version version ≡ true = ground arith in
    rw shape (rw (same, test, read_chunk-append bad_root_key_length root_key tail small))

decode_tail-v3 :
    (condition root_key ns_bytes : Bytes) (ns : Namespace)
    → unmarshal_text ns_bytes ≡ ok ns
    → IsU64 (length (put_uvarint (length ns_bytes) ++ (ns_bytes ++ condition)))
    → decode_tail version3 root_key (put_uvarint (length ns_bytes) ++ (ns_bytes ++ condition))
      ≡ ok (record { root_key = root_key; namespace = ns; condition = condition })
unfolding decode_tail
decode_tail-v3 condition root_key ns_bytes ns hn h =
    rw (read_chunk-append bad_namespace_length ns_bytes condition h, hn)

abbrev pub legacy : Namespace
legacy = record { uri_to_prefix = (std_namespace, []) ∷ [] }

pub legacy_namespace_lem : legacy_namespace ≡ ok legacy
unfolding legacy_namespace register is_valid_schema_uri is_valid_prefix valid_string index_func
    runes is_space lookup insert
legacy_namespace_lem = refl

decode_tail-v2 :
    (condition root_key : Bytes)
    → decode_tail version2 root_key condition
      ≡ ok (record { root_key = root_key; namespace = legacy; condition = condition })
unfolding decode_tail
decode_tail-v2 condition root_key = rw legacy_namespace_lem

tail_small :
    (condition root_key ns_bytes : Bytes)
    → IsU64 (length (encode_secret_part version3 condition root_key ns_bytes))
    → IsU64 (length (put_uvarint (length ns_bytes) ++ (ns_bytes ++ condition)))
unfolding tail_bytes
tail_small condition root_key ns_bytes hl =
    let tail = put_uvarint (length ns_bytes) ++ (ns_bytes ++ condition) in
    omega (
      arith,
      ap (λ (x : Bytes). length x) (encode_secret_part-tail version3 condition root_key ns_bytes),
      length-append (put_uvarint (length root_key)) (root_key ++ tail),
      length-append root_key tail,
    )

-- The secret part of a version 3 caveat is read back, with the namespace whose text it holds.
pub decode-encode_secret_part_v3 :
    (condition root_key ns_bytes : Bytes) (ns : Namespace)
    → unmarshal_text ns_bytes ≡ ok ns
    → IsU64 (length (encode_secret_part version3 condition root_key ns_bytes))
    → decode_secret_part version3 (encode_secret_part version3 condition root_key ns_bytes)
      ≡ ok (record { root_key = root_key; namespace = ns; condition = condition })
decode-encode_secret_part_v3 condition root_key ns_bytes ns hn hl =
    decode-encode_tail version3 condition root_key ns_bytes (omega arith) hl
    ∙ unfold tail_bytes in
      decode_tail-v3 condition root_key ns_bytes ns hn (tail_small condition root_key ns_bytes hl)

-- The secret part of a version 2 caveat is read back, with the legacy namespace.
pub decode-encode_secret_part_v2 :
    (condition root_key ns_bytes : Bytes)
    → IsU64 (length (encode_secret_part version2 condition root_key ns_bytes))
    → decode_secret_part version2 (encode_secret_part version2 condition root_key ns_bytes)
      ≡ ok (record { root_key = root_key; namespace = legacy; condition = condition })
decode-encode_secret_part_v2 condition root_key ns_bytes hl =
    decode-encode_tail version2 condition root_key ns_bytes (omega arith) hl
    ∙ unfold tail_bytes in decode_tail-v2 condition root_key
