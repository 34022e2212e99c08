-- ===== src/Bakery/Codec/Panics.antt =====
-- Where the decoding of a secret part of bakery/codec.go panics.
use macaroon_bakery.Prelude.{
  Bytes, ℕ, ◌-◌, ◌^◌, ◌≤◌, ◌<◌, ◌≡◌, true, ◌∷◌, ◌++◌, arith, nat_beq, err, length, length-append,
  drop-append,
}
use macaroon_bakery.Bakery.Uvarint.{IsU64, put_uvarint}
use macaroon_bakery.Bakery.Uvarint.Laws.{uvarint-put_uvarint, length-put_uvarint_ten}
use macaroon_bakery.Bakery.Codec.{
  CaveatError, decode_secret_part, read_chunk, read_measured, slice_at, slice_panic,
  bad_root_key_length,
}

-- A length close to 2^64 passes the test, since its sum with the bytes read wraps, and the slice
-- expression behind the test panics.
read_chunk_panics :
    (e : CaveatError) (l : ℕ) (rest : Bytes)
    → IsU64 l
    → 2 ^ 64 - 10 ≤ l
    → length rest < 2 ^ 63
    → read_chunk e (put_uvarint l ++ rest) ≡ err slice_panic
unfolding read_chunk read_measured slice_at
read_chunk_panics e l rest hl near hr =
    let ten = length-put_uvarint_ten l hl near in
    rw (uvarint-put_uvarint l rest hl)
      (ground (arith, ten, length-append (put_uvarint l) rest, drop-append (put_uvarint l) rest))

-- A secret part whose root key length is one of the ten largest uint64s makes the decoder panic,
-- whatever follows, of less than 2 ^ 63 bytes.
pub decode_secret_part_panics :
    (version l : ℕ) (rest : Bytes)
    → IsU64 l
    → 2 ^ 64 - 10 ≤ l
    → length rest < 2 ^ 63
    → decode_secret_part version (version ∷ (put_uvarint l ++ rest)) ≡ err slice_panic
unfolding decode_secret_part
decode_secret_part_panics version l rest hl near hr =
    let test : nat_beq version version ≡ true = ground arith in
    rw (test, read_chunk_panics bad_root_key_length l rest hl near hr)
