-- ===== src/Bakery/Uvarint.antt =====
-- Variable-length integers: `appendUvarint` and `uvarintLen` of bakery/codec.go, with
-- `binary.PutUvarint` and `binary.Uvarint` of Go's encoding/binary.
pub mod Laws
use macaroon_bakery.Prelude.{
  Bytes, ℕ, zero, suc, ◌+◌, ◌*◌, ◌/◌, ◌%◌, ◌^◌, ◌<◌, Bool, true, false, ◌&&◌, Option, none, some,
  List, [], ◌∷◌, ◌++◌, ltb, nat_beq, if◌then◌else◌,
}

-- A uint64.
abbrev pub IsU64 : ℕ → Type 0
IsU64 n = n < 2 ^ 64

-- `binary.PutUvarint`: `for x >= 0x80 { … x >>= 7 }`, for at most `k` rounds. Nine are enough for a
-- uint64.
unfoldable pub put_loop : ℕ → ℕ → Bytes
put_loop zero x = x % 256 ∷ []
put_loop (suc k) x =
    let more = (x % 128 + 128) ∷ put_loop k (x / 128) in if ltb x 128 then x ∷ [] else more

unfoldable pub put_uvarint : ℕ → Bytes
unfolding put_loop
put_uvarint x = put_loop 9 x

-- `appendUvarint`. It first makes room for `uvarintLen(n)` bytes, so that `PutUvarint` does not
-- panic; a list always has room.
unfoldable pub append_uvarint : Bytes → ℕ → Bytes
append_uvarint bytes n = bytes ++ put_uvarint n

-- `for ; n > 0; n >>= 7 { len++ }`
unfoldable pub len_loop : ℕ → ℕ → ℕ → ℕ
len_loop zero n len = len
len_loop (suc k) n len = let more = len_loop k (n / 128) (len + 1) in if ltb 0 n then more else len

unfoldable pub uvarint_len : ℕ → ℕ
unfolding len_loop
uvarint_len n = len_loop 9 (n / 128) 1

-- `binary.Uvarint`: the value and the number of bytes read, with `none` for a number that is not
-- positive. `i` counts the bytes, `x` is the value so far, and `p` is 1 shifted by 7 bits for each
-- of them; the bits that `|` joins do not overlap, so it is an addition.
unfoldable pub uvarint_loop : Bytes → ℕ → ℕ → ℕ → Option (ℕ × ℕ)
uvarint_loop [] i x p = none
uvarint_loop (b ∷ buf) i x p =
    let more = uvarint_loop buf (i + 1) (x + b % 128 * p) (p * 128) in
    if nat_beq i 10
    then none
    else if ltb b 128
    then (if nat_beq i 9 && ltb 1 b then none else some (x + b * p, i + 1))
    else more

unfoldable pub uvarint : Bytes → Option (ℕ × ℕ)
unfolding uvarint_loop
uvarint buf = uvarint_loop buf 0 0 1
