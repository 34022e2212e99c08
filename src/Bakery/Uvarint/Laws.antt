-- ===== src/Bakery/Uvarint/Laws.antt =====
-- Reading back a variable-length integer, and its length.
use native.Mathlib.Nat.{div-add-mod, pow-suc}
use macaroon_bakery.Prelude.{
  refl, Bytes, ℕ, ◌≤◌, false, zero, suc, ◌+◌, ◌-◌, ◌*◌, ◌/◌, ◌%◌, ◌^◌, ◌<◌, ◌≡◌, ap, some, ◌++◌,
  arith, ltb, length, length-append, Bool-cases, inl, inr,
}
use macaroon_bakery.Bakery.Uvarint.{
  IsU64, put_loop, put_uvarint, append_uvarint, len_loop, uvarint_len, uvarint_loop, uvarint,
}

-- The lowest seven bits and the rest.
split_group : (x p : ℕ) → x * p ≡ x % 128 * p + x / 128 * (p * 128)
split_group x p = omega (arith, ap (λ (t : ℕ). t * p) (div-add-mod x 128))

group_shrinks : (k x : ℕ) → x < 2 * 128 ^ suc k → x / 128 < 2 * 128 ^ k
group_shrinks k x h = omega (arith, pow-suc 128 k)

-- With `k` rounds left, `i` bytes are read.
uvarint_loop-put_loop :
    (k i x acc p : ℕ) (rest : Bytes)
    → i + k ≡ 9
    → x < 2 * 128 ^ k
    → uvarint_loop (put_loop k x ++ rest) i acc p ≡ some (acc + x * p, i + length (put_loop k x))
unfolding uvarint_loop put_loop
uvarint_loop-put_loop zero i x acc p rest hi hx = ground arith
uvarint_loop-put_loop (suc k) i x acc p rest hi hx = elim (Bool-cases (ltb x 128)) [
  | inl last ↦ rw last (ground arith)
  | inr more ↦ rw more (
      ground (
        arith,
        uvarint_loop-put_loop k (i + 1) (x / 128) (acc + x % 128 * p) (p * 128) rest (omega arith)
            (group_shrinks k x hx),
        split_group x p,
      ))
]

-- `Uvarint` reads back what `PutUvarint` wrote of a uint64, whatever follows, and says its
-- length.
pub uvarint-put_uvarint :
    (x : ℕ) (rest : Bytes)
    → IsU64 x
    → uvarint (put_uvarint x ++ rest) ≡ some (x, length (put_uvarint x))
unfolding uvarint put_uvarint
uvarint-put_uvarint x rest h = ground (arith, uvarint_loop-put_loop 9 0 x 0 1 rest)

put_loop-length :
    (k x len : ℕ) → x < 2 * 128 ^ k → len_loop k (x / 128) len ≡ len + length (put_loop k x) - 1
unfolding len_loop put_loop
put_loop-length zero x len h = omega arith
put_loop-length (suc k) x len h = elim (Bool-cases (ltb x 128)) [
  | inl last ↦ rw last (ground arith)
  | inr more ↦ rw more (ground (arith, put_loop-length k (x / 128) (len + 1) (group_shrinks k x h)))
]

length-put_uvarint : (x : ℕ) → IsU64 x → length (put_uvarint x) ≡ uvarint_len x
unfolding put_uvarint uvarint_len
length-put_uvarint x h = omega (arith, put_loop-length 9 x 1 (omega arith))

-- `appendUvarint` adds as many bytes for a uint64 as `uvarintLen` says.
pub length-append_uvarint :
    (bytes : Bytes) (x : ℕ)
    → IsU64 x
    → length (append_uvarint bytes x) ≡ length bytes + uvarint_len x
unfolding append_uvarint
length-append_uvarint bytes x h =
    omega (arith, length-append bytes (put_uvarint x), length-put_uvarint x h)

pow_pos : (k : ℕ) → 1 ≤ 128 ^ k
pow_pos zero = omega arith
pow_pos (suc k) = omega (arith, pow-suc 128 k, pow_pos k)

put_loop-length_full : (k x : ℕ) → 128 ^ k ≤ x → length (put_loop k x) ≡ suc k
unfolding put_loop
put_loop-length_full zero x h = refl
put_loop-length_full (suc k) x h =
    let less : 128 ^ k ≤ x / 128 = omega (arith, pow-suc 128 k) in
    let big : ltb x 128 ≡ false = ground (arith, pow-suc 128 k, pow_pos k) in
    rw big (ap suc (put_loop-length_full k (x / 128) less))

-- The largest uint64s take ten bytes.
pub length-put_uvarint_ten : (x : ℕ) → IsU64 x → 2 ^ 64 - 10 ≤ x → length (put_uvarint x) ≡ 10
unfolding put_uvarint
length-put_uvarint_ten x h near = put_loop-length_full 9 x (omega arith)
