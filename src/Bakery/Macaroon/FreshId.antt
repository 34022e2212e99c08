-- ===== src/Bakery/Macaroon/FreshId.antt =====
-- The loop of `newCaveatId` ends, with an id that no third party caveat has: bakery/macaroon.go.
use mathlib.Core.List.{append_cancel_left}
use macaroon_bakery.Prelude.{
  Bytes, ℕ, zero, suc, ◌+◌, ◌%◌, ◌^◌, ◌≤◌, ◌<◌, ◌≡◌, ◌≢◌, refl, sym, ap, ◌∙◌, Bool, true, false,
  Option, none, some, List, [], ◌∷◌, ◌++◌, arith, if◌then◌else◌, ◌==◌, bytes_eq, bytes_beq_iff,
  length, Bool-cases, inl, inr,
}
use macaroon_bakery.Prelude.Sort.{contains}
use macaroon_bakery.Checkers.Macaroons.{MacaroonCaveat}
use macaroon_bakery.Bakery.Uvarint.{IsU64, append_uvarint, put_uvarint, uvarint}
use macaroon_bakery.Bakery.Uvarint.Laws.{uvarint-put_uvarint}
use macaroon_bakery.Bakery.Macaroon.{
  MacaroonLib, Macaroon, third_party_ids, is_used, find_id, id_base, new_caveat_id,
}

is_used-contains :
    (id : Bytes) (cavs : List MacaroonCaveat) → is_used id cavs ≡ contains (third_party_ids cavs) id
unfolding is_used contains third_party_ids
is_used-contains id [] = refl
is_used-contains id (cav ∷ cavs) = ground (arith, is_used-contains id cavs)

length-third_party_ids : (cavs : List MacaroonCaveat) → length (third_party_ids cavs) ≤ length cavs
unfolding third_party_ids
length-third_party_ids [] = omega arith
length-third_party_ids (cav ∷ cavs) = ground (arith, length-third_party_ids cavs)

remove : Bytes → List Bytes → List Bytes
remove a [] = []
remove a (b ∷ l) = let rest = remove a l in if b == a then rest else b ∷ rest

length-remove-le : (a : Bytes) (l : List Bytes) → length (remove a l) ≤ length l
unfolding remove
length-remove-le a [] = omega arith
length-remove-le a (b ∷ l) = ground (arith, length-remove-le a l)

length-remove : (a : Bytes) (l : List Bytes) → contains l a ≡ true → length (remove a l) < length l
unfolding remove contains
length-remove a [] h = absurd (cc)
length-remove a (b ∷ l) h = ground (arith, length-remove a l, length-remove-le a l)

contains-remove : (a k : Bytes) (l : List Bytes) → a ≢ k → contains (remove a l) k ≡ contains l k
unfolding remove contains
contains-remove a k [] ne = refl
contains-remove a k (b ∷ l) ne =
    ground (arith, contains-remove a k l, bytes_beq_iff b a, bytes_beq_iff b k)

put_uvarint-injective : (i j : ℕ) → IsU64 i → IsU64 j → put_uvarint i ≡ put_uvarint j → i ≡ j
put_uvarint-injective i j hi hj e = ground (
  arith,
  ap (λ (s : Bytes). uvarint (s ++ [])) e,
  uvarint-put_uvarint i [],
  uvarint-put_uvarint j [],
)

append_uvarint-injective :
    (id : Bytes) (i j : ℕ) → IsU64 i → IsU64 j → append_uvarint id i ≡ append_uvarint id j → i ≡ j
unfolding append_uvarint
append_uvarint-injective id i j hi hj e =
    put_uvarint-injective i j hi hj (append_cancel_left id (put_uvarint i) (put_uvarint j) e)

-- The loop over the ids that are in use.
find_unused : ℕ → Bytes → ℕ → List Bytes → Option Bytes
find_unused zero id i used = none
find_unused (suc n) id i used =
    let id1 = append_uvarint id (i % 2 ^ 64) in
    let rest = find_unused n id (i + 1) used in if contains used id1 then rest else some id1

find_id-find_unused :
    (n : ℕ) (id : Bytes) (i : ℕ) (cavs : List MacaroonCaveat)
    → find_id n id i cavs ≡ find_unused n id i (third_party_ids cavs)
unfolding find_id find_unused
find_id-find_unused zero id i cavs = refl
find_id-find_unused (suc n) id i cavs =
    rw (
      is_used-contains (append_uvarint id (i % 2 ^ 64)) cavs,
      find_id-find_unused n id (i + 1) cavs,
    )

-- An id of an earlier round does not matter.
find_unused-remove :
    (n : ℕ) (id : Bytes) (k i : ℕ) (used : List Bytes)
    → k < i
    → i + n ≤ 2 ^ 64
    → find_unused n id i (remove (append_uvarint id k) used) ≡ find_unused n id i used
unfolding find_unused
find_unused-remove zero id k i used lt h = refl
find_unused-remove (suc n) id k i used lt h =
    let small : i % 2 ^ 64 ≡ i = omega arith in
    let other : append_uvarint id k ≢ append_uvarint id (i % 2 ^ 64) = λ e.
      omega (arith, append_uvarint-injective id k (i % 2 ^ 64) (omega arith) (omega arith) e) in
    rw (
      contains-remove (append_uvarint id k) (append_uvarint id (i % 2 ^ 64)) used other,
      find_unused-remove n id k (i + 1) used (omega arith) (omega arith),
    )

find_unused_step :
    (n : ℕ) (id : Bytes) (i : ℕ) (used : List Bytes) (b : Bool)
    → i < 2 ^ 64
    → contains used (append_uvarint id i) ≡ b
    → find_unused (suc n) id i used
      ≡ (if b then find_unused n id (i + 1) used else some (append_uvarint id i))
unfolding find_unused
find_unused_step n id i used b lt h = let small : i % 2 ^ 64 ≡ i = omega arith in rw (small, h)

-- A number from `i` on whose id is the answer and is not in use.
IsFound : ℕ → Bytes → ℕ → List Bytes → Type 0
IsFound n id i used =
    (j : ℕ) × (i ≤ j)
    × (j < 2 ^ 64)
    × (find_unused n id i used ≡ some (append_uvarint id j))
    × (contains used (append_uvarint id j) ≡ false)

find_unused-IsFound :
    (n : ℕ) (id : Bytes) (i : ℕ) (used : List Bytes)
    → length used < n
    → i + n ≤ 2 ^ 64
    → IsFound n id i used
unfolding IsFound
find_unused-IsFound zero id i used few h = absurd (omega arith)
find_unused-IsFound (suc n) id i used few h =
    let id1 = append_uvarint id i in
    elim (Bool-cases (contains used id1)) [
      | inl taken ↦
          let (j, le, lt, found, free) =
            find_unused-IsFound n id (i + 1) (remove id1 used)
              (omega (arith, length-remove id1 used taken)) (omega arith) in
          let other : id1 ≢ append_uvarint id j =
            λ e. omega (arith, append_uvarint-injective id i j (omega arith) lt e) in
          (
            j,
            omega arith,
            lt,
            find_unused_step n id i used true (omega arith) taken
                ∙ sym (find_unused-remove n id i (i + 1) used (omega arith) (omega arith))
                ∙ found,
            sym (contains-remove id1 (append_uvarint id j) used other) ∙ free,
          )
      | inr free ↦
          (i, omega arith, omega arith, find_unused_step n id i used false (omega arith) free, free)
    ]

-- The loop of `newCaveatId` ends within one round more than the macaroon has caveats, with an id
-- that extends the base by a number and that no third party caveat of the macaroon has, as long
-- as the numbers tried fit uint64.
pub new_caveat_id-fresh :
    {M : Type 0} (lib : MacaroonLib M) (mac : Macaroon M) (base : Bytes)
    → length mac.caveat_data + suc (length (lib.caveats_of mac.m)) ≤ 2 ^ 64
    → (j : ℕ) × (new_caveat_id lib mac base ≡ some (append_uvarint (id_base base) j))
      × (contains (third_party_ids (lib.caveats_of mac.m)) (append_uvarint (id_base base) j)
          ≡ false)
unfolding new_caveat_id IsFound
new_caveat_id-fresh lib mac base h =
    let cavs = lib.caveats_of mac.m in
    let n = suc (length cavs) in
    let (j, le, lt, found, free) =
      find_unused-IsFound n (id_base base) (length mac.caveat_data) (third_party_ids cavs)
        (omega (arith, length-third_party_ids cavs)) h in
    (j, find_id-find_unused n (id_base base) (length mac.caveat_data) cavs ∙ found, free)
