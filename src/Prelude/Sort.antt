-- ===== src/Prelude/Sort.antt =====
-- `sort.Strings`: byte strings in the order of Go's `<`. A sort of distinct strings is determined by
-- which strings it holds, so an insertion sort stands for the library's.
use mathlib.Core.Bool.{Bool, true, false, ◌&&◌, ◌||◌}
use mathlib.Core.List.{List, [], ◌∷◌, ◌++◌}
use mathlib.Core.Logic.{inl, inr}
use mathlib.Core.Path.{◌≡◌, refl, sym, ◌∙◌, ap}
use native.Mathlib.Omega.{arith}
use macaroon_bakery.Prelude.Tests.{
  Bytes, ◌==◌, ltb, nat_beq, if◌then◌else◌, Bool-cases, bytes_beq_iff, bytes_eq, beq_refl,
}
use macaroon_bakery.Prelude.Lists.{All}

-- Go's `a <= b` on strings.
unfoldable pub bytes_le : Bytes → Bytes → Bool
bytes_le [] b = true
bytes_le (x ∷ a) [] = false
bytes_le (x ∷ a) (y ∷ b) = ltb x y || (nat_beq x y && bytes_le a b)

pub bytes_le_total : (a b : Bytes) → bytes_le a b ≡ false → bytes_le b a ≡ true
unfolding bytes_le
bytes_le_total [] b h = cc
bytes_le_total (x ∷ a) [] h = refl
bytes_le_total (x ∷ a) (y ∷ b) h = ground (arith, bytes_le_total a b)

pub bytes_le_antisymm : (a b : Bytes) → bytes_le a b ≡ true → bytes_le b a ≡ true → a ≡ b
unfolding bytes_le
bytes_le_antisymm [] [] h k = refl
bytes_le_antisymm [] (y ∷ b) h k = cc
bytes_le_antisymm (x ∷ a) [] h k = cc
bytes_le_antisymm (x ∷ a) (y ∷ b) h k = ground (arith, bytes_le_antisymm a b)

pub bytes_le_trans :
    (a b c : Bytes) → bytes_le a b ≡ true → bytes_le b c ≡ true → bytes_le a c ≡ true
unfolding bytes_le
bytes_le_trans [] b c h k = refl
bytes_le_trans (x ∷ a) [] c h k = cc
bytes_le_trans (x ∷ a) (y ∷ b) [] h k = cc
bytes_le_trans (x ∷ a) (y ∷ b) (z ∷ c) h k = ground (arith, bytes_le_trans a b c)

unfoldable pub insert_sorted : Bytes → List Bytes → List Bytes
insert_sorted a [] = a ∷ []
insert_sorted a (b ∷ l) =
    let later = insert_sorted a l in if bytes_le a b then a ∷ b ∷ l else b ∷ later

unfoldable pub sort_strings : List Bytes → List Bytes
unfolding insert_sorted bytes_le
sort_strings [] = []
sort_strings (a ∷ l) = insert_sorted a (sort_strings l)

unfoldable pub contains : List Bytes → Bytes → Bool
contains [] k = false
contains (a ∷ l) k = a == k || contains l k

pub contains-insert_sorted :
    (a k : Bytes) (l : List Bytes) → contains (insert_sorted a l) k ≡ (a == k || contains l k)
unfolding contains insert_sorted
contains-insert_sorted a k [] = refl
contains-insert_sorted a k (b ∷ l) = ground (arith, contains-insert_sorted a k l)

-- A sort holds what the list holds.
pub contains-sort_strings :
    (l : List Bytes) (k : Bytes) → contains (sort_strings l) k ≡ contains l k
unfolding sort_strings contains
contains-sort_strings [] k = refl
contains-sort_strings (a ∷ l) k =
    contains-insert_sorted a k (sort_strings l) ∙ ap (λ b. a == k || b) (contains-sort_strings l k)

-- Each string stands once.
abbrev pub IsDistinct : List Bytes → Type 0
IsDistinct [] = Unit
IsDistinct (a ∷ l) = (contains l a ≡ false) × IsDistinct l

-- No element is below `a`.
abbrev pub IsBelow : Bytes → List Bytes → Type 0
IsBelow a = All (λ b. bytes_le a b ≡ true)

abbrev pub IsSorted : List Bytes → Type 0
IsSorted [] = Unit
IsSorted (a ∷ l) = IsBelow a l × IsSorted l

IsBelow-trans : (a b : Bytes) (l : List Bytes) → bytes_le a b ≡ true → IsBelow b l → IsBelow a l
IsBelow-trans a b [] h k = tt
IsBelow-trans a b (c ∷ l) h (k, ks) = (bytes_le_trans a b c h k, IsBelow-trans a b l h ks)

insert_sorted-IsBelow :
    (a b : Bytes) (l : List Bytes)
    → bytes_le a b ≡ true
    → IsBelow a l
    → IsBelow a (insert_sorted b l)
unfolding insert_sorted
insert_sorted-IsBelow a b [] h k = (h, tt)
insert_sorted-IsBelow a b (c ∷ l) h (k, ks) =
    elim (bytes_le b c) as (λ t. IsBelow a (if t then b ∷ c ∷ l else c ∷ insert_sorted b l)) [
      | true ↦ (h, (k, ks))
      | false ↦ (k, insert_sorted-IsBelow a b l h ks)
    ]

insert_sorted-IsSorted : (a : Bytes) (l : List Bytes) → IsSorted l → IsSorted (insert_sorted a l)
unfolding insert_sorted
insert_sorted-IsSorted a [] h = (tt, tt)
insert_sorted-IsSorted a (b ∷ l) (below, h) = elim (Bool-cases (bytes_le a b)) [
  | inl le ↦ rw le ((le, IsBelow-trans a b l le below), (below, h))
  | inr gt ↦
      rw gt
        (insert_sorted-IsBelow b a l (bytes_le_total a b gt) below, insert_sorted-IsSorted a l h)
]

pub sort_strings-IsSorted : (l : List Bytes) → IsSorted (sort_strings l)
unfolding sort_strings
sort_strings-IsSorted [] = tt
sort_strings-IsSorted (a ∷ l) = insert_sorted-IsSorted a _ (sort_strings-IsSorted l)

insert_sorted-IsDistinct :
    (a : Bytes) (l : List Bytes)
    → contains l a ≡ false
    → IsDistinct l
    → IsDistinct (insert_sorted a l)
unfolding insert_sorted contains
insert_sorted-IsDistinct a [] h k = (refl, tt)
insert_sorted-IsDistinct a (b ∷ l) h (k, ks) =
    elim (bytes_le a b) as (λ t. IsDistinct (if t then a ∷ b ∷ l else b ∷ insert_sorted a l)) [
      | true ↦ (h, (k, ks))
      | false ↦ (
        ground (arith, contains-insert_sorted a b l, bytes_beq_iff a b, bytes_beq_iff b a),
        insert_sorted-IsDistinct a l (ground arith) ks,
      )
    ]

pub sort_strings-IsDistinct : (l : List Bytes) → IsDistinct l → IsDistinct (sort_strings l)
unfolding sort_strings
sort_strings-IsDistinct [] h = tt
sort_strings-IsDistinct (a ∷ l) (new, h) =
    insert_sorted-IsDistinct a (sort_strings l) (contains-sort_strings l a ∙ new)
      (sort_strings-IsDistinct l h)

contains-IsBelow :
    (a k : Bytes) (l : List Bytes) → IsBelow a l → contains l k ≡ true → bytes_le a k ≡ true
unfolding contains
contains-IsBelow a k [] h c = cc
contains-IsBelow a k (b ∷ l) (h, hs) c =
    ground (arith, contains-IsBelow a k l hs, bytes_beq_iff b k)

bytes_le_refl : (a : Bytes) → bytes_le a a ≡ true
bytes_le_refl a = elim (Bool-cases (bytes_le a a)) [ inl le ↦ le | inr gt ↦ bytes_le_total a a gt ]

head_le :
    (a b : Bytes) (m : List Bytes) → IsBelow b m → contains (b ∷ m) a ≡ true → bytes_le b a ≡ true
head_le a b m h c = contains-IsBelow b a (b ∷ m) (bytes_le_refl b, h) c

same_tail :
    (a k : Bytes) (l m : List Bytes)
    → contains l a ≡ false
    → contains m a ≡ false
    → contains (a ∷ l) k ≡ contains (a ∷ m) k
    → contains l k ≡ contains m k
unfolding contains
same_tail a k l m fl fm h = elim (Bool-cases (a == k)) [
  | inl same ↦ let e : a ≡ k = (bytes_beq_iff a k).0 same in rw (← e) (fl ∙ sym fm)
  | inr other ↦ ground arith
]

-- Sorted lists of distinct strings that hold the same strings are equal.
pub sorted_unique :
    (l m : List Bytes)
    → IsSorted l
    → IsDistinct l
    → IsSorted m
    → IsDistinct m
    → ((k : Bytes) → contains l k ≡ contains m k)
    → l ≡ m
unfolding contains
sorted_unique [] [] sl dl sm dm h = refl
sorted_unique [] (b ∷ m) sl dl sm dm h = ground (arith, h b, beq_refl b)
sorted_unique (a ∷ l) [] sl dl sm dm h = ground (arith, h a, beq_refl a)
sorted_unique (a ∷ l) (b ∷ m) (ba, sl) (fa, dl) (bb, sm) (fb, dm) h =
    let up : bytes_le b a ≡ true = head_le a b m bb (ground (arith, h a, beq_refl a)) in
    let down : bytes_le a b ≡ true = head_le b a l ba (ground (arith, h b, beq_refl b)) in
    let e : b ≡ a = bytes_le_antisymm b a up down in
    let fm : contains m a ≡ false = rw e at fb in
    let step : (k : Bytes) → contains (a ∷ l) k ≡ contains (a ∷ m) k =
      λ k. h k ∙ ap (λ x. contains (x ∷ m) k) e in
    cc (e, sorted_unique l m sl dl sm dm (λ k. same_tail a k l m fa fm (step k)))

pub contains-append :
    (l m : List Bytes) (k : Bytes) → contains (l ++ m) k ≡ (contains l k || contains m k)
unfolding contains
contains-append [] m k = refl
contains-append (a ∷ l) m k = ground (arith, contains-append l m k)
