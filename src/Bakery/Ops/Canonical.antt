-- ===== src/Bakery/Ops/Canonical.antt =====
-- `CanonicalOps` of bakery/oven.go against the set of operations.
use macaroon_bakery.Prelude.{
  ◌≡◌, ◌∙◌, sym, refl, ap, true, false, ◌||◌, List, [], ◌∷◌, if◌then◌else◌, ◌==◌, Bool-cases, inl,
  inr, arith, All,
}
use macaroon_bakery.Auth.{Op, op_eq, op_beq, op_beq_iff}
use macaroon_bakery.Bakery.Ops.{
  op_less, is_canonical, insert_op, sort_ops, drop_repeated, drop_repeats, canonical_ops, has_op,
}
use macaroon_bakery.Bakery.Ops.Order.{op_less-eq, op_less-asymm, op_less_trans}

-- All operations are above `a`, or not below it.
abbrev pub IsAbove : Op → List Op → Type 0
IsAbove a = All (λ b. op_less a b ≡ true)

abbrev IsNotBelow : Op → List Op → Type 0
IsNotBelow a = All (λ b. op_less b a ≡ false)

abbrev pub IsAscending : List Op → Type 0
IsAscending [] = Unit
IsAscending (a ∷ ops) = IsAbove a ops × IsAscending ops

abbrev IsSorted : List Op → Type 0
IsSorted [] = Unit
IsSorted (a ∷ ops) = IsNotBelow a ops × IsSorted ops

IsAbove-trans : (a b : Op) (ops : List Op) → op_less a b ≡ true → IsAbove b ops → IsAbove a ops
IsAbove-trans a b [] h k = tt
IsAbove-trans a b (c ∷ ops) h (k, ks) = (op_less_trans a b c h k, IsAbove-trans a b ops h ks)

not_below_trans : (a b c : Op) → op_less b a ≡ false → op_less c b ≡ false → op_less c a ≡ false
not_below_trans a b c h k = elim (Bool-cases (op_less c a)) [
  | inr done ↦ done
  | inl ca ↦ elim (Bool-cases (op_less a b)) [
    | inl ab ↦ absurd (ground (arith, op_less_trans c a b ca ab))
    | inr ab ↦ let e : a ≡ b = op_less-eq a b ab h in sym (ap (λ x. op_less c x) (sym e)) ∙ k
  ]
]

IsNotBelow-trans :
    (a b : Op) (ops : List Op) → op_less b a ≡ false → IsNotBelow b ops → IsNotBelow a ops
IsNotBelow-trans a b [] h k = tt
IsNotBelow-trans a b (c ∷ ops) h (k, ks) =
    (not_below_trans a b c h k, IsNotBelow-trans a b ops h ks)

insert_op-IsNotBelow :
    (a b : Op) (ops : List Op)
    → op_less b a ≡ false
    → IsNotBelow a ops
    → IsNotBelow a (insert_op b ops)
unfolding insert_op
insert_op-IsNotBelow a b [] h k = (h, tt)
insert_op-IsNotBelow a b (c ∷ ops) h (k, ks) =
    elim (op_less c b) as (λ t. IsNotBelow a (if t then c ∷ insert_op b ops else b ∷ c ∷ ops)) [
      | true ↦ (k, insert_op-IsNotBelow a b ops h ks)
      | false ↦ (h, (k, ks))
    ]

insert_op-IsSorted : (a : Op) (ops : List Op) → IsSorted ops → IsSorted (insert_op a ops)
unfolding insert_op
insert_op-IsSorted a [] h = (tt, tt)
insert_op-IsSorted a (b ∷ ops) (low, h) = elim (Bool-cases (op_less b a)) [
  | inl up ↦
      rw up (insert_op-IsNotBelow b a ops (op_less-asymm b a up) low, insert_op-IsSorted a ops h)
  | inr down ↦ rw down ((down, IsNotBelow-trans a b ops down low), (low, h))
]

sort_ops-IsSorted : (ops : List Op) → IsSorted (sort_ops ops)
unfolding sort_ops
sort_ops-IsSorted [] = tt
sort_ops-IsSorted (a ∷ ops) = insert_op-IsSorted a (sort_ops ops) (sort_ops-IsSorted ops)

has_op-insert_op :
    (a x : Op) (ops : List Op) → has_op (insert_op a ops) x ≡ (a == x || has_op ops x)
unfolding has_op insert_op
has_op-insert_op a x [] = refl
has_op-insert_op a x (b ∷ ops) = ground (arith, has_op-insert_op a x ops)

has_op-sort_ops : (ops : List Op) (x : Op) → has_op (sort_ops ops) x ≡ has_op ops x
unfolding has_op sort_ops
has_op-sort_ops [] x = refl
has_op-sort_ops (a ∷ ops) x =
    has_op-insert_op a x (sort_ops ops) ∙ ap (λ t. a == x || t) (has_op-sort_ops ops x)

-- Sorted operations ascend when the repeated ones are dropped.
drop_repeated-ascends :
    (kept : Op) (ops : List Op)
    → IsNotBelow kept ops
    → IsSorted ops
    → IsAbove kept (drop_repeated kept ops) × IsAscending (drop_repeated kept ops)
unfolding drop_repeated
drop_repeated-ascends kept [] low sorted = (tt, tt)
drop_repeated-ascends kept (op ∷ ops) (l, low) (lows, sorted) = elim (Bool-cases (op == kept)) [
  | inl same ↦ rw same (drop_repeated-ascends kept ops low sorted)
  | inr other ↦
      let (above, ascends) = drop_repeated-ascends op ops lows sorted in
      let up : op_less kept op ≡ true = elim (Bool-cases (op_less kept op)) [
        | inl up ↦ up
        | inr no_up ↦
            let e : op ≡ kept = op_less-eq op kept l no_up in
            absurd (ground (arith, (op_beq_iff op kept).1 e))
      ] in
      rw other ((up, IsAbove-trans kept op (drop_repeated op ops) up above), (above, ascends))
]

drop_repeats-IsAscending : (ops : List Op) → IsSorted ops → IsAscending (drop_repeats ops)
unfolding drop_repeats
drop_repeats-IsAscending [] h = tt
drop_repeats-IsAscending (op ∷ ops) (low, h) = drop_repeated-ascends op ops low h

has_op-drop_repeated :
    (kept x : Op) (ops : List Op)
    → (kept == x || has_op (drop_repeated kept ops) x) ≡ (kept == x || has_op ops x)
unfolding has_op drop_repeated
has_op-drop_repeated kept x [] = refl
has_op-drop_repeated kept x (op ∷ ops) = elim (Bool-cases (op == kept)) [
  | inl same ↦
      let e : op ≡ kept = (op_beq_iff op kept).0 same in
      let f : op_beq op x ≡ op_beq kept x = ap (λ o. op_beq o x) e in
      ground (arith, has_op-drop_repeated kept x ops)
  | inr other ↦ ground (arith, has_op-drop_repeated op x ops)
]

has_op-drop_repeats : (ops : List Op) (x : Op) → has_op (drop_repeats ops) x ≡ has_op ops x
unfolding has_op drop_repeats
has_op-drop_repeats [] x = refl
has_op-drop_repeats (op ∷ ops) x = has_op-drop_repeated op x ops

is_canonical-IsAscending : (ops : List Op) → is_canonical ops ≡ true → IsAscending ops
unfolding is_canonical
is_canonical-IsAscending [] h = tt
is_canonical-IsAscending (a ∷ []) h = (tt, tt)
is_canonical-IsAscending (a ∷ b ∷ ops) h =
    let (above, ascends) = is_canonical-IsAscending (b ∷ ops) (ground arith) in
    let up : op_less a b ≡ true = ground arith in
    ((up, IsAbove-trans a b ops up above), (above, ascends))

IsAscending-is_canonical : (ops : List Op) → IsAscending ops → is_canonical ops ≡ true
unfolding is_canonical
IsAscending-is_canonical [] h = refl
IsAscending-is_canonical (a ∷ []) h = refl
IsAscending-is_canonical (a ∷ b ∷ ops) ((up, above), h) =
    ground (arith, IsAscending-is_canonical (b ∷ ops) h)

pub canonical_ops-IsAscending : (ops : List Op) → IsAscending (canonical_ops ops)
unfolding canonical_ops
canonical_ops-IsAscending ops = elim (Bool-cases (is_canonical ops)) [
  | inl already ↦ rw already (is_canonical-IsAscending ops already)
  | inr mixed ↦ rw mixed (drop_repeats-IsAscending (sort_ops ops) (sort_ops-IsSorted ops))
]

pub has_op-canonical_ops : (ops : List Op) (x : Op) → has_op (canonical_ops ops) x ≡ has_op ops x
unfolding canonical_ops
has_op-canonical_ops ops x = elim (Bool-cases (is_canonical ops)) [
  | inl already ↦ rw already refl
  | inr mixed ↦ rw mixed (has_op-drop_repeats (sort_ops ops) x ∙ has_op-sort_ops ops x)
]

pub is_canonical-canonical_ops : (ops : List Op) → is_canonical (canonical_ops ops) ≡ true
is_canonical-canonical_ops ops =
    IsAscending-is_canonical (canonical_ops ops) (canonical_ops-IsAscending ops)
