-- ===== src/Bakery/Ops/Unique.antt =====
-- `CanonicalOps` of bakery/oven.go: the slice that it gives depends on the set of operations alone.
use macaroon_bakery.Prelude.{
  ◌≡◌, ◌∙◌, sym, refl, ap, ◌↔◌, true, false, List, [], ◌∷◌, beq_refl, Bool-cases, inl, inr, arith,
}
use macaroon_bakery.Auth.{Op, op_eq, op_beq, op_beq_iff}
use macaroon_bakery.Bakery.Ops.{op_less, canonical_ops, has_op}
use macaroon_bakery.Bakery.Ops.Order.{op_less-asymm, op_less_irrefl}
use macaroon_bakery.Bakery.Ops.Canonical.{
  IsAbove, IsAscending, canonical_ops-IsAscending, has_op-canonical_ops,
}

above-less : (a x : Op) (ops : List Op) → IsAbove a ops → has_op ops x ≡ true → op_less a x ≡ true
unfolding has_op
above-less a x [] above h = absurd (cc)
above-less a x (b ∷ ops) (up, above) h = elim (Bool-cases (op_beq b x)) [
  | inl same ↦ let e : b ≡ x = (op_beq_iff b x).0 same in ap (λ o. op_less a o) (sym e) ∙ up
  | inr other ↦ above-less a x ops above (ground arith)
]

above-fresh : (a : Op) (ops : List Op) → IsAbove a ops → has_op ops a ≡ false
above-fresh a ops above = elim (Bool-cases (has_op ops a)) [
  | inl held ↦ absurd (op_less_irrefl a a (above-less a a ops above held) refl)
  | inr fresh ↦ fresh
]

-- The least operations of ascending operations that hold the same ones are equal.
same_head :
    (a b : Op) (l m : List Op)
    → IsAbove a l
    → IsAbove b m
    → ((x : Op) → has_op (a ∷ l) x ≡ has_op (b ∷ m) x)
    → a ≡ b
unfolding has_op
same_head a b l m above_a above_b h = elim (Bool-cases (op_beq b a)) [
  | inl same ↦ sym ((op_beq_iff b a).0 same)
  | inr other ↦
      let in_m : has_op m a ≡ true = ground (arith, h a, beq_refl a) in
      let down : op_less b a ≡ true = above-less b a m above_b in_m in
      let other' : op_beq a b ≡ false = ground (arith, op_beq_iff a b, op_beq_iff b a) in
      let in_l : has_op l b ≡ true = ground (arith, h b, beq_refl b) in
      absurd (ground (arith, op_less-asymm b a down, above-less a b l above_a in_l))
]

same_tail :
    (a x : Op) (l m : List Op)
    → has_op l a ≡ false
    → has_op m a ≡ false
    → has_op (a ∷ l) x ≡ has_op (a ∷ m) x
    → has_op l x ≡ has_op m x
unfolding has_op
same_tail a x l m fl fm h = elim (Bool-cases (op_beq a x)) [
  | inl same ↦ let e : a ≡ x = (op_beq_iff a x).0 same in rw (← e) (fl ∙ sym fm)
  | inr other ↦ ground arith
]

ascending_unique :
    (l m : List Op) → IsAscending l → IsAscending m → ((x : Op) → has_op l x ≡ has_op m x) → l ≡ m
ascending_unique [] [] hl hm h = refl
ascending_unique [] (b ∷ m) hl hm h = absurd (unfold has_op in ground (arith, h b, beq_refl b))
ascending_unique (a ∷ l) [] hl hm h = absurd (unfold has_op in ground (arith, h a, beq_refl a))
ascending_unique (a ∷ l) (b ∷ m) (above_a, hl) (above_b, hm) h =
    let e : a ≡ b = same_head a b l m above_a above_b h in
    let fm : has_op m a ≡ false = ap (λ o. has_op m o) e ∙ above-fresh b m above_b in
    let same : (x : Op) → has_op (a ∷ l) x ≡ has_op (a ∷ m) x =
      λ x. h x ∙ ap (λ o. has_op (o ∷ m) x) (sym e) in
    cc
      (e, ascending_unique l m hl hm (λ x. same_tail a x l m (above-fresh a l above_a) fm (same x)))

-- Two slices of operations have the same canonical form exactly where they hold the same
-- operations, in whatever order and however often.
pub canonical_ops-eq_iff :
    (ops ops' : List Op)
    → (canonical_ops ops ≡ canonical_ops ops') ↔ ((x : Op) → has_op ops x ≡ has_op ops' x)
canonical_ops-eq_iff ops ops' = (
  λ e x. sym (has_op-canonical_ops ops x) ∙ ap (λ l. has_op l x) e ∙ has_op-canonical_ops ops' x,
  λ h.
      ascending_unique (canonical_ops ops) (canonical_ops ops') (canonical_ops-IsAscending ops)
        (canonical_ops-IsAscending ops')
        (λ x. has_op-canonical_ops ops x ∙ h x ∙ sym (has_op-canonical_ops ops' x)),
)
