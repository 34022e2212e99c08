-- ===== src/Bakery/Ops/Order.antt =====
-- The order of operations: `opsByValue.Less` of bakery/oven.go.
use macaroon_bakery.Prelude.{
  Bytes, ◌≡◌, ◌∙◌, sym, ap, true, false, bytes_eq, bytes_beq, bytes_beq_iff, Bool-cases, inl, inr,
  arith,
}
use macaroon_bakery.Prelude.Sort.{bytes_le, bytes_le_total, bytes_le_antisymm, bytes_le_trans}
use macaroon_bakery.Auth.{Op, op_eq, op_beq_iff}
use macaroon_bakery.Bakery.Ops.{bytes_less, op_less}

bytes_less_trans :
    (a b c : Bytes) → bytes_less a b ≡ true → bytes_less b c ≡ true → bytes_less a c ≡ true
unfolding bytes_less
bytes_less_trans a b c h k =
    let up : bytes_le b c ≡ true = bytes_le_total c b (ground arith) in
    elim (Bool-cases (bytes_le c a)) [
      | inl le ↦ absurd (ground (arith, bytes_le_trans b c a up le))
      | inr gt ↦ ground arith
    ]

bytes_less-eq : (a b : Bytes) → bytes_less a b ≡ false → bytes_less b a ≡ false → a ≡ b
unfolding bytes_less
bytes_less-eq a b h k = bytes_le_antisymm a b (ground arith) (ground arith)

bytes_less-asymm : (a b : Bytes) → bytes_less a b ≡ true → bytes_less b a ≡ false
unfolding bytes_less
bytes_less-asymm a b h = ground (arith, bytes_le_total b a)

-- An order of operations with one entity is that of their actions, else that of their entities.
same_entity : (a b : Op) → a.entity ≡ b.entity → op_less a b ≡ bytes_less a.action b.action
unfolding op_less
same_entity a b h = ground (arith, bytes_beq_iff a.entity b.entity)

other_entity :
    (a b : Op) → bytes_beq a.entity b.entity ≡ false → op_less a b ≡ bytes_less a.entity b.entity
unfolding op_less
other_entity a b h = ground arith

beq-sym-false : (a b : Bytes) → bytes_beq a b ≡ false → bytes_beq b a ≡ false
beq-sym-false a b h = ground (arith, bytes_beq_iff a b, bytes_beq_iff b a)

pub op_less-eq : (a b : Op) → op_less a b ≡ false → op_less b a ≡ false → a ≡ b
op_less-eq a b h k = elim (Bool-cases (bytes_beq a.entity b.entity)) [
  | inl same ↦
      let e : a.entity ≡ b.entity = (bytes_beq_iff a.entity b.entity).0 same in
      let f : a.action ≡ b.action =
        bytes_less-eq a.action b.action (sym (same_entity a b e) ∙ h)
          (sym (same_entity b a (sym e)) ∙ k) in
      (op_beq_iff a b).0 (ground (arith, bytes_beq_iff a.action b.action))
  | inr other ↦
      let e : a.entity ≡ b.entity =
        bytes_less-eq a.entity b.entity (sym (other_entity a b other) ∙ h)
          (sym (other_entity b a (beq-sym-false a.entity b.entity other)) ∙ k) in
      absurd (ground (arith, bytes_beq_iff a.entity b.entity))
]

pub op_less-asymm : (a b : Op) → op_less a b ≡ true → op_less b a ≡ false
op_less-asymm a b h = elim (Bool-cases (bytes_beq a.entity b.entity)) [
  | inl same ↦
      let e : a.entity ≡ b.entity = (bytes_beq_iff a.entity b.entity).0 same in
      same_entity b a (sym e) ∙ bytes_less-asymm a.action b.action (sym (same_entity a b e) ∙ h)
  | inr other ↦
      other_entity b a (beq-sym-false a.entity b.entity other)
      ∙ bytes_less-asymm a.entity b.entity (sym (other_entity a b other) ∙ h)
]

bytes_less_irrefl : (a : Bytes) → bytes_less a a ≡ true → ⊥
bytes_less_irrefl a h = absurd (ground (arith, bytes_less-asymm a a h))

less-other : (a b : Bytes) → bytes_less a b ≡ true → bytes_beq a b ≡ false
less-other a b h = elim (Bool-cases (bytes_beq a b)) [
  | inl same ↦
      let e : a ≡ b = (bytes_beq_iff a b).0 same in absurd (bytes_less_irrefl b (rw e at h))
  | inr other ↦ other
]

-- The entities of operations in order are in order or equal.
pub op_less_trans : (a b c : Op) → op_less a b ≡ true → op_less b c ≡ true → op_less a c ≡ true
op_less_trans a b c h k = elim (Bool-cases (bytes_beq a.entity b.entity)) [
  | inl ab ↦
      let e : a.entity ≡ b.entity = (bytes_beq_iff a.entity b.entity).0 ab in
      elim (Bool-cases (bytes_beq b.entity c.entity)) [
        | inl bc ↦
            let f : b.entity ≡ c.entity = (bytes_beq_iff b.entity c.entity).0 bc in
            same_entity a c (e ∙ f)
            ∙ bytes_less_trans a.action b.action c.action (sym (same_entity a b e) ∙ h)
                (sym (same_entity b c f) ∙ k)
        | inr bc ↦
            other_entity a c (ap (λ x. bytes_beq x c.entity) e ∙ bc)
            ∙ ap (λ x. bytes_less x c.entity) e
            ∙ sym (other_entity b c bc)
            ∙ k
      ]
  | inr ab ↦
      let up : bytes_less a.entity b.entity ≡ true = sym (other_entity a b ab) ∙ h in
      let all_up : bytes_less a.entity c.entity ≡ true =
        elim (Bool-cases (bytes_beq b.entity c.entity)) [
          | inl bc ↦
              let f : b.entity ≡ c.entity = (bytes_beq_iff b.entity c.entity).0 bc in
              sym (ap (λ x. bytes_less a.entity x) f) ∙ up
          | inr bc ↦ bytes_less_trans a.entity b.entity c.entity up (sym (other_entity b c bc) ∙ k)
        ] in
      other_entity a c (less-other a.entity c.entity all_up) ∙ all_up
]

pub op_less_irrefl : (a b : Op) → op_less a b ≡ true → a ≡ b → ⊥
op_less_irrefl a b h e =
    let self : op_less b b ≡ true = sym (ap (λ x. op_less x b) e) ∙ h in
    absurd (ground (arith, op_less-asymm b b self))
