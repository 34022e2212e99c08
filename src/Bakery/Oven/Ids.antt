-- ===== src/Bakery/Oven/Ids.antt =====
-- The ids that `NewMacaroon` of bakery/oven.go mints, and their decoding.
use macaroon_bakery.Prelude.{
  Bytes, ◌≡◌, ◌∙◌, refl, ap, Bool, true, false, some, List, [], ◌∷◌, ◌++◌, length-append, ltb,
  nat_beq, ◌==◌, bytes_eq, beq_refl, ok, length, arith, Bool-cases, inl, inr,
}
use macaroon_bakery.Bakery.Codec.{version3}
use macaroon_bakery.Bakery.Codec.Legacy.{Version}
use macaroon_bakery.Bakery.Macaroon.{macaroon_version, format_v2}
use macaroon_bakery.Bakery.Ops.{
  IdOp, canonical_ops, macaroon_id_ops, ops_of_id, has_op, one_action, last_action, id_ops_from,
}
use macaroon_bakery.Bakery.Ops.Canonical.{is_canonical-canonical_ops, has_op-canonical_ops}
use macaroon_bakery.Bakery.Ops.Ids.{ops_of_id-macaroon_id_ops}
use macaroon_bakery.Auth.{Op, op_eq}
use macaroon_bakery.Bakery.Oven.{
  MacaroonId, IdEncodings, lacks_ops, read_v3_id, read_id, decode_macaroon_id, strip_base64,
  decoded_id, new_macaroon_id, id_bytes,
}

-- Ids are read back from their encodings; the base64 text of a byte 3 and others starts with an `A`.
pub record IdEncodingLaws (enc : IdEncodings) : Type 0 where
  pub unmarshal-marshal_id :
      (id : MacaroonId) (s : Bytes) → enc.marshal_id id ≡ some s → enc.unmarshal_id s ≡ some id
  pub from-to_raw_base64 : (s : Bytes) → enc.from_raw_base64 (enc.to_raw_base64 s) ≡ some s
  pub to_raw_base64-tag :
      (s : Bytes) → (rest : Bytes) × (enc.to_raw_base64 (version3 ∷ s) ≡ b'A' ∷ rest)

lacks_ops-append : (xs ys : List IdOp) → lacks_ops xs ≡ false → lacks_ops (xs ++ ys) ≡ false
unfolding lacks_ops
lacks_ops-append [] ys h = absurd (cc)
lacks_ops-append (x ∷ xs) ys h = h

length-append_one : (as' : List Bytes) (a : Bytes) → nat_beq (length (as' ++ a ∷ [])) 0 ≡ false
length-append_one as' a = ground (arith, length-append as' (a ∷ []))

lacks_ops-more :
    (done : List IdOp) (id_op : IdOp) (a : Bytes)
    → lacks_ops (done ++ id_op ∷ []) ≡ false
    → lacks_ops (done ++ record id_op { actions = id_op.actions ++ a ∷ [] } ∷ []) ≡ false
unfolding lacks_ops
lacks_ops-more [] id_op a h = length-append_one id_op.actions a
lacks_ops-more (d ∷ done) id_op a h = h

lacks_ops-from :
    (done : List IdOp) (id_op : IdOp) (ops : List Op)
    → lacks_ops (done ++ id_op ∷ []) ≡ false
    → lacks_ops (id_ops_from done id_op ops) ≡ false
unfolding id_ops_from
lacks_ops-from done id_op [] h = h
lacks_ops-from done id_op (op ∷ ops) h = elim (Bool-cases (op.entity == id_op.entity)) [
  | inr other ↦ rw other (
      lacks_ops-from (done ++ id_op ∷ []) (one_action op) ops
        (lacks_ops-append (done ++ id_op ∷ []) (one_action op ∷ []) h))
  | inl same ↦ elim (Bool-cases (op.action == last_action id_op.actions)) [
    | inr new ↦
        rw (same, new)
          (lacks_ops-from done (record id_op { actions = id_op.actions ++ op.action ∷ [] }) ops
            (lacks_ops-more done id_op op.action h))
    | inl old ↦ rw (same, old) (lacks_ops-from done id_op ops h)
  ]
]

lacks_ops-macaroon_id_ops :
    (ops : List Op) (op : Op) → has_op ops op ≡ true → lacks_ops (macaroon_id_ops ops) ≡ false
unfolding macaroon_id_ops has_op
lacks_ops-macaroon_id_ops [] op h = absurd (cc)
lacks_ops-macaroon_id_ops (o ∷ ops) op h =
    lacks_ops-from [] (one_action o) ops (unfold lacks_ops in ground arith)

has_op-head : (op : Op) (ops : List Op) → has_op (op ∷ ops) op ≡ true
unfolding has_op
has_op-head op ops = ground (arith, beq_refl op)

module _ (enc : IdEncodings) (laws : IdEncodingLaws enc) (legacy_op : Op) where
  read_v3 :
      (id : MacaroonId) (s : Bytes) (decoded : Bool)
      → enc.marshal_id id ≡ some s
      → lacks_ops id.ops ≡ false
      → read_id enc legacy_op (version3 ∷ s, decoded) ≡ ok (id.storage_id, ops_of_id id.ops)
  unfolding read_id read_v3_id
  read_v3 id s decoded h some_ops = rw (laws.unmarshal-marshal_id id s h) (rw some_ops refl)

  strip_minted :
      (version : Version) (s : Bytes)
      → (decoded : Bool) × (strip_base64 enc (id_bytes enc version s) ≡ (version3 ∷ s, decoded))
  unfolding strip_base64 id_bytes decoded_id
  strip_minted version s = elim (Bool-cases (ltb (macaroon_version version) format_v2)) [
    | inr new ↦ (false, rw new refl)
    | inl old ↦
        let (rest, tagged) = laws.to_raw_base64-tag s in
        (
          true,
          rw old (rw tagged (rw (← tagged) (rw (laws.from-to_raw_base64 (version3 ∷ s)) refl))),
        )
  ]

  -- The id that is minted in any version is read back.
  pub decode-id_bytes :
      (version : Version) (nonce storage_id s : Bytes) (op : Op) (ops : List Op)
      → enc.marshal_id (new_macaroon_id nonce (canonical_ops (op ∷ ops)) storage_id) ≡ some s
      → decode_macaroon_id enc legacy_op (id_bytes enc version s)
        ≡ ok (storage_id, canonical_ops (op ∷ ops))
  unfolding decode_macaroon_id new_macaroon_id
  decode-id_bytes version nonce storage_id s op ops h =
      let canonical = canonical_ops (op ∷ ops) in
      let (decoded, stripped) = strip_minted version s in
      let held : has_op canonical op ≡ true =
        has_op-canonical_ops (op ∷ ops) op ∙ has_op-head op ops in
      ap (read_id enc legacy_op) stripped
      ∙ read_v3 (new_macaroon_id nonce canonical storage_id) s decoded h
          (lacks_ops-macaroon_id_ops canonical op held)
      ∙ ap (λ l. ok (storage_id, l))
          (ops_of_id-macaroon_id_ops canonical (is_canonical-canonical_ops (op ∷ ops)))
