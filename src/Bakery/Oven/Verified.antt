-- ===== src/Bakery/Oven/Verified.antt =====
-- `NewMacaroon` of bakery/oven.go against `VerifyMacaroon`, and the store of bakery/store.go.
use macaroon_bakery.Prelude.{
  Bytes, ℕ, ◌≡◌, ◌∙◌, sym, refl, ap, Option, none, some, List, [], ◌∷◌, bytes_eq, beq_refl, Result,
  ok, err, ◌>>=◌, >>=-eq-ok, from_option, arith, Option-cases, inl, inr,
}
use macaroon_bakery.Checkers.Caveat.{Caveat}
use macaroon_bakery.Checkers.Namespace.{Namespace}
use macaroon_bakery.Bakery.Codec.Legacy.{Version}
use macaroon_bakery.Bakery.Macaroon.{
  MacaroonError, Macaroon, CaveatEntropy, macaroon_version, capped_version, new_macaroon,
  library_failed,
}
use macaroon_bakery.Bakery.Macaroon.Adding.{Platform, Added}
use macaroon_bakery.Bakery.Macaroon.Added.{IdLaws, ok-injective, add_caveats-id}
use macaroon_bakery.Bakery.Ops.{canonical_ops}
use macaroon_bakery.Auth.{Op, op_eq}
use macaroon_bakery.Bakery.Oven.{
  IdEncodings, StoreError, RootKeyStore, Oven, bad_signature, decode_macaroon_id, verify_macaroon,
  baked, completed, new_macaroon_id, id_bytes, bake, oven_new_macaroon, oven_add_caveats, bake_with,
  zero_id, mem_get, mem_root_key, mem_root_key_store,
}
use macaroon_bakery.Bakery.Oven.Ids.{IdEncodingLaws, decode-id_bytes}

-- The key that a store gives for a new macaroon is found under its id.
abbrev pub IsCoherentStore : {S : Type 0} → RootKeyStore S → Type 0
IsCoherentStore {S} store =
    (s s' : S) (key id : Bytes)
    → store.new_root_key s ≡ (ok (key, id), s')
    → store.get s' id ≡ ok key

-- The key that the store in memory gives is found under its id.
pub mem_root_key_store-IsCoherentStore :
    (random : Option Bytes) → IsCoherentStore (mem_root_key_store random)
unfolding mem_root_key_store mem_get mem_root_key
mem_root_key_store-IsCoherentStore none none s' key id h = absurd (ground arith)
mem_root_key_store-IsCoherentStore (some fresh) none s' key id h = ground (arith, beq_refl zero_id)
mem_root_key_store-IsCoherentStore random (some kept) s' key id h = ground (arith, beq_refl zero_id)

ok-ne-err : {E A : Type 0} {a : A} {e : E} → ok a ≡ err e → ⊥
ok-ne-err h = absurd (cc)

module _ {M S : Type 0} (p : Platform M) (enc : IdEncodings) (o : Oven S) (ids : IdLaws p.lib)
    (laws : IdEncodingLaws enc) where
  completed-ok : (a : Added M) (mac : Macaroon M) → completed p enc o a ≡ ok mac → a ≡ (mac, none)
  completed-ok (mac', none) mac h = ap (λ x. (x, none)) (ok-injective mac' mac h)
  completed-ok (mac', some e) mac h = absurd (cc)

  baked-ok :
      (r : Result MacaroonError (Macaroon M)) (mac : Macaroon M)
      → baked p enc o r ≡ ok mac
      → r ≡ ok mac
  baked-ok (ok mac') mac h = ap ok (ok-injective mac' mac h)
  baked-ok (err e) mac h = absurd (cc)

  new_macaroon-id :
      (root_key id location : Bytes) (version : Version) (ns : Option Namespace) (mac : Macaroon M)
      → new_macaroon p.lib root_key id location version ns ≡ ok mac
      → p.lib.id_of mac.m ≡ id
  unfolding new_macaroon
  new_macaroon-id root_key id location version ns mac h =
      let v = capped_version version in
      let (m, made, done) =
        >>=-eq-ok
          (from_option library_failed (p.lib.new_m root_key id location (macaroon_version v))) _
          h in
      let same : mac.m ≡ m = ap (λ (x : Macaroon M). x.m) (sym (ok-injective _ mac done)) in
      ap p.lib.id_of same ∙ ids.new_m-id root_key id location (macaroon_version v) m (ground arith)

  -- A macaroon that was baked has the id that was minted.
  bake-id :
      (version : Version) (caveats : List Caveat) (ops : List Op) (nonce : Bytes)
      (e : ℕ → CaveatEntropy) (key storage_id : Bytes) (mac : Macaroon M)
      → bake p enc o version caveats ops nonce e (key, storage_id) ≡ ok mac
      → (id : Bytes) × (enc.marshal_id (new_macaroon_id nonce ops storage_id) ≡ some id)
        × (p.lib.id_of mac.m ≡ id_bytes enc version id)
  unfolding bake
  bake-id version caveats ops nonce e key storage_id mac h =
      let made = enc.marshal_id (new_macaroon_id nonce ops storage_id) in
      elim (Option-cases made) [
        | inl failed ↦ absurd (ground arith)
        | inr (id, marshals) ↦
            let (mac1, new_ok, h1) =
              >>=-eq-ok
                (baked p enc o
                  (new_macaroon p.lib key (id_bytes enc version id) o.location version o.namespace))
                (λ m. completed p enc o (oven_add_caveats p enc o m caveats e))
                (rw marshals at h) in
            let added = completed-ok (oven_add_caveats p enc o mac1 caveats e) mac h1 in
            (
              id,
              marshals,
              add_caveats-id p ids mac1 mac caveats o.key o.locator e 0
                    (unfold oven_add_caveats in added)
                  ∙ new_macaroon-id key (id_bytes enc version id) o.location version o.namespace
                      mac1 (baked-ok _ mac1 new_ok),
            )
      ]

  bake_with-ok :
      (version : Version) (caveats : List Caveat) (ops : List Op) (nonce : Bytes)
      (e : ℕ → CaveatEntropy) (r : Result StoreError (Bytes × Bytes) × S) (mac : Macaroon M)
      (s' : S)
      → bake_with p enc o version caveats ops nonce e r ≡ (ok mac, s')
      → (key : Bytes) × (storage_id : Bytes) × (r ≡ (ok (key, storage_id), s'))
        × (bake p enc o version caveats ops nonce e (key, storage_id) ≡ ok mac)
  unfolding bake_with
  bake_with-ok version caveats ops nonce e (ok (key, storage_id), s1) mac s' h =
      (key, storage_id, ap (λ t. (ok (key, storage_id), t.1)) h, ap (λ t. t.0) h)
  bake_with-ok version caveats ops nonce e (err failed, s1) mac s' h =
      absurd (ok-ne-err (sym (ap (λ t. t.0) h)))

  -- A macaroon that `NewMacaroon` of the oven minted, in any version and with any caveats, is
  -- verified by `VerifyMacaroon` with the key that the store gave for it, and is associated with
  -- the canonical form of the operations that it was minted for: the answer is that of the check
  -- of its signature and those of its discharges. The store finds a key that it gave, ids are
  -- read back from their encodings, and adding a caveat keeps the id of a macaroon.
  pub verify_macaroon-oven_new_macaroon :
      (s s' : S) (version : Version) (caveats : List Caveat) (ops : List Op) (nonce : Bytes)
      (e : ℕ → CaveatEntropy) (mac : Macaroon M) (discharges : List M)
      → ((os : List Op) → IsCoherentStore (o.root_key_store_for_ops os))
      → oven_new_macaroon p enc o s version caveats ops nonce e ≡ (ok mac, s')
      → (key : Bytes) × (storage_id : Bytes) × ((o.root_key_store_for_ops
              (canonical_ops ops)).new_root_key
            s
          ≡ (ok (key, storage_id), s'))
        × (verify_macaroon p enc o s' (mac.m ∷ discharges) ≡ (
            from_option bad_signature (p.lib.verify_signature mac.m key discharges)
            >>= λ conditions. ok (canonical_ops ops, conditions)))
  unfolding oven_new_macaroon verify_macaroon
  verify_macaroon-oven_new_macaroon s s' version caveats [] nonce e mac discharges coherent h =
      absurd (ok-ne-err (sym (ap (λ t. t.0) h)))
  verify_macaroon-oven_new_macaroon s s' version caveats (op ∷ ops) nonce e mac discharges coherent
        h =
      let canonical = canonical_ops (op ∷ ops) in
      let (key, storage_id, minted_key, bakes) =
        bake_with-ok version caveats canonical nonce e _ mac s' h in
      let (id, marshals, same_id) =
        bake-id version caveats canonical nonce e key storage_id mac bakes in
      let decodes : decode_macaroon_id enc o.legacy_macaroon_op (p.lib.id_of mac.m)
          ≡ ok (storage_id, canonical) =
        ap (decode_macaroon_id enc o.legacy_macaroon_op) same_id
        ∙ decode-id_bytes enc laws o.legacy_macaroon_op version nonce storage_id id op ops
            marshals in
      let found = coherent canonical s s' key storage_id minted_key in
      (key, storage_id, minted_key, rw decodes (rw found refl))
