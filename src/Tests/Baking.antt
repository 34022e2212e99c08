-- ===== src/Tests/Baking.antt =====
-- The oven and the gathering of discharges on small inputs.
use mathlib.Core.List.{Memᴰ}
use macaroon_bakery.Prelude.{
  Bytes, ℕ, ◌<◌, ◌≡◌, ◌↔◌, refl, sym, ap, ◌∙◌, Option, none, some, List, [], ◌∷◌, arith, ok, Result,
  ◌>>=◌, from_option, codes, lookup, drop,
}
use macaroon_bakery.Prelude.Sort.{contains}
use macaroon_bakery.Checkers.Caveat.{is_empty}
use macaroon_bakery.Auth.{Op}
use macaroon_bakery.Bakery.Codec.{version3}
use macaroon_bakery.Checkers.Macaroons.{MacaroonCaveat}
use macaroon_bakery.Bakery.Codec.Legacy.{at_version}
use macaroon_bakery.Bakery.Macaroon.{
  Macaroon, CaveatEntropy, new_macaroon, macaroon_version, capped_version,
}
use macaroon_bakery.Bakery.Macaroon.Adding.{add_caveats}
use macaroon_bakery.Bakery.Ops.{
  canonical_ops, is_canonical, id_ops_from, has_op, macaroon_id_ops, IdOp,
}
use macaroon_bakery.Bakery.Ops.Unique.{canonical_ops-eq_iff}
use macaroon_bakery.Bakery.Slices.{
  NeedCaveat, needed, needed_of, all_needed, gather, GatherError, acquire, discharge_slice,
}
use macaroon_bakery.Bakery.Slices.Covered.{discharge_slice-covers}
use macaroon_bakery.Bakery.Slices.Enough.{weight, discharge_slice-finishes}
use macaroon_bakery.Bakery.Oven.{
  MacaroonId, IdEncodings, Oven, bad_signature, mem_root_key_store, mem_root_key, oven_new_macaroon,
  bake, bake_with, verify_macaroon, id_bytes, new_macaroon_id, oven_add_caveats,
}
use macaroon_bakery.Bakery.Oven.Ids.{IdEncodingLaws}
use macaroon_bakery.Bakery.Oven.Verified.{
  mem_root_key_store-IsCoherentStore, verify_macaroon-oven_new_macaroon,
}
use macaroon_bakery.Tests.Namespaces.{two_uris}
use macaroon_bakery.Tests.Platforms.{
  framed, read_frame, read_frame-framed, Sample, sample_lib, sample_lib-IdLaws, sample_platform,
}

abbrev op_a : Op
op_a = record { entity = codes "a"; action = codes "read" }

abbrev op_b : Op
op_b = record { entity = codes "b"; action = codes "read" }

canonical_ops-eq_iff_example :
    (canonical_ops (op_b ∷ op_a ∷ op_b ∷ []) ≡ canonical_ops (op_a ∷ op_b ∷ []))
    ↔ ((x : Op) → has_op (op_b ∷ op_a ∷ op_b ∷ []) x ≡ has_op (op_a ∷ op_b ∷ []) x)
canonical_ops-eq_iff_example = canonical_ops-eq_iff (op_b ∷ op_a ∷ op_b ∷ []) (op_a ∷ op_b ∷ [])

-- A third party caveat, its macaroon, and a discharge without caveats.
abbrev needed_caveat : MacaroonCaveat
needed_caveat = record { id = codes "c"; verification_id = 1 ∷ []; location = codes "third" }

abbrev plain_macaroon : Bytes → List MacaroonCaveat → Macaroon Sample
plain_macaroon id cavs = record {
  m = record { id = id; root_key = codes "root"; format = 2; caveats = cavs };
  version = at_version 3;
  caveat_data = [];
  namespace = some two_uris;
  caveat_id_prefix = [];
}

abbrev primary : Macaroon Sample
primary = plain_macaroon (codes "p") (needed_caveat ∷ [])

abbrev the_discharge : Macaroon Sample
the_discharge = plain_macaroon (codes "c") []

abbrev get_it : ℕ → MacaroonCaveat → Option Bytes → Result {0, 0} Unit (Macaroon Sample)
get_it k cav caveat = ok the_discharge

abbrev no_entropy : ℕ → ℕ → CaveatEntropy
no_entropy k i = record { root_key = none; nonces = record { random_nonce = none; uuid = [] } }

gather_run :
    discharge_slice sample_platform (λ k. k) get_it none no_entropy 2 (primary ∷ [])
    ≡ some (primary ∷ the_discharge ∷ [], [])
unfolding discharge_slice gather all_needed needed needed_of acquire contains is_empty lookup
gather_run = refl

abbrev needed_item : NeedCaveat
needed_item = record { cav = needed_caveat; encrypted_caveat = none }

needed_run : needed sample_lib [] primary ≡ needed_item ∷ []
unfolding needed needed_of contains is_empty lookup
needed_run = refl

discharge_slice-covers_example :
    (k : ℕ) × (dm : Macaroon Sample) × (acquire sample_platform
        (λ k. k)
        get_it
        none
        no_entropy
        k
        needed_item
      ≡ ok dm)
    × Memᴰ dm (primary ∷ the_discharge ∷ [])
discharge_slice-covers_example =
    discharge_slice-covers sample_platform (λ k. k) get_it none no_entropy 2 primary []
      (primary ∷ the_discharge ∷ []) primary needed_item gather_run (Memᴰ.head refl)
      (rw needed_run (Memᴰ.head refl))

-- The weight of each caveat is one, and no discharge has caveats.
no_needs :
    (dm : Macaroon Sample) → dm ≡ the_discharge → weight (λ c. 1) (needed sample_lib [] dm) < 1
unfolding needed needed_of
no_needs dm e = rw e (omega arith)

got-eq :
    (k : ℕ) (c : NeedCaveat) (dm : Macaroon Sample)
    → acquire sample_platform (λ k'. k') get_it none no_entropy k c ≡ ok dm
    → dm ≡ the_discharge
unfolding acquire
got-eq k c dm got = ground arith

small_run : weight (λ c. 1) (all_needed sample_lib [] (primary ∷ [])) < 2
unfolding all_needed needed needed_of contains is_empty
small_run = omega arith

discharge_slice-finishes_example :
    (result : List (Macaroon Sample) × List (GatherError Unit)) × (discharge_slice sample_platform
        (λ k. k)
        get_it
        none
        no_entropy
        2
        (primary ∷ [])
      ≡ some result)
discharge_slice-finishes_example =
    discharge_slice-finishes sample_platform (λ k. k) get_it none no_entropy (λ c. 1) 2 primary []
      (λ c. omega arith) (λ k c dm got. no_needs dm (got-eq k c dm got)) small_run

-- Ids of one operation are written as frames.
abbrev write_id : Bytes → Bytes → List IdOp → Option Bytes
write_id nonce storage_id (op ∷ []) = write_op nonce storage_id op.entity op.actions
  where
    write_op : Bytes → Bytes → Bytes → List Bytes → Option Bytes
    write_op n d entity (a ∷ []) = some (framed n (framed d (framed entity a)))
    write_op n d entity _ = none
write_id nonce storage_id _ = none

abbrev read_op : Bytes → Bytes → Option (Bytes × Bytes) → Option MacaroonId
read_op n d none = none
read_op n d (some (entity, a)) =
    some (record {
      nonce = n;
      storage_id = d;
      ops = record { entity = entity; actions = a ∷ [] } ∷ [];
    })

abbrev read_storage : Bytes → Option (Bytes × Bytes) → Option MacaroonId
read_storage n none = none
read_storage n (some (d, rest)) = read_op n d (read_frame rest)

abbrev read_nonce : Option (Bytes × Bytes) → Option MacaroonId
read_nonce none = none
read_nonce (some (n, rest)) = read_storage n (read_frame rest)

abbrev plain_ids : IdEncodings
plain_ids = record {
  marshal_id = λ id. write_id id.nonce id.storage_id id.ops;
  unmarshal_id = λ s. read_nonce (read_frame s);
  to_raw_base64 = λ s. b'A' ∷ s;
  from_raw_base64 = λ s. some (drop 1 s);
}

frames-eq :
    (n d e a s : Bytes)
    → some (framed n (framed d (framed e a))) ≡ some s
    → framed n (framed d (framed e a)) ≡ s
frames-eq n d e a s h = ground arith

read-write_op :
    (n d entity : Bytes) (actions : List Bytes) (s : Bytes)
    → write_id n d (record { entity = entity; actions = actions } ∷ []) ≡ some s
    → read_nonce (read_frame s)
      ≡ some (record {
        nonce = n;
        storage_id = d;
        ops = record { entity = entity; actions = actions } ∷ [];
      })
read-write_op n d entity [] s h = absurd (cc)
read-write_op n d entity (a ∷ b ∷ actions) s h = absurd (cc)
read-write_op n d entity (a ∷ []) s h =
    ap (λ x. read_nonce (read_frame x)) (sym (frames-eq n d entity a s h))
    ∙ ap read_nonce (read_frame-framed n (framed d (framed entity a)))
    ∙ ap (read_storage n) (read_frame-framed d (framed entity a))
    ∙ ap (read_op n d) (read_frame-framed entity a)

read-write_id :
    (n d : Bytes) (ops : List IdOp) (s : Bytes)
    → write_id n d ops ≡ some s
    → read_nonce (read_frame s) ≡ some (record { nonce = n; storage_id = d; ops = ops })
read-write_id n d [] s h = absurd (cc)
read-write_id n d (op ∷ o ∷ ops) s h = absurd (cc)
read-write_id n d (op ∷ []) s h = read-write_op n d op.entity op.actions s h

plain_ids-IdEncodingLaws : IdEncodingLaws plain_ids
plain_ids-IdEncodingLaws = record {
  unmarshal-marshal_id = λ id s h. read-write_id id.nonce id.storage_id id.ops s h;
  from-to_raw_base64 = λ s. refl;
  to_raw_base64-tag = λ s. (version3 ∷ s, refl);
}

-- An oven with the store in memory.
abbrev mem_oven : Oven (Option Bytes)
mem_oven = record {
  namespace = some two_uris;
  root_key_store_for_ops = λ ops. mem_root_key_store (some (codes "root"));
  key = none;
  location = [];
  locator = none;
  legacy_macaroon_op = op_b;
}

abbrev baked_macaroon : Macaroon Sample
baked_macaroon =
    plain_macaroon
      (3 ∷ framed (codes "uuid") (framed (codes "0") (framed (codes "a") (codes "read")))) []

oven_run :
    oven_new_macaroon sample_platform plain_ids mem_oven none
      (at_version 3)
      []
      (op_a ∷ [])
      (codes "uuid")
      (no_entropy 0)
    ≡ (ok baked_macaroon, some (codes "root"))
unfolding oven_new_macaroon bake_with bake canonical_ops is_canonical macaroon_id_ops id_ops_from
    new_macaroon_id id_bytes new_macaroon macaroon_version capped_version oven_add_caveats
    add_caveats mem_root_key_store mem_root_key
oven_run = refl

verify_macaroon-oven_new_macaroon_example :
    (key : Bytes) × (storage_id : Bytes) × ((mem_root_key_store (some (codes "root"))).new_root_key
        none
      ≡ (ok (key, storage_id), some (codes "root")))
    × (verify_macaroon sample_platform plain_ids mem_oven
          (some (codes "root"))
          (baked_macaroon.m ∷ [])
        ≡ (from_option bad_signature (sample_lib.verify_signature baked_macaroon.m key [])
            >>= λ conditions. ok (canonical_ops (op_a ∷ []), conditions)))
verify_macaroon-oven_new_macaroon_example =
    verify_macaroon-oven_new_macaroon sample_platform plain_ids mem_oven sample_lib-IdLaws
      plain_ids-IdEncodingLaws none (some (codes "root")) (at_version 3) [] (op_a ∷ [])
      (codes "uuid") (no_entropy 0) baked_macaroon []
      (λ ops. mem_root_key_store-IsCoherentStore (some (codes "root"))) oven_run
