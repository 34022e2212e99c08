-- ===== src/Bakery/Oven.antt =====
-- The oven, which mints and verifies macaroons: bakery/oven.go, with bakery/store.go.
pub mod Ids
pub mod Verified
use macaroon_bakery.Prelude.{
  Bytes, ℕ, ◌≡◌, Bool, true, false, not, ◌&&◌, ◌||◌, Option, none, some, List, [], ◌∷◌, leb, ltb,
  nat_beq, if◌then◌else◌, ◌==◌, bytes_eq, Result, ok, err, ◌>>=◌, ◌>>◌, check, from_option, length,
  take, drop, arith,
}
use macaroon_bakery.Strings.Search.{last_index}
use macaroon_bakery.Checkers.Caveat.{Caveat}
use macaroon_bakery.Checkers.Namespace.{Namespace}
use macaroon_bakery.Bakery.Crypto.{KeyPair}
use macaroon_bakery.Bakery.Codec.{version2, version3}
use macaroon_bakery.Bakery.Keys.{Locator}
use macaroon_bakery.Bakery.Codec.Legacy.{Version}
use macaroon_bakery.Bakery.Macaroon.{
  MacaroonError, Macaroon, CaveatEntropy, latest_version, format_v2, macaroon_version, new_macaroon,
}
use macaroon_bakery.Bakery.Macaroon.Adding.{Platform, Added, add_caveat, add_caveats}
use macaroon_bakery.Bakery.Ops.{IdOp, canonical_ops, macaroon_id_ops, ops_of_id}
use macaroon_bakery.Auth.{Op, op_eq, no_op}

-- `macaroonpb.MacaroonId`
pub record MacaroonId : Type 0 where
  pub nonce : Bytes
  pub storage_id : Bytes
  pub ops : List IdOp

-- The encodings of macaroon ids: `MarshalBinary` and `UnmarshalBinary` of `macaroonpb.MacaroonId`,
-- and `base64.RawURLEncoding`.
pub record IdEncodings : Type 0 where
  pub marshal_id : MacaroonId → Option Bytes
  pub unmarshal_id : Bytes → Option MacaroonId
  pub to_raw_base64 : Bytes → Bytes
  pub from_raw_base64 : Bytes → Option Bytes

pub data StoreError : Type 0 where
  not_found store_failed : StoreError

-- `RootKeyStore`, with its state; `RootKey` gives a key and its id.
pub record RootKeyStore (S : Type 0) : Type 0 where
  pub get : S → Bytes → Result StoreError Bytes
  pub new_root_key : S → Result StoreError (Bytes × Bytes) × S

-- `memRootKeyStore`: its key, and what `randomBytes(24)` gives.
abbrev pub zero_id : Bytes
zero_id = b'0' ∷ []

unfoldable pub mem_get : Option Bytes → Bytes → Result StoreError Bytes
mem_get none id = err not_found
mem_get (some key) id = if id == zero_id then ok key else err not_found

unfoldable pub mem_root_key :
    Option Bytes → Option Bytes → Result StoreError (Bytes × Bytes) × Option Bytes
mem_root_key random (some key) = (ok (key, zero_id), some key)
mem_root_key none none = (err store_failed, none)
mem_root_key (some key) none = (ok (key, zero_id), some key)

unfoldable pub mem_root_key_store : Option Bytes → RootKeyStore (Option Bytes)
unfolding mem_get mem_root_key
mem_root_key_store random = record { get = mem_get; new_root_key = mem_root_key random }

-- `OvenParams`. `no_op` stands for no legacy operation.
pub record Oven (S : Type 0) : Type 0 where
  pub namespace : Option Namespace
  pub root_key_store_for_ops : List Op → RootKeyStore S
  pub key : Option KeyPair
  pub location : Bytes
  pub locator : Option Locator
  pub legacy_macaroon_op : Op

-- `id_panic` is an index out of range.
pub data OvenError : Type 0 where
  no_macaroons bad_id no_operations id_panic : OvenError
  cannot_get_macaroon not_in_storage bad_signature cannot_store cannot_marshal : OvenError
  cannot_bake : MacaroonError → OvenError

unfoldable pub is_lower_case_hex_char : ℕ → Bool
is_lower_case_hex_char c = leb b'0' c && leb c b'9' || leb b'a' c && leb c b'f'

-- `uuidGen.Next` gives 16 bytes that are used.
abbrev pub uuid_len : ℕ
uuid_len = 16

-- `if op := o.p.LegacyMacaroonOp; op != (Op{})`
unfoldable pub legacy_ops : Op → List Op
legacy_ops op = if not (op == no_op) then op ∷ [] else []

-- The storage id of an old id: what is before its last hyphen.
unfoldable pub before_hyphen : Bytes → Option ℕ → Bytes
before_hyphen id none = []
before_hyphen id (some i) = take i id

unfoldable pub old_storage_id : Bytes → ℕ → Bool → Bytes
unfolding is_lower_case_hex_char before_hyphen
old_storage_id id tag base64_decoded =
    if not base64_decoded && is_lower_case_hex_char tag
    then before_hyphen id (last_index id b'-')
    else []

unfoldable pub lacks_ops : List IdOp → Bool
lacks_ops [] = true
lacks_ops (op ∷ ops) = nat_beq (length op.actions) 0

unfoldable pub read_v3_id : MacaroonId → Result OvenError (Bytes × List Op)
unfolding lacks_ops
read_v3_id id = do
  check (not (lacks_ops id.ops)) no_operations
  ok (id.storage_id, ops_of_id id.ops)

unfoldable pub decoded_id : Bytes → Option Bytes → Bytes × Bool
decoded_id id none = (id, false)
decoded_id id (some d) = (d, true)

-- The base64 decoding of `decodeMacaroonId`.
unfoldable pub strip_base64 : IdEncodings → Bytes → Bytes × Bool
unfolding decoded_id
strip_base64 enc [] = ([], false)
strip_base64 enc (c ∷ id) =
    if nat_beq c b'A' then decoded_id (c ∷ id) (enc.from_raw_base64 (c ∷ id)) else (c ∷ id, false)

module _ (enc : IdEncodings) (legacy_op : Op) where
  -- The `switch` of `decodeMacaroonId`, and what is behind it.
  unfoldable pub read_id : Bytes × Bool → Result OvenError (Bytes × List Op)
  unfolding read_v3_id legacy_ops old_storage_id
  read_id ([], base64_decoded) = err id_panic
  read_id (tag ∷ id, base64_decoded) =
      if nat_beq tag version2
      then (if leb uuid_len (length id)
          then ok (drop uuid_len id, legacy_ops legacy_op)
          else err id_panic)
      else if nat_beq tag version3
      then (do id1 ← from_option bad_id (enc.unmarshal_id id); read_v3_id id1)
      else ok (old_storage_id (tag ∷ id) tag base64_decoded, legacy_ops legacy_op)

  unfoldable pub decode_macaroon_id : Bytes → Result OvenError (Bytes × List Op)
  unfolding read_id strip_base64
  decode_macaroon_id id = read_id (strip_base64 enc id)

-- `Oven.newMacaroonId`
unfoldable pub new_macaroon_id : Bytes → List Op → Bytes → MacaroonId
new_macaroon_id nonce ops storage_id = record {
  nonce = nonce;
  storage_id = storage_id;
  ops = macaroon_id_ops ops;
}

-- The bytes of the id: base64 for the formats that want a text.
unfoldable pub id_bytes : IdEncodings → Version → Bytes → Bytes
id_bytes enc version id =
    if ltb (macaroon_version version) format_v2
    then enc.to_raw_base64 (latest_version ∷ id)
    else latest_version ∷ id

abbrev pub from_store : Result StoreError Bytes → Result OvenError Bytes
from_store (ok key) = ok key
from_store (err not_found) = err not_in_storage
from_store (err store_failed) = err cannot_get_macaroon

module _ {M S : Type 0} (p : Platform M) (enc : IdEncodings) (o : Oven S) where
  -- `Oven.VerifyMacaroon`
  unfoldable pub verify_macaroon : S → List M → Result OvenError (List Op × List Bytes)
  unfolding decode_macaroon_id
  verify_macaroon s [] = err no_macaroons
  verify_macaroon s (m ∷ ms) = do
    (storage_id, ops) ← decode_macaroon_id enc o.legacy_macaroon_op (p.lib.id_of m)
    root_key ← from_store ((o.root_key_store_for_ops ops).get s storage_id)
    conditions ← from_option bad_signature (p.lib.verify_signature m root_key ms)
    ok (ops, conditions)

  abbrev pub minted : {A : Type 0} → Result StoreError A → Result OvenError A
  minted (ok a) = ok a
  minted (err e) = err cannot_store

  abbrev pub baked : {A : Type 0} → Result MacaroonError A → Result OvenError A
  baked (ok a) = ok a
  baked (err e) = err (cannot_bake e)

  abbrev pub completed : Added M → Result OvenError (Macaroon M)
  completed (mac, none) = ok mac
  completed (mac, some e) = err (cannot_bake e)

  -- `Oven.AddCaveat` and `Oven.AddCaveats`.
  unfoldable pub oven_add_caveat : Macaroon M → Caveat → CaveatEntropy → Added M
  oven_add_caveat mac cav e = add_caveat p mac cav o.key o.locator e

  unfoldable pub oven_add_caveats : Macaroon M → List Caveat → (ℕ → CaveatEntropy) → Added M
  oven_add_caveats mac cavs e = add_caveats p mac cavs o.key o.locator e 0

  -- `Oven.NewMacaroon` behind the call of `RootKey`.
  unfoldable pub bake :
      Version
      → List Caveat
      → List Op
      → Bytes
      → (ℕ → CaveatEntropy)
      → Bytes × Bytes
      → Result OvenError (Macaroon M)
  unfolding new_macaroon_id id_bytes oven_add_caveats
  bake version caveats ops nonce e (root_key, storage_id) = do
    id ← from_option cannot_marshal (enc.marshal_id (new_macaroon_id nonce ops storage_id))
    mac ←
        baked (new_macaroon p.lib root_key (id_bytes enc version id) o.location version o.namespace)
    completed (oven_add_caveats mac caveats e)

  unfoldable pub bake_with :
      Version
      → List Caveat
      → List Op
      → Bytes
      → (ℕ → CaveatEntropy)
      → Result StoreError (Bytes × Bytes) × S
      → Result OvenError (Macaroon M) × S
  unfolding bake
  bake_with version caveats ops nonce e (r, s') =
      ((do key ← minted r; bake version caveats ops nonce e key), s')

  -- `Oven.NewMacaroon`
  unfoldable pub oven_new_macaroon :
      S
      → Version
      → List Caveat
      → List Op
      → Bytes
      → (ℕ → CaveatEntropy)
      → Result OvenError (Macaroon M) × S
  oven_new_macaroon s version caveats [] nonce e = (err no_operations, s)
  oven_new_macaroon s version caveats (op ∷ ops) nonce e =
      let canonical = canonical_ops (op ∷ ops) in
      bake_with version caveats canonical nonce e
        ((o.root_key_store_for_ops canonical).new_root_key s)
