-- ===== src/Bakery/Macaroon.antt =====
-- Macaroons with the information that goes to third parties: bakery/macaroon.go.
pub mod FreshId
pub mod Adding
pub mod Added
pub mod Json
use macaroon_bakery.Prelude.{
  Bytes, ℕ, zero, suc, ◌+◌, ◌%◌, ◌^◌, ◌≡◌, Bool, true, false, not, ◌&&◌, Option, none, some, List,
  [], ◌∷◌, ◌++◌, ltb, leb, nat_beq, if◌then◌else◌, ◌==◌, bytes_eq, codes, Result, ok, err, ◌>>=◌,
  ◌>>◌, check, from_option, Map, lookup, insert, length, take,
}
use macaroon_bakery.Strings.Fields.{fields}
use macaroon_bakery.Checkers.Caveat.{Caveat, is_empty}
use macaroon_bakery.Checkers.Macaroons.{MacaroonCaveat}
use macaroon_bakery.Checkers.Namespace.{Namespace, resolve_caveat}
use macaroon_bakery.Bakery.Uvarint.{append_uvarint}
use macaroon_bakery.Bakery.Crypto.{Box, KeyPair}
use macaroon_bakery.Bakery.Codec.{CaveatError, version2, version3, legacy_namespace}
use macaroon_bakery.Bakery.Codec.Legacy.{
  Encodings, Entropy, ThirdPartyInfo, Version, negative, at_version, version1, encode_caveat,
}
use macaroon_bakery.Bakery.Keys.{Locator, KeyError, unmarshal_key}

abbrev pub latest_version : ℕ
latest_version = version3

-- `macaroon.V1` and `macaroon.V2` of gopkg.in/macaroon.v2.
abbrev pub format_v1 : ℕ
format_v1 = 1

abbrev pub format_v2 : ℕ
format_v2 = 2

-- `MacaroonVersion` of bakery/version.go.
unfoldable pub macaroon_version : Version → ℕ
macaroon_version negative = format_v2
macaroon_version (at_version v) = if leb v version1 then format_v1 else format_v2

-- `if version > LatestVersion { version = LatestVersion }`
unfoldable pub capped_version : Version → Version
capped_version negative = negative
capped_version (at_version v) = at_version (if ltb latest_version v then latest_version else v)

-- What the program uses of gopkg.in/macaroon.v2, with `none` for an error. The random nonce that
-- encrypts the root key of a third party caveat is the library's. A nil verification id is `[]`.
pub record MacaroonLib (M : Type 0) : Type 0 where
  pub new_m : Bytes → Bytes → Bytes → ℕ → Option M
  pub version_of : M → ℕ
  pub id_of : M → Bytes
  pub caveats_of : M → List MacaroonCaveat
  pub add_first_party : Bytes → M → Option M
  pub add_third_party : Bytes → Bytes → Bytes → M → Option M
  pub signature_of : M → Bytes
  pub bind : Bytes → M → M
  pub verify_signature : M → Bytes → List M → Option (List Bytes)

pub data MacaroonError : Type 0 where
  library_failed unknown_version no_private_key local_condition no_locator : MacaroonError
  unknown_third_party no_random_secret out_of_ids : MacaroonError
  bad_caveat : CaveatError → MacaroonError

pub record Macaroon (M : Type 0) : Type 0 where
  pub m : M
  pub version : Version
  pub caveat_data : Map Bytes Bytes
  pub namespace : Option Namespace
  pub caveat_id_prefix : Bytes

unfoldable pub bakery_version : ℕ → Result MacaroonError Version
bakery_version v =
    if nat_beq v format_v1
    then ok (at_version version1)
    else if nat_beq v format_v2
    then ok (at_version version2)
    else err unknown_version

abbrev pub in_macaroon : Result CaveatError Namespace → Result MacaroonError Namespace
in_macaroon (ok ns) = ok ns
in_macaroon (err e) = err (bad_caveat e)

-- What is random in the addition of a third party caveat: the root key of `randomBytes(24)`, and
-- the nonces.
pub record CaveatEntropy : Type 0 where
  pub root_key : Option Bytes
  pub nonces : Entropy

-- What reads the location of a local caveat: `strconv.Atoi` and `macaroon.Base64Decode`.
pub record LocationReaders : Type 0 where
  pub atoi : Bytes → Option Version
  pub base64_decode : Bytes → Option Bytes

abbrev pub key_info : Version → Result KeyError Bytes → Option ThirdPartyInfo
key_info v (err e) = none
key_info v (ok key) = some (record { public_key = key; version = v })

abbrev pub versioned_info : Option Version → Result KeyError Bytes → Option ThirdPartyInfo
versioned_info none key = none
versioned_info (some v) key = key_info v key

-- The `switch` of `parseLocalLocation` on the fields behind `local`.
unfoldable pub local_fields : LocationReaders → List Bytes → Option ThirdPartyInfo
local_fields r (v ∷ key ∷ []) = versioned_info (r.atoi v) (unmarshal_key r.base64_decode key)
local_fields r (key ∷ []) = key_info (at_version version1) (unmarshal_key r.base64_decode key)
local_fields r _ = none

abbrev pub tail_fields : List Bytes → List Bytes
tail_fields [] = []
tail_fields (f ∷ fs) = fs

-- `parseLocalLocation` of bakery/discharge.go.
unfoldable pub parse_local_location : LocationReaders → Bytes → Option ThirdPartyInfo
unfolding local_fields
parse_local_location r loc =
    if take 6 loc == codes "local " then local_fields r (tail_fields (fields loc)) else none

-- The ids of third party caveats.
unfoldable pub third_party_ids : List MacaroonCaveat → List Bytes
third_party_ids [] = []
third_party_ids (cav ∷ cavs) =
    let rest = third_party_ids cavs in if is_empty cav.verification_id then rest else cav.id ∷ rest

-- The inner loop of `newCaveatId`.
unfoldable pub is_used : Bytes → List MacaroonCaveat → Bool
is_used id [] = false
is_used id (cav ∷ cavs) =
    let rest = is_used id cavs in
    if not (is_empty cav.verification_id) && cav.id == id then true else rest

-- The loop of `newCaveatId` for so many rounds: `none` means that they ran out.
unfoldable pub find_id : ℕ → Bytes → ℕ → List MacaroonCaveat → Option Bytes
unfolding is_used
find_id zero id i cavs = none
find_id (suc n) id i cavs =
    let id1 = append_uvarint id (i % 2 ^ 64) in
    let rest = find_id n id (i + 1) cavs in if is_used id1 cavs then rest else some id1

unfoldable pub id_base : Bytes → Bytes
id_base base = if is_empty base then version3 ∷ [] else base

module _ {M : Type 0} (lib : MacaroonLib M) where
  unfoldable pub new_legacy_macaroon : M → Result MacaroonError (Macaroon M)
  unfolding bakery_version
  new_legacy_macaroon m = do
    v ← bakery_version (lib.version_of m)
    ns ← in_macaroon legacy_namespace
    ok (record { m = m; version = v; caveat_data = []; namespace = some ns; caveat_id_prefix = [] })

  unfoldable pub new_macaroon :
      Bytes → Bytes → Bytes → Version → Option Namespace → Result MacaroonError (Macaroon M)
  unfolding macaroon_version capped_version
  new_macaroon root_key id location version ns = do
    let v = capped_version version
    m ← from_option library_failed (lib.new_m root_key id location (macaroon_version v))
    ok (record { m = m; version = v; caveat_data = []; namespace = ns; caveat_id_prefix = [] })

  -- `newCaveatId`, which tries one number more than there are caveats.
  unfoldable pub new_caveat_id : Macaroon M → Bytes → Option Bytes
  unfolding find_id id_base
  new_caveat_id mac base =
      let cavs = lib.caveats_of mac.m in
      find_id (suc (length cavs)) (id_base base) (length mac.caveat_data) cavs
