-- ===== src/Bakery/Macaroon/Adding.antt =====
-- `AddCaveat` and `AddCaveats` of bakery/macaroon.go.
use macaroon_bakery.Prelude.{
  Bytes, ℕ, suc, Bool, true, Option, none, some, List, [], ◌∷◌, ltb, if◌then◌else◌, codes, bytes_eq,
  Result, ok, err, ◌>>=◌, ◌>>◌, check, from_option, insert,
}
use macaroon_bakery.Checkers.Caveat.{Caveat, is_empty}
use macaroon_bakery.Checkers.Namespace.{resolve_caveat}
use macaroon_bakery.Bakery.Crypto.{Box, KeyPair}
use macaroon_bakery.Bakery.Codec.{CaveatError, version3}
use macaroon_bakery.Bakery.Codec.Legacy.{
  Encodings, ThirdPartyInfo, Version, negative, at_version, encode_caveat,
}
use macaroon_bakery.Bakery.Keys.{Locator}
use macaroon_bakery.Bakery.Macaroon.{
  MacaroonLib, MacaroonError, library_failed, no_private_key, local_condition, no_locator,
  unknown_third_party, no_random_secret, out_of_ids, bad_caveat, Macaroon, CaveatEntropy,
  LocationReaders, parse_local_location, new_caveat_id,
}

-- The packages that macaroons are made with; `unregistered` writes the condition of a caveat whose
-- namespace has no prefix.
pub record Platform (M : Type 0) : Type 0 where
  pub lib : MacaroonLib M
  pub box : Box
  pub encodings : Encodings
  pub readers : LocationReaders
  pub unregistered : Bytes → Bytes → Bytes

-- A location of a local caveat.
abbrev pub local_location : Bytes
local_location = codes "local"

abbrev pub true_condition : Bytes
true_condition = codes "true"

-- `if m.version < info.Version { info.Version = m.version }`
unfoldable pub least_version : Version → Version → Version
least_version negative w = negative
least_version (at_version v) negative = negative
least_version (at_version v) (at_version w) = if ltb v w then at_version v else at_version w

unfoldable pub is_before_v3 : Version → Bool
is_before_v3 negative = true
is_before_v3 (at_version v) = ltb v version3

-- The third party of a caveat, and the caveat as it is encoded.
unfoldable pub external_party :
    Option Locator → Caveat → Result MacaroonError (ThirdPartyInfo × Caveat)
external_party none cav = err no_locator
external_party (some locate) cav = do
  info ← from_option unknown_third_party (locate cav.location)
  ok (info, cav)

unfoldable pub third_party_of :
    Option Locator → Caveat → Option ThirdPartyInfo → Result MacaroonError (ThirdPartyInfo × Caveat)
unfolding external_party
third_party_of loc cav none = external_party loc cav
third_party_of loc cav (some info) = do
  check (is_empty cav.condition) local_condition
  ok (info, record cav { location = local_location; condition = true_condition })

abbrev pub encoded_caveat : Result CaveatError Bytes → Result MacaroonError Bytes
encoded_caveat (ok s) = ok s
encoded_caveat (err e) = err (bad_caveat e)

-- A slice, or another one where it is nil.
abbrev pub or_else : Option Bytes → Bytes → Bytes
or_else none s = s
or_else (some t) s = t

-- A macaroon after an addition, and its error.
abbrev pub Added : Type 0 → Type 0
Added M = Macaroon M × Option MacaroonError

module _ {M : Type 0} (p : Platform M) where
  abbrev pub set_m : Macaroon M → Option M → Added M
  set_m mac none = (mac, some library_failed)
  set_m mac (some m) = (record mac { m = m }, none)

  -- The id of a third party caveat: the encoded caveat, or a new one under which it is kept.
  unfoldable pub place_caveat :
      Macaroon M → Bytes → Version → Result MacaroonError (Bytes × Macaroon M)
  place_caveat mac info v = if is_before_v3 v then ok (info, mac) else (do
    id ← from_option out_of_ids (new_caveat_id p.lib mac mac.caveat_id_prefix)
    ok (id, record mac { caveat_data = insert id info mac.caveat_data }))

  -- The part of `AddCaveat` behind the look-up of the third party.
  unfoldable pub encode_third_party :
      Macaroon M
      → KeyPair
      → CaveatEntropy
      → ThirdPartyInfo × Caveat
      → Result MacaroonError (Bytes × Bytes × Macaroon M)
  unfolding place_caveat least_version is_before_v3
  encode_third_party mac key e (info, cav) = do
    root_key ← from_option no_random_secret e.root_key
    let v = least_version mac.version info.version
    encoded ← encoded_caveat (
        encode_caveat p.box p.encodings cav.condition root_key (record info { version = v }) key
          mac.namespace e.nonces)
    (id, mac') ← place_caveat mac encoded v
    ok (root_key, id, mac')

  -- The call of `AddThirdPartyCaveat`. If it fails, what was kept of the caveat stays.
  unfoldable pub finish_added :
      Macaroon M → Bytes → Result MacaroonError (Bytes × Bytes × Macaroon M) → Added M
  finish_added mac location (err e) = (mac, some e)
  finish_added mac location (ok (root_key, id, mac')) =
      set_m mac' (p.lib.add_third_party root_key id location mac'.m)

  unfoldable pub add_third_party_caveat :
      Macaroon M
      → KeyPair
      → CaveatEntropy
      → Result MacaroonError (ThirdPartyInfo × Caveat)
      → Added M
  unfolding encode_third_party finish_added
  add_third_party_caveat mac key e (err error) = (mac, some error)
  add_third_party_caveat mac key e (ok (info, cav)) =
      finish_added mac cav.location (encode_third_party mac key e (info, cav))

  -- `AddCaveat`
  unfoldable pub add_with_key :
      Macaroon M → Caveat → Option KeyPair → Option Locator → CaveatEntropy → Added M
  unfolding add_third_party_caveat third_party_of
  add_with_key mac cav none loc e = (mac, some no_private_key)
  add_with_key mac cav (some key) loc e =
      add_third_party_caveat mac key e
        (third_party_of loc cav (parse_local_location p.readers cav.location))

  unfoldable pub add_caveat :
      Macaroon M → Caveat → Option KeyPair → Option Locator → CaveatEntropy → Added M
  unfolding add_with_key
  add_caveat mac cav key loc e =
      if is_empty cav.location
      then set_m mac
          (p.lib.add_first_party (resolve_caveat p.unregistered mac.namespace cav).condition mac.m)
      else add_with_key mac cav key loc e

  -- `AddCaveats`, with what is random for each caveat. It stops at the first error.
  unfoldable pub add_caveats :
      Macaroon M → List Caveat → Option KeyPair → Option Locator → (ℕ → CaveatEntropy) → ℕ → Added M
  unfolding add_caveat
  add_caveats mac [] key loc e i = (mac, none)
  add_caveats mac (cav ∷ cavs) key loc e i =
      let added = add_caveat mac cav key loc (e i) in
      elim added.1 [ some error ↦ added | none ↦ add_caveats added.0 cavs key loc e (suc i) ]
