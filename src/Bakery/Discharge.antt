-- ===== src/Bakery/Discharge.antt =====
-- The discharge of third party caveats: bakery/discharge.go.
pub mod NeedDeclared
pub mod Composed
use macaroon_bakery.Prelude.{
  Bytes, ℕ, suc, ◌≡◌, Bool, true, false, not, ◌&&◌, ◌||◌, Option, none, some, List, [], ◌∷◌, ◌++◌,
  ltb, nat_beq, if◌then◌else◌, ◌==◌, bytes_eq, codes, Result, ok, err, ◌>>=◌, ◌>>◌, check,
  from_option, Map, take, drop,
}
use macaroon_bakery.Prelude.Sort.{contains}
use macaroon_bakery.Strings.Search.{index_byte, split_two}
use macaroon_bakery.Strings.Split.{split}
use macaroon_bakery.Checkers.Caveat.{
  Caveat, is_empty, blank, parse_caveat, cond_declared, cond_need_declared,
}
use macaroon_bakery.Checkers.Declared.{parts_of, declared_caveat}
use macaroon_bakery.Bakery.Crypto.{KeyPair}
use macaroon_bakery.Bakery.Codec.{CaveatError, ThirdPartyCaveatInfo, version2}
use macaroon_bakery.Bakery.Codec.Legacy.{Version, negative, at_version, decode_caveat}
use macaroon_bakery.Bakery.Keys.{Locator}
use macaroon_bakery.Bakery.Macaroon.{MacaroonError, Macaroon, CaveatEntropy, new_macaroon}
use macaroon_bakery.Bakery.Macaroon.Adding.{Platform, Added, or_else, add_caveat, add_caveats}

-- `LocalThirdPartyCaveat`, with the base64 text of the key and the decimal text of the version.
unfoldable pub local_third_party_caveat :
    (Bytes → Bytes) → (Version → Bytes) → Bytes → Version → Caveat
local_third_party_caveat key_text version_text key version = record {
  condition = [];
  namespace = [];
  location =
      if elim version [ negative ↦ true | at_version v ↦ ltb v version2 ]
      then codes "local " ++ key_text key
      else codes "local " ++ (version_text version ++ blank ∷ key_text key);
}

pub data DischargeError (Failure : Type 0) : Type 0 where
  cannot_decode : CaveatError → DischargeError Failure
  checker_failed : Failure → DischargeError Failure
  no_attributes empty_attribute no_declared_value : DischargeError Failure
  cannot_make : MacaroonError → DischargeError Failure

-- `ThirdPartyCaveatChecker`, which sees the id besides what was decoded.
abbrev pub CaveatChecker : Type 0 → Type 0
CaveatChecker Failure = Bytes → ThirdPartyCaveatInfo → Result Failure (List Caveat)

-- The part of a caveat before the first blank, and what is behind it, if the blank is not first.
unfoldable pub need_declared_parts : Bytes → Option ℕ → Option (Bytes × Bytes)
need_declared_parts arg none = none
need_declared_parts arg (some i) = if nat_beq i 0 then none else some (take i arg, drop (suc i) arg)

unfoldable pub has_empty : List Bytes → Bool
has_empty [] = false
has_empty (d ∷ ds) = let rest = has_empty ds in if is_empty d then true else rest

-- The last loop of `checkNeedDeclared`.
unfoldable pub add_missing : (Bytes → Bytes) → List Bytes → List Bytes → List Caveat → List Caveat
add_missing bad_key declared [] cavs = cavs
add_missing bad_key declared (d ∷ ds) cavs =
    add_missing bad_key declared ds
      (if contains declared d then cavs else cavs ++ declared_caveat bad_key d [] ∷ [])

module _ {Failure : Type 0} where
  abbrev pub checked : Result Failure (List Caveat) → Result (DischargeError Failure) (List Caveat)
  checked (ok cavs) = ok cavs
  checked (err e) = err (checker_failed e)

  -- What a caveat declares, in the loop of `checkNeedDeclared`.
  unfoldable pub declared_key : Caveat → Result (DischargeError Failure) (List Bytes)
  declared_key cav =
      let parts = parts_of (parse_caveat cav.condition) in
      if is_empty cav.location && parts.0 == cond_declared
      then elim (split_two parts.1 blank) [
        | none ↦ err no_declared_value
        | some kv ↦ ok (kv.0 ∷ [])
      ]
      else ok []

  unfoldable pub declared_keys : List Caveat → Result (DischargeError Failure) (List Bytes)
  unfolding declared_key
  declared_keys [] = ok []
  declared_keys (cav ∷ cavs) = do ks ← declared_key cav; rest ← declared_keys cavs; ok (ks ++ rest)

  -- `checkNeedDeclared` behind the search for the blank. A split is not empty.
  unfoldable pub check_need_parts :
      (Bytes → Bytes)
      → Bytes
      → ThirdPartyCaveatInfo
      → CaveatChecker Failure
      → Option (Bytes × Bytes)
      → Result (DischargeError Failure) (List Caveat)
  unfolding has_empty declared_keys add_missing
  check_need_parts bad_key id info checker none = err no_attributes
  check_need_parts bad_key id info checker (some (keys, rest)) = do
    let need_declared = split b',' keys
    check (not (has_empty need_declared)) empty_attribute
    caveats ← checked (checker id (record info { condition = rest }))
    declared ← declared_keys caveats
    ok (add_missing bad_key declared need_declared caveats)

  unfoldable pub check_need_declared :
      (Bytes → Bytes)
      → Bytes
      → ThirdPartyCaveatInfo
      → CaveatChecker Failure
      → Result (DischargeError Failure) (List Caveat)
  unfolding check_need_parts need_declared_parts
  check_need_declared bad_key id info checker =
      check_need_parts bad_key id info checker
        (need_declared_parts info.condition (index_byte info.condition blank))

  -- The choice of the check in `Discharge`, with the condition's name and argument.
  unfoldable pub check_caveat :
      (Bytes → Bytes)
      → Bytes
      → ThirdPartyCaveatInfo
      → CaveatChecker Failure
      → Bytes × Bytes
      → Result (DischargeError Failure) (List Caveat)
  unfolding check_need_declared
  check_caveat bad_key id info checker (cond, arg) =
      if cond == cond_need_declared
      then check_need_declared bad_key id (record info { condition = arg }) checker
      else checked (checker id info)

  abbrev pub decoded :
      Result CaveatError ThirdPartyCaveatInfo → Result (DischargeError Failure) ThirdPartyCaveatInfo
  decoded (ok d) = ok d
  decoded (err e) = err (cannot_decode e)

  abbrev pub made {ℓ} : {A : Type ℓ} → Result MacaroonError A → Result (DischargeError Failure) A
  made (ok a) = ok a
  made (err e) = err (cannot_make e)

  abbrev pub added {ℓ} : {A : Type ℓ} → A × Option MacaroonError → Result (DischargeError Failure) A
  added (a, none) = ok a
  added (a, some e) = err (cannot_make e)

-- `DischargeParams`; a nil caveat is `none`.
pub record DischargeParams (Failure : Type 0) : Type 0 where
  pub id : Bytes
  pub caveat : Option Bytes
  pub key : KeyPair
  pub checker : CaveatChecker Failure
  pub locator : Option Locator

abbrev pub or_empty : Option Bytes → Bytes → Bytes
or_empty none s = []
or_empty (some _) s = s

module _ {M Failure : Type 0} (p : Platform M) (bad_key : Bytes → Bytes) where
  -- `Discharge` behind the decoding of the caveat.
  unfoldable pub discharge_decoded :
      DischargeParams Failure
      → (ℕ → CaveatEntropy)
      → ThirdPartyCaveatInfo
      → Result (DischargeError Failure) (Macaroon M)
  unfolding check_caveat
  discharge_decoded d e info = do
    caveats ← check_caveat bad_key d.id info d.checker (parts_of (parse_caveat info.condition))
    mac ←
        made
          (new_macaroon p.lib info.root_key d.id [] (at_version info.version) (some info.namespace))
    added (
        add_caveats p (record mac { caveat_id_prefix = or_empty d.caveat d.id }) caveats
          (some d.key) d.locator e 0)

  -- `Discharge`, with what is random for each caveat that it adds.
  unfoldable pub discharge :
      DischargeParams Failure → (ℕ → CaveatEntropy) → Result (DischargeError Failure) (Macaroon M)
  unfolding discharge_decoded
  discharge d e = do
    info ← decoded (decode_caveat p.box p.encodings d.key (or_else d.caveat d.id))
    discharge_decoded d e info
