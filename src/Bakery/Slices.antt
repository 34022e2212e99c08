-- ===== src/Bakery/Slices.antt =====
-- Slices of macaroons, and the gathering of their discharges: bakery/slice.go and
-- bakery/dischargeall.go.
pub mod Covered
pub mod Enough
use macaroon_bakery.Prelude.{
  Bytes, ℕ, zero, suc, Bool, true, false, ◌&&◌, ◌||◌, Option, none, some, List, [], ◌∷◌, ◌++◌, map,
  ltb, if◌then◌else◌, ◌==◌, bytes_eq, Result, ok, err, lookup, Map,
}
use macaroon_bakery.Prelude.Sort.{contains}
use macaroon_bakery.Checkers.Caveat.{Caveat, is_empty}
use macaroon_bakery.Checkers.Macaroons.{MacaroonCaveat}
use macaroon_bakery.Checkers.Time.{expiry_time}
use macaroon_bakery.Bakery.Crypto.{KeyPair}
use macaroon_bakery.Bakery.Codec.{ThirdPartyCaveatInfo}
use macaroon_bakery.Bakery.Keys.{empty_locator}
use macaroon_bakery.Bakery.Macaroon.{MacaroonLib, Macaroon, CaveatEntropy}
use macaroon_bakery.Bakery.Macaroon.Adding.{Platform, local_location, true_condition}
use macaroon_bakery.Bakery.Discharge.{CaveatChecker, DischargeError, discharge}

module _ {M : Type 0} (lib : MacaroonLib M) where
  -- `Slice.Bind`. The discharges are bound to the signature of the first macaroon.
  unfoldable pub bind_slice : List (Macaroon M) → List M
  bind_slice [] = []
  bind_slice (m ∷ ms) = m.m ∷ map (λ d. lib.bind (lib.signature_of m.m) d.m) ms

  -- `!ok || et.After(t)`
  unfoldable pub lives_after : ℕ → Option ℕ → Bool
  lives_after t none = true
  lives_after t (some et) = ltb t et

  unfoldable pub is_live : (Bytes → Option ℕ) → ℕ → Macaroon M → Bool
  unfolding lives_after
  is_live parse_time t m = lives_after t (expiry_time parse_time m.namespace (lib.caveats_of m.m))

  -- The loop of `Slice.Purge` behind the first macaroon.
  unfoldable pub purge_discharges : (Bytes → Option ℕ) → ℕ → List (Macaroon M) → List (Macaroon M)
  unfolding is_live
  purge_discharges parse_time t [] = []
  purge_discharges parse_time t (m ∷ ms) =
      let rest = purge_discharges parse_time t ms in
      if is_live parse_time t m then m ∷ rest else rest

  -- `Slice.Purge`
  unfoldable pub purge : (Bytes → Option ℕ) → ℕ → List (Macaroon M) → List (Macaroon M)
  unfolding purge_discharges
  purge parse_time t [] = []
  purge parse_time t (m ∷ ms) =
      if is_live parse_time t m then m ∷ purge_discharges parse_time t ms else []

-- `needCaveat`; an encrypted caveat that is not held is `none`.
pub record NeedCaveat : Type 0 where
  pub cav : MacaroonCaveat
  pub encrypted_caveat : Option Bytes

-- `addCaveats` of `Slice.DischargeAll`: what it adds for the caveats of a macaroon.
unfoldable pub needed_of : List Bytes → Map Bytes Bytes → List MacaroonCaveat → List NeedCaveat
needed_of have kept [] = []
needed_of have kept (cav ∷ cavs) =
    let rest = needed_of have kept cavs in
    if is_empty cav.verification_id || contains have cav.id
    then rest
    else record { cav = cav; encrypted_caveat = lookup cav.id kept } ∷ rest

module _ {M : Type 0} (lib : MacaroonLib M) (have : List Bytes) where
  unfoldable pub needed : Macaroon M → List NeedCaveat
  unfolding needed_of
  needed m = needed_of have m.caveat_data (lib.caveats_of m.m)

  unfoldable pub all_needed : List (Macaroon M) → List NeedCaveat
  unfolding needed
  all_needed [] = []
  all_needed (m ∷ ms) = needed m ++ all_needed ms

  -- The loop of `Slice.DischargeAll` for so many rounds, of which it has made `k`: `none` means that
  -- they ran out. The result has the macaroons and the errors.
  unfoldable pub gather :
      {E : Type 0}
      → (ℕ → NeedCaveat → Result E (Macaroon M))
      → ℕ
      → ℕ
      → List (Macaroon M)
      → List NeedCaveat
      → List E
      → Option (List (Macaroon M) × List E)
  unfolding needed
  gather acquire zero k ms need errs = none
  gather acquire (suc n) k ms [] errs = some (ms, errs)
  gather acquire (suc n) k ms (c ∷ cs) errs = elim (acquire k c) [
    | ok dm ↦ gather acquire n (suc k) (ms ++ dm ∷ []) (cs ++ needed dm) errs
    | err e ↦ gather acquire n (suc k) ms cs (errs ++ e ∷ [])
  ]

-- `localDischargeChecker`
pub data LocalFailure : Type 0 where
  caveat_not_recognized : LocalFailure

unfoldable pub local_discharge_checker : CaveatChecker LocalFailure
local_discharge_checker id info =
    if info.condition == true_condition then ok [] else err caveat_not_recognized

pub data GatherError (Failure : Type 0) : Type 0 where
  no_macaroons : GatherError Failure
  local_failed : DischargeError LocalFailure → GatherError Failure
  get_failed : Failure → GatherError Failure

module _ {M Failure : Type 0} (p : Platform M) (bad_key : Bytes → Bytes) where
  abbrev pub from_local :
      Result (DischargeError LocalFailure) (Macaroon M) → Result (GatherError Failure) (Macaroon M)
  from_local (ok m) = ok m
  from_local (err e) = err (local_failed e)

  abbrev pub from_getter : Result Failure (Macaroon M) → Result (GatherError Failure) (Macaroon M)
  from_getter (ok m) = ok m
  from_getter (err e) = err (get_failed e)

  -- The body of the loop of `Slice.DischargeAll`: the discharge of a caveat in round `k`. What the
  -- getter gives, and what is random, may depend on the round.
  unfoldable pub acquire :
      (ℕ → MacaroonCaveat → Option Bytes → Result Failure (Macaroon M))
      → Option KeyPair
      → (ℕ → ℕ → CaveatEntropy)
      → ℕ
      → NeedCaveat
      → Result (GatherError Failure) (Macaroon M)
  unfolding local_discharge_checker
  acquire get none e k c = from_getter (get k c.cav c.encrypted_caveat)
  acquire get (some key) e k c =
      if c.cav.location == local_location
      then from_local (
          discharge p bad_key
            (record {
              id = c.cav.id;
              caveat = c.encrypted_caveat;
              key = key;
              checker = local_discharge_checker;
              locator = some empty_locator;
            })
            (e k))
      else from_getter (get k c.cav c.encrypted_caveat)

  -- `Slice.DischargeAll`, for so many rounds.
  unfoldable pub discharge_slice :
      (ℕ → MacaroonCaveat → Option Bytes → Result Failure (Macaroon M))
      → Option KeyPair
      → (ℕ → ℕ → CaveatEntropy)
      → ℕ
      → List (Macaroon M)
      → Option (List (Macaroon M) × List (GatherError Failure))
  unfolding gather all_needed
  discharge_slice get key e n [] = some ([], no_macaroons ∷ [])
  discharge_slice get key e n (m ∷ ms) =
      let have = map (λ (d : Macaroon M). p.lib.id_of d.m) ms in
      gather p.lib have (acquire get key e) n 0 (m ∷ ms) (all_needed p.lib have (m ∷ ms)) []

  unfoldable pub bound :
      Option (List (Macaroon M) × List (GatherError Failure))
      → Option (Result (GatherError Failure) (List M))
  unfolding bind_slice
  bound none = none
  bound (some (ms, e ∷ errs)) = some (err e)
  bound (some (ms, [])) = some (ok (bind_slice p.lib ms))

  -- `DischargeAllWithKey`, for so many rounds; `DischargeAll` is the case without a key.
  unfoldable pub discharge_all_with_key :
      Macaroon M
      → (ℕ → MacaroonCaveat → Option Bytes → Result Failure (Macaroon M))
      → Option KeyPair
      → (ℕ → ℕ → CaveatEntropy)
      → ℕ
      → Option (Result (GatherError Failure) (List M))
  unfolding discharge_slice bound
  discharge_all_with_key m get key e n = bound (discharge_slice get key e n (m ∷ []))
