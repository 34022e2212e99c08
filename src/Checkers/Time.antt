-- ===== src/Checkers/Time.antt =====
-- Time-before caveats: bakery/checkers/time.go. A time is a number of nanoseconds from an origin
-- before every time that occurs; `time.Parse(time.RFC3339Nano, _)`, with `none` for its error, and
-- the UTC text of a time are parameters.
pub mod Laws
use macaroon_bakery.Prelude.{
  Bytes, ℕ, Bool, true, false, Option, none, some, List, [], ◌∷◌, ltb, if◌then◌else◌, ◌==◌,
  bytes_eq,
}
use macaroon_bakery.Checkers.Caveat.{
  Caveat, first_party, condition_with_prefix, parse_caveat, cond_time_before, std_namespace,
}
use macaroon_bakery.Checkers.Declared.{parts_of}
use macaroon_bakery.Checkers.Macaroons.{MacaroonCaveat}
use macaroon_bakery.Checkers.Namespace.{Namespace, resolve}

pub data TimeError : Type 0 where
  bad_time macaroon_expired : TimeError

-- `TimeBeforeCaveat`
unfoldable pub time_before_caveat : (ℕ → Bytes) → ℕ → Caveat
time_before_caveat format_time t = first_party cond_time_before (format_time t)

-- The condition that `ExpiryTime` looks for.
unfoldable pub time_before_cond : Option Namespace → Bytes
time_before_cond ns = condition_with_prefix (resolve ns std_namespace).0 cond_time_before

-- `if !expires || et.Before(t) { t = et; expires = true }`, with `none` for not `expires`.
unfoldable pub earlier : Option ℕ → ℕ → Option ℕ
earlier none et = some et
earlier (some t) et = if ltb et t then some et else some t

module _ (parse_time : Bytes → Option ℕ) where
  -- `checkTimeBefore`, at the time that the clock of the context or the wall clock shows.
  unfoldable pub check_time_before : ℕ → Bytes → Option TimeError
  check_time_before now arg = elim (parse_time arg) [
    | none ↦ some bad_time
    | some t ↦ if ltb now t then none else some macaroon_expired
  ]

  -- The time that a caveat sets, if its name is that of the condition and its time parses.
  unfoldable pub caveat_time : Bytes → MacaroonCaveat → Option ℕ
  caveat_time cond cav =
      let parts = parts_of (parse_caveat cav.id) in
      if parts.0 == cond then parse_time parts.1 else none

  unfoldable pub expiry_step : Option ℕ → Option ℕ → Option ℕ
  unfolding earlier
  expiry_step t none = t
  expiry_step t (some et) = earlier t et

  unfoldable pub expiry_loop : Bytes → List MacaroonCaveat → Option ℕ → Option ℕ
  unfolding expiry_step
  expiry_loop cond [] t = t
  expiry_loop cond (cav ∷ cavs) t = expiry_loop cond cavs (expiry_step t (caveat_time cond cav))

  -- `ExpiryTime`, with `none` for `(_, false)`.
  unfoldable pub expiry_time : Option Namespace → List MacaroonCaveat → Option ℕ
  unfolding time_before_cond expiry_loop
  expiry_time ns cavs = expiry_loop (time_before_cond ns) cavs none

  module _ {Macaroon : Type 0} (caveats : Macaroon → List MacaroonCaveat) where
    unfoldable pub macaroons_loop : Option Namespace → List Macaroon → Option ℕ → Option ℕ
    unfolding expiry_step
    macaroons_loop ns [] t = t
    macaroons_loop ns (m ∷ ms) t = macaroons_loop ns ms (expiry_step t (expiry_time ns (caveats m)))

    -- `MacaroonsExpiryTime`
    unfoldable pub macaroons_expiry_time : Option Namespace → List Macaroon → Option ℕ
    unfolding macaroons_loop
    macaroons_expiry_time ns ms = macaroons_loop ns ms none
