-- ===== src/Auth/Squash.antt =====
-- The squashing of first party conditions: `caveatSquasher` and `AuthInfo.Conditions` of
-- bakery/checker.go. `zero_time` is the number of Go's zero time.
pub mod Compact
pub mod Laws
use macaroon_bakery.Prelude.{
  Bytes, ℕ, Bool, true, false, ◌||◌, Option, none, some, List, [], ◌∷◌, ◌++◌, nat_beq, ltb,
  if◌then◌else◌, ◌==◌, bytes_eq, Result, ok, err,
}
use macaroon_bakery.Prelude.Sort.{sort_strings}
use macaroon_bakery.Checkers.Caveat.{
  Caveat, condition, ParseError, parse_caveat, cond_time_before, is_empty,
}
use macaroon_bakery.Checkers.Macaroons.{MacaroonCaveat}
use macaroon_bakery.Checkers.Time.{time_before_caveat}
use macaroon_bakery.Auth.{AuthInfo}

-- `caveatSquasher`
pub record Squasher : Type 0 where
  pub expiry : ℕ
  pub conds : List Bytes

-- The loop of `final` that drops what equals the condition before it.
unfoldable pub compact_from : Bytes → List Bytes → List Bytes
compact_from prev [] = []
compact_from prev (cond ∷ conds) =
    let dropped = compact_from prev conds in
    let kept = compact_from cond conds in if cond == prev then dropped else cond ∷ kept

unfoldable pub compact : List Bytes → List Bytes
unfolding compact_from
compact [] = []
compact (cond ∷ conds) = cond ∷ compact_from cond conds

module _ (parse_time : Bytes → Option ℕ) (zero_time : ℕ) where
  -- A time that parses and is not the zero time.
  unfoldable pub set_time : Option ℕ → Option ℕ
  set_time none = none
  set_time (some t) = if nat_beq t zero_time then none else some t

  -- The time that `add0` takes from a condition, with `none` for a condition that it leaves alone.
  unfoldable pub squashed_time : Result ParseError (Bytes × Bytes) → Option ℕ
  unfolding set_time
  squashed_time (err e) = none
  squashed_time (ok (cond, args)) =
      if cond == cond_time_before then set_time (parse_time args) else none

  -- `if c.expiry.IsZero() || et.Before(c.expiry) { c.expiry = et }`
  unfoldable pub lower_expiry : ℕ → Squasher → Squasher
  lower_expiry et c =
      if nat_beq c.expiry zero_time || ltb et c.expiry then record c { expiry = et } else c

  -- `add`, with the time that `add0` takes.
  unfoldable pub add_timed : Bytes → Squasher → Option ℕ → Squasher
  unfolding lower_expiry
  add_timed cond c none = record c { conds = c.conds ++ cond ∷ [] }
  add_timed cond c (some et) = lower_expiry et c

  unfoldable pub add : Bytes → Squasher → Squasher
  unfolding squashed_time add_timed
  add cond c = add_timed cond c (squashed_time (parse_caveat cond))

  unfoldable pub add_all : List Bytes → Squasher → Squasher
  unfolding add
  add_all [] c = c
  add_all (cond ∷ conds) c = add_all conds (add cond c)

-- The first party conditions of caveats.
unfoldable pub unverified_conditions : List MacaroonCaveat → List Bytes
unverified_conditions [] = []
unverified_conditions (cav ∷ cavs) =
    let rest = unverified_conditions cavs in
    if is_empty cav.verification_id then cav.id ∷ rest else rest

module _ (parse_time : Bytes → Option ℕ) (format_time : ℕ → Bytes) (zero_time : ℕ) where
  unfoldable pub final : Squasher → List Bytes
  unfolding compact
  final c =
      if nat_beq c.expiry zero_time
      then compact (sort_strings c.conds)
      else compact
          (sort_strings (c.conds ++ (time_before_caveat format_time c.expiry).condition ∷ []))

  -- A new squasher to which the conditions are added, and its answer.
  unfoldable pub squash : List Bytes → List Bytes
  unfolding add_all final
  squash conds =
      final (add_all parse_time zero_time conds (record { expiry = zero_time; conds = [] }))

  module _ {Slice : Type 0} (caveats : Slice → List MacaroonCaveat) where
    -- The conditions of the slices that were used.
    unfoldable pub used_conditions : List Slice → List Bool → List Bytes
    unfolding unverified_conditions
    used_conditions [] used = []
    used_conditions (ms ∷ mss) [] = []
    used_conditions (ms ∷ mss) (false ∷ used) = used_conditions mss used
    used_conditions (ms ∷ mss) (true ∷ used) =
        unverified_conditions (caveats ms) ++ used_conditions mss used

    -- `Conditions`, where `caveats` gives those of all macaroons of a slice in turn.
    unfoldable pub conditions : AuthInfo Slice → List Bytes
    unfolding squash used_conditions
    conditions info = squash (used_conditions info.macaroons info.used)
