-- ===== src/Checkers/Time/Laws.antt =====
-- What `ExpiryTime` and `MacaroonsExpiryTime` say of the checks of the caveats.
use macaroon_bakery.Prelude.{
  Bytes, ℕ, ◌<◌, ◌≡◌, ◌↔◌, refl, Option, none, some, List, [], ◌∷◌, arith, ◌==◌, bytes_eq,
  bytes_beq_iff, ltb, All, Option-cases, Bool-cases, inl, inr,
}
use macaroon_bakery.Checkers.Caveat.{parse_caveat}
use macaroon_bakery.Checkers.Declared.{parts_of}
use macaroon_bakery.Checkers.Macaroons.{MacaroonCaveat}
use macaroon_bakery.Checkers.Namespace.{Namespace}
use macaroon_bakery.Checkers.Time.{
  check_time_before, caveat_time, expiry_step, expiry_loop, expiry_time, time_before_cond,
  macaroons_loop, macaroons_expiry_time,
}

-- Is the time after now? `none` sets no bound.
abbrev pub IsBefore : ℕ → Option ℕ → Type 0
IsBefore now none = Unit
IsBefore now (some t) = now < t

module _ (parse_time : Bytes → Option ℕ) where
  -- Does the caveat pass at a time, if it is a time-before caveat whose time parses?
  abbrev pub PassesAt : Bytes → ℕ → MacaroonCaveat → Type 0
  PassesAt cond now cav =
      (parts_of (parse_caveat cav.id)).0 ≡ cond
      → (t : ℕ) → parse_time (parts_of (parse_caveat cav.id)).1 ≡ some t
      → check_time_before parse_time now (parts_of (parse_caveat cav.id)).1 ≡ none

  step_iff :
      (now : ℕ) (t et : Option ℕ)
      → IsBefore now (expiry_step parse_time t et) ↔ (IsBefore now t × IsBefore now et)
  unfolding expiry_step
  step_iff now none none = (λ h. (tt, tt), λ h. tt)
  step_iff now (some t) none = (λ h. (h, tt), λ h. h.0)
  step_iff now none (some e) = (λ h. (tt, h), λ h. h.1)
  step_iff now (some t) (some e) = elim (Bool-cases (ltb e t)) [
    | inl less ↦ rw less (ground arith)
    | inr more ↦ rw more (ground arith)
  ]

  caveat_iff :
      (cond : Bytes) (now : ℕ) (cav : MacaroonCaveat)
      → IsBefore now (caveat_time parse_time cond cav) ↔ PassesAt cond now cav
  unfolding caveat_time check_time_before
  caveat_iff cond now cav =
      let parts = parts_of (parse_caveat cav.id) in
      elim (Bool-cases (parts.0 == cond)) [
        | inr other ↦ rw other (λ _ e. cc ((bytes_beq_iff parts.0 cond).1 e, other), λ _. tt)
        | inl same ↦ elim (Option-cases (parse_time parts.1)) [
          | inl bad ↦ rw (same, bad) (λ _ e t p. cc, λ _. tt)
          | inr (t, good) ↦
              rw (same, good)
                (
                  λ h e t' p. ground arith,
                  λ h. ground (arith, h ((bytes_beq_iff parts.0 cond).0 same) t refl),
                )
        ]
      ]

  loop_iff :
      (cond : Bytes) (now : ℕ) (cavs : List MacaroonCaveat) (t : Option ℕ)
      → IsBefore now (expiry_loop parse_time cond cavs t)
        ↔ (IsBefore now t × All (PassesAt cond now) cavs)
  unfolding expiry_loop
  loop_iff cond now [] t = (λ h. (h, tt), λ h. h.0)
  loop_iff cond now (cav ∷ cavs) t =
      let ih =
        loop_iff cond now cavs (expiry_step parse_time t (caveat_time parse_time cond cav)) in
      let step = step_iff now t (caveat_time parse_time cond cav) in
      let one = caveat_iff cond now cav in
      (
        λ h. let (a, rest) = ih.0 h in let (b, c) = step.0 a in (b, (one.0 c, rest)),
        λ h. ih.1 (step.1 (h.0, one.1 h.1.0), h.1.1),
      )

  -- A time is before the expiry time of some caveats exactly where every time-before caveat
  -- passes then, of those whose time parses.
  pub expiry_time_iff :
      (ns : Option Namespace) (now : ℕ) (cavs : List MacaroonCaveat)
      → IsBefore now (expiry_time parse_time ns cavs)
        ↔ All (PassesAt (time_before_cond ns) now) cavs
  unfolding expiry_time
  expiry_time_iff ns now cavs =
      let loop = loop_iff (time_before_cond ns) now cavs none in
      (λ h. (loop.0 h).1, λ h. loop.1 (tt, h))

module _ (parse_time : Bytes → Option ℕ) {Macaroon : Type 0}
    (caveats : Macaroon → List MacaroonCaveat) (ns : Option Namespace) (now : ℕ) where
  AllPass : Macaroon → Type 0
  AllPass m = All (PassesAt parse_time (time_before_cond ns) now) (caveats m)

  macaroons_loop_iff :
      (ms : List Macaroon) (t : Option ℕ)
      → IsBefore now (macaroons_loop parse_time caveats ns ms t) ↔ (IsBefore now t × All AllPass ms)
  unfolding macaroons_loop AllPass
  macaroons_loop_iff [] t = (λ h. (h, tt), λ h. h.0)
  macaroons_loop_iff (m ∷ ms) t =
      let et = expiry_time parse_time ns (caveats m) in
      let ih = macaroons_loop_iff ms (expiry_step parse_time t et) in
      let step = step_iff parse_time now t et in
      let one = expiry_time_iff parse_time ns now (caveats m) in
      (
        λ h. let (a, rest) = ih.0 h in let (b, c) = step.0 a in (b, (one.0 c, rest)),
        λ h. ih.1 (step.1 (h.0, one.1 h.1.0), h.1.1),
      )

  -- A time is before the expiry time of some macaroons exactly where all their time-before
  -- caveats pass then, of those whose time parses.
  pub macaroons_expiry_time_iff :
      (ms : List Macaroon)
      → IsBefore now (macaroons_expiry_time parse_time caveats ns ms)
        ↔ All (λ m. All (PassesAt parse_time (time_before_cond ns) now) (caveats m)) ms
  unfolding macaroons_expiry_time AllPass
  macaroons_expiry_time_iff ms =
      let loop = macaroons_loop_iff ms none in (λ h. (loop.0 h).1, λ h. loop.1 (tt, h))
