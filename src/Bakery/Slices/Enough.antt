-- ===== src/Bakery/Slices/Enough.antt =====
-- The rounds of the loop of `Slice.DischargeAll`: bakery/slice.go.
use macaroon_bakery.Prelude.{
  Bytes, ℕ, zero, suc, ◌+◌, ◌<◌, ◌≡◌, refl, ◌∙◌, Option, some, List, [], ◌∷◌, ◌++◌, inl, inr,
  Result, ok, Result-cases, map, arith,
}
use macaroon_bakery.Checkers.Macaroons.{MacaroonCaveat}
use macaroon_bakery.Bakery.Crypto.{KeyPair}
use macaroon_bakery.Bakery.Macaroon.{MacaroonLib, Macaroon, CaveatEntropy}
use macaroon_bakery.Bakery.Macaroon.Adding.{Platform}
use macaroon_bakery.Bakery.Slices.{
  NeedCaveat, needed, all_needed, gather, GatherError, acquire, discharge_slice,
}
use macaroon_bakery.Bakery.Slices.Covered.{gather_ok, gather_err}

-- The sum of the weights of caveats.
abbrev pub weight : (NeedCaveat → ℕ) → List NeedCaveat → ℕ
weight w [] = 0
weight w (c ∷ cs) = w c + weight w cs

weight-append :
    (w : NeedCaveat → ℕ) (cs ds : List NeedCaveat) → weight w (cs ++ ds) ≡ weight w cs + weight w ds
weight-append w [] ds = omega arith
weight-append w (c ∷ cs) ds = omega (arith, weight-append w cs ds)

module _ {M E : Type 0} (lib : MacaroonLib M) (have : List Bytes)
    (acquire : ℕ → NeedCaveat → Result E (Macaroon M)) (w : NeedCaveat → ℕ) where
  abbrev Finishes : ℕ → ℕ → List (Macaroon M) → List NeedCaveat → List E → Type 0
  Finishes n k ms need errs =
      (result : List (Macaroon M) × List E) × (gather lib have acquire n k ms need errs
        ≡ some result)

  gather-Finishes :
      ((c : NeedCaveat) → 0 < w c)
      → ((k : ℕ) (c : NeedCaveat) (dm : Macaroon M)
          → acquire k c ≡ ok dm
          → weight w (needed lib have dm) < w c)
      → (n k : ℕ) (ms : List (Macaroon M)) (need : List NeedCaveat) (errs : List E)
      → weight w need < n
      → Finishes n k ms need errs
  gather-Finishes pos falls zero k ms need errs h = absurd (omega arith)
  gather-Finishes pos falls (suc n) k ms [] errs h = unfold gather in ((ms, errs), refl)
  gather-Finishes pos falls (suc n) k ms (c ∷ cs) errs h = elim (Result-cases (acquire k c)) [
    | inl (dm, got) ↦
        let (result, done) =
          gather-Finishes pos falls n (suc k) (ms ++ dm ∷ []) (cs ++ needed lib have dm) errs
            (omega (arith, falls k c dm got, weight-append w cs (needed lib have dm))) in
        (result, gather_ok lib have acquire n k ms c cs errs dm got ∙ done)
    | inr (e, failed) ↦
        let (result, done) =
          gather-Finishes pos falls n (suc k) ms cs (errs ++ e ∷ []) (omega (arith, pos c)) in
        (result, gather_err lib have acquire n k ms c cs errs e failed ∙ done)
  ]

module _ {M Failure : Type 0} (p : Platform M) (bad_key : Bytes → Bytes)
    (get : ℕ → MacaroonCaveat → Option Bytes → Result Failure (Macaroon M)) (key : Option KeyPair)
    (e : ℕ → ℕ → CaveatEntropy) where
  -- `Slice.DischargeAll` ends, after fewer rounds than the given number, if caveats have positive
  -- weights such that those which a discharge adds weigh less together than the caveat that it
  -- discharges, and those needed at first weigh less than the number.
  pub discharge_slice-finishes :
      (w : NeedCaveat → ℕ) (n : ℕ) (primary : Macaroon M) (discharges : List (Macaroon M))
      → ((c : NeedCaveat) → 0 < w c)
      → ((k : ℕ) (c : NeedCaveat) (dm : Macaroon M)
          → acquire p bad_key get key e k c ≡ ok dm
          → weight w (needed p.lib (map (λ (d : Macaroon M). p.lib.id_of d.m) discharges) dm) < w c)
      → weight w (
          all_needed p.lib
            (map (λ (d : Macaroon M). p.lib.id_of d.m) discharges)
            (primary ∷ discharges))
        < n
      → (result : List (Macaroon M) × List (GatherError Failure)) × (discharge_slice p bad_key get
            key e n
            (primary ∷ discharges)
          ≡ some result)
  unfolding discharge_slice
  discharge_slice-finishes w n primary discharges pos falls h =
      let have = map (λ (d : Macaroon M). p.lib.id_of d.m) discharges in
      gather-Finishes p.lib have (acquire p bad_key get key e) w pos falls n 0
        (primary ∷ discharges) (all_needed p.lib have (primary ∷ discharges)) [] h
