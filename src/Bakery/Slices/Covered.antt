-- ===== src/Bakery/Slices/Covered.antt =====
-- What `Slice.DischargeAll` of bakery/slice.go has when it succeeds.
use mathlib.Core.Path.{subst}
use mathlib.Core.List.{Memᴰ}
use mathlib.Core.List.Memᴰ
use macaroon_bakery.Prelude.{
  Bytes, ℕ, zero, suc, ◌≡◌, refl, sym, ◌∙◌, Option, some, List, [], ◌∷◌, ◌++◌, ◌⊎◌, inl, inr,
  Result, ok, err, Result-cases, map, arith,
}
use macaroon_bakery.Checkers.Macaroons.{MacaroonCaveat}
use macaroon_bakery.Bakery.Crypto.{KeyPair}
use macaroon_bakery.Bakery.Macaroon.{MacaroonLib, Macaroon, CaveatEntropy}
use macaroon_bakery.Bakery.Macaroon.Adding.{Platform}
use macaroon_bakery.Bakery.Slices.{NeedCaveat, needed, all_needed, gather, acquire, discharge_slice}

append-ne-nil : {A : Type 0} (xs : List A) (x : A) → xs ++ x ∷ [] ≡ [] → ⊥
append-ne-nil [] x h = absurd (cc)
append-ne-nil (y ∷ xs) x h = absurd (cc)

module _ {M E : Type 0} (lib : MacaroonLib M) (have : List Bytes)
    (acquire : ℕ → NeedCaveat → Result E (Macaroon M)) where
  -- A discharge of the caveat was acquired and is among the macaroons.
  abbrev IsAcquired : List (Macaroon M) → NeedCaveat → Type 0
  IsAcquired ms c = (k : ℕ) × (dm : Macaroon M) × (acquire k c ≡ ok dm) × Memᴰ dm ms

  abbrev IsCovered : List (Macaroon M) → List NeedCaveat → Type 0
  IsCovered ms need =
      (m : Macaroon M) (c : NeedCaveat)
      → Memᴰ m ms
      → Memᴰ c (needed lib have m)
      → Memᴰ c need ⊎ IsAcquired ms c

  IsAcquired-append :
      (ms ns : List (Macaroon M)) (c : NeedCaveat) → IsAcquired ms c → IsAcquired (ms ++ ns) c
  IsAcquired-append ms ns c (k, dm, got, in_ms) = (k, dm, got, Memᴰ.append_left ns in_ms)

  cover_acquired :
      (k : ℕ) (ms : List (Macaroon M)) (c : NeedCaveat) (cs : List NeedCaveat) (dm : Macaroon M)
      → acquire k c ≡ ok dm
      → IsCovered ms (c ∷ cs)
      → IsCovered (ms ++ dm ∷ []) (cs ++ needed lib have dm)
  cover_acquired k ms c cs dm got cover m c' in_ms in_m = elim (Memᴰ.append_cases ms in_ms) [
    | inl old ↦ elim (cover m c' old in_m) [
      | inl (Memᴰ.head e) ↦ inr (k, dm, rw e got, Memᴰ.append_right ms (Memᴰ.head refl))
      | inl (Memᴰ.tail later) ↦ inl (Memᴰ.append_left (needed lib have dm) later)
      | inr got' ↦ inr (IsAcquired-append ms (dm ∷ []) c' got')
    ]
    | inr (Memᴰ.head e) ↦ inl (Memᴰ.append_right cs (rw (← e) in_m))
    | inr (Memᴰ.tail none_left) ↦ absurd (Memᴰ.not-nil none_left)
  ]

  pub gather_ok :
      (n k : ℕ) (ms : List (Macaroon M)) (c : NeedCaveat) (cs : List NeedCaveat) (errs : List E)
      (dm : Macaroon M)
      → acquire k c ≡ ok dm
      → gather lib have acquire (suc n) k ms (c ∷ cs) errs
        ≡ gather lib have acquire n (suc k) (ms ++ dm ∷ []) (cs ++ needed lib have dm) errs
  unfolding gather
  gather_ok n k ms c cs errs dm got = rw (gather, got) refl

  pub gather_err :
      (n k : ℕ) (ms : List (Macaroon M)) (c : NeedCaveat) (cs : List NeedCaveat) (errs : List E)
      (e : E)
      → acquire k c ≡ err e
      → gather lib have acquire (suc n) k ms (c ∷ cs) errs
        ≡ gather lib have acquire n (suc k) ms cs (errs ++ e ∷ [])
  unfolding gather
  gather_err n k ms c cs errs e failed = rw (gather, failed) refl

  -- An error stays.
  gather-no_errs :
      (n k : ℕ) (ms ms' : List (Macaroon M)) (need : List NeedCaveat) (errs : List E)
      → gather lib have acquire n k ms need errs ≡ some (ms', [])
      → errs ≡ []
  gather-no_errs zero k ms ms' need errs h = absurd (unfold gather in cc)
  gather-no_errs (suc n) k ms ms' [] errs h = unfold gather in ground arith
  gather-no_errs (suc n) k ms ms' (c ∷ cs) errs h = elim (Result-cases (acquire k c)) [
    | inl (dm, got) ↦
        gather-no_errs n (suc k) (ms ++ dm ∷ []) ms' (cs ++ needed lib have dm) errs
          (sym (gather_ok n k ms c cs errs dm got) ∙ h)
    | inr (e, failed) ↦ absurd (
        append-ne-nil errs e (
          gather-no_errs n (suc k) ms ms' cs (errs ++ e ∷ [])
            (sym (gather_err n k ms c cs errs e failed) ∙ h)))
  ]

  pub gather-IsCovered :
      (n k : ℕ) (ms ms' : List (Macaroon M)) (need : List NeedCaveat) (errs : List E)
      → gather lib have acquire n k ms need errs ≡ some (ms', [])
      → IsCovered ms need
      → IsCovered ms' []
  gather-IsCovered zero k ms ms' need errs h cover = absurd (unfold gather in cc)
  gather-IsCovered (suc n) k ms ms' [] errs h cover =
      let same : ms ≡ ms' = unfold gather in ground arith in
      subst (λ ns. IsCovered ns []) same cover
  gather-IsCovered (suc n) k ms ms' (c ∷ cs) errs h cover = elim (Result-cases (acquire k c)) [
    | inl (dm, got) ↦
        gather-IsCovered n (suc k) (ms ++ dm ∷ []) ms' (cs ++ needed lib have dm) errs
          (sym (gather_ok n k ms c cs errs dm got) ∙ h) (cover_acquired k ms c cs dm got cover)
    | inr (e, failed) ↦ absurd (
        append-ne-nil errs e (
          gather-no_errs n (suc k) ms ms' cs (errs ++ e ∷ [])
            (sym (gather_err n k ms c cs errs e failed) ∙ h)))
  ]

  -- At the start, what is needed is to be acquired.
  pub all_needed-IsCovered : (ms : List (Macaroon M)) → IsCovered ms (all_needed lib have ms)
  unfolding all_needed
  all_needed-IsCovered ms m c in_ms in_m = inl (all_needed-holds ms in_ms)
    where
      all_needed-holds : (ns : List (Macaroon M)) → Memᴰ m ns → Memᴰ c (all_needed lib have ns)
      all_needed-holds [] none_left = absurd (Memᴰ.not-nil none_left)
      all_needed-holds (n ∷ ns) (Memᴰ.head e) =
          Memᴰ.append_left (all_needed lib have ns) (rw (← e) in_m)
      all_needed-holds (n ∷ ns) (Memᴰ.tail later) =
          Memᴰ.append_right (needed lib have n) (all_needed-holds ns later)

module _ {M Failure : Type 0} (p : Platform M) (bad_key : Bytes → Bytes)
    (get : ℕ → MacaroonCaveat → Option Bytes → Result Failure (Macaroon M)) (key : Option KeyPair)
    (e : ℕ → ℕ → CaveatEntropy) where
  -- Where `Slice.DischargeAll` returns no error, for each third party caveat of each macaroon of
  -- the slice that it returns, those of the discharges included, whose id is not that of a
  -- macaroon given with the primary one, a discharge was acquired and is in the slice.
  pub discharge_slice-covers :
      (n : ℕ) (primary : Macaroon M) (discharges ms : List (Macaroon M)) (m : Macaroon M)
      (c : NeedCaveat)
      → discharge_slice p bad_key get key e n (primary ∷ discharges) ≡ some (ms, [])
      → Memᴰ m ms
      → Memᴰ c (needed p.lib (map (λ (d : Macaroon M). p.lib.id_of d.m) discharges) m)
      → (k : ℕ) × (dm : Macaroon M) × (acquire p bad_key get key e k c ≡ ok dm) × Memᴰ dm ms
  unfolding discharge_slice
  discharge_slice-covers n primary discharges ms m c h in_ms in_m =
      let have = map (λ (d : Macaroon M). p.lib.id_of d.m) discharges in
      let got = acquire p bad_key get key e in
      elim (gather-IsCovered p.lib have got n 0 (primary ∷ discharges) ms
        (all_needed p.lib have (primary ∷ discharges)) [] h
        (all_needed-IsCovered p.lib have got (primary ∷ discharges)) m c in_ms in_m) [
          | inl none_left ↦ absurd (Memᴰ.not-nil none_left)
          | inr acquired ↦ acquired
        ]
