-- ===== src/Bakery/Discharge/NeedDeclared.antt =====
-- What `checkNeedDeclared` of bakery/discharge.go declares.
use mathlib.Core.Path.{subst}
use macaroon_bakery.Prelude.{
  Bytes, ℕ, suc, ◌≡◌, ◌≢◌, refl, ap, true, false, not, some, List, [], ◌∷◌, ◌++◌, append_assoc,
  bytes_eq, bytes_beq, beq_refl, ok, >>=-eq-ok, check-eq-ok, arith, take, drop, All, Bool-cases,
  Option-cases, inl, inr, nat_beq,
}
use macaroon_bakery.Prelude.Sort.{contains, contains-append}
use macaroon_bakery.Strings.Search.{
  index_byte, split_two, split_two-append, Lacks, index_byte-Lacks_before,
}
use macaroon_bakery.Strings.Split.{split, split-Lacks}
use macaroon_bakery.Checkers.Caveat.{
  Caveat, is_empty, blank, parse_caveat, first_party, cond_declared,
}
use macaroon_bakery.Checkers.Caveat.Laws.{parse_caveat-condition}
use macaroon_bakery.Checkers.Declared.{parts_of, declared_caveat}
use macaroon_bakery.Checkers.Declared.Prefixed.{declared_caveat-valid, cond_declared-Lacks}
use macaroon_bakery.Bakery.Codec.{ThirdPartyCaveatInfo}
use macaroon_bakery.Bakery.Discharge.{
  empty_attribute, CaveatChecker, need_declared_parts, has_empty, checked, declared_key,
  declared_keys, add_missing, check_need_parts, check_need_declared,
}

declared_last : (known : List Bytes) (d : Bytes) → contains (known ++ d ∷ []) d ≡ true
unfolding contains
declared_last known d = ground (arith, contains-append known (d ∷ []) d, beq_refl d)

module _ {Failure : Type 0} where
  declared_keys-append :
      (xs ys : List Caveat) (kx ky : List Bytes)
      → declared_keys {Failure = Failure} xs ≡ ok kx
      → declared_keys {Failure = Failure} ys ≡ ok ky
      → declared_keys {Failure = Failure} (xs ++ ys) ≡ ok (kx ++ ky)
  unfolding declared_keys
  declared_keys-append [] ys kx ky hx hy = ground (arith, hx, hy)
  declared_keys-append (x ∷ xs) ys kx ky hx hy =
      let (k, one, h1) = >>=-eq-ok (declared_key x) _ hx in
      let (ks, more, h2) = >>=-eq-ok (declared_keys xs) _ h1 in
      let rest = declared_keys-append xs ys ks ky more hy in
      let done : k ++ ks ≡ kx = ground arith in rw one (rw rest (rw (← done) (simp append_assoc)))

  declared_key-eq :
      (cav : Caveat) (d rest : Bytes)
      → cav.location ≡ []
      → parse_caveat cav.condition ≡ ok (cond_declared, rest)
      → split_two rest blank ≡ some (d, [])
      → declared_key {Failure = Failure} cav ≡ ok (d ∷ [])
  unfolding declared_key is_empty parts_of
  declared_key-eq cav d rest local parsed parts =
      let same : bytes_beq cond_declared cond_declared ≡ true = beq_refl cond_declared in
      let name : (parts_of (parse_caveat cav.condition)).0 ≡ cond_declared =
        ap (λ r. (parts_of r).0) parsed in
      let arg : (parts_of (parse_caveat cav.condition)).1 ≡ rest =
        ap (λ r. (parts_of r).1) parsed in
      ground (arith, name, arg, same)

  declared_key-declared_caveat :
      (bad_key : Bytes → Bytes) (d : Bytes)
      → d ≢ []
      → Lacks blank d
      → declared_key {Failure = Failure} (declared_caveat bad_key d []) ≡ ok (d ∷ [])
  unfolding first_party
  declared_key-declared_caveat bad_key d ne free =
      let parsed =
        parse_caveat-condition cond_declared (d ++ blank ∷ []) (λ h. cc) cond_declared-Lacks in
      rw (declared_caveat-valid bad_key d [] ne free)
        (declared_key-eq _ d (d ++ blank ∷ []) refl parsed (split_two-append d blank [] free))

  -- Every key that is needed is declared at the end.
  add_missing-declared :
      (bad_key : Bytes → Bytes) (declared ds : List Bytes) (cavs : List Caveat) (known : List Bytes)
      → All (λ d. (d ≢ []) × Lacks blank d) ds
      → declared_keys {Failure = Failure} cavs ≡ ok known
      → ((k : Bytes) → contains declared k ≡ true → contains known k ≡ true)
      → (keys : List Bytes) × (declared_keys {Failure = Failure}
            (add_missing bad_key declared ds cavs)
          ≡ ok keys)
        × All (λ d. contains keys d ≡ true) ds
        × ((k : Bytes) → contains known k ≡ true → contains keys k ≡ true)
  unfolding add_missing
  add_missing-declared bad_key declared [] cavs known good h sub = (known, h, tt, λ k x. x)
  add_missing-declared bad_key declared (d ∷ ds) cavs known (gd, good) h sub =
      elim (Bool-cases (contains declared d)) [
        | inl there ↦
            let (keys, hk, all, mono) =
              add_missing-declared bad_key declared ds cavs known good h sub in
            rw there (keys, hk, (mono d (sub d there), all), mono)
        | inr missing ↦
            let cavs' = cavs ++ declared_caveat bad_key d [] ∷ [] in
            let one : declared_keys {Failure = Failure} (declared_caveat bad_key d [] ∷ [])
                ≡ ok (d ∷ []) =
              unfold declared_keys in rw (declared_key-declared_caveat bad_key d gd.0 gd.1) in
            let h' =
              declared_keys-append cavs (declared_caveat bad_key d [] ∷ []) known (d ∷ []) h one in
            let (keys, hk, all, mono) =
              add_missing-declared bad_key declared ds cavs' (known ++ d ∷ []) good h'
                (λ k x. rw (contains-append known (d ∷ []) k, sub k x)) in
            rw missing (
              keys,
              hk,
              (mono d (declared_last known d), all),
              λ k x. mono k (rw (contains-append known (d ∷ []) k, x)),
            )
      ]

nonempty-All :
    (ds : List Bytes)
    → has_empty ds ≡ false
    → All (Lacks blank) ds
    → All (λ d. (d ≢ []) × Lacks blank d) ds
unfolding has_empty is_empty
nonempty-All [] h free = tt
nonempty-All ([] ∷ ds) h free = absurd (cc)
nonempty-All ((c ∷ d) ∷ ds) h free = (((λ e. cc), free.0), nonempty-All ds h free.1)

check_need_parts-declares :
    {Failure : Type 0} (bad_key : Bytes → Bytes) (id : Bytes) (info : ThirdPartyCaveatInfo)
    (checker : CaveatChecker Failure) (needed rest : Bytes) (cavs : List Caveat)
    → Lacks blank needed
    → check_need_parts bad_key id info checker (some (needed, rest)) ≡ ok cavs
    → (keys : List Bytes) × (declared_keys {Failure = Failure} cavs ≡ ok keys)
      × All (λ d. contains keys d ≡ true) (split b',' needed)
unfolding check_need_parts
check_need_parts-declares {Failure} bad_key id info checker needed rest cavs free h =
    let ds = split b',' needed in
    let (full, h1) = check-eq-ok (not (has_empty ds)) empty_attribute _ h in
    let (got, one, h2) = >>=-eq-ok (checked (checker id (record info { condition = rest }))) _ h1 in
    let (declared, known, h3) = >>=-eq-ok (declared_keys got) _ h2 in
    let good = nonempty-All ds (ground arith) (split-Lacks b',' blank needed free) in
    let (keys, hk, all, mono) =
      add_missing-declared bad_key declared ds got declared good known (λ k x. x) in
    let same : add_missing bad_key declared ds got ≡ cavs = ground arith in
    (keys, subst (λ c. declared_keys {Failure = Failure} c ≡ ok keys) same hk, all)

-- Where `checkNeedDeclared` succeeds, the condition has a blank, each declared caveat among those
-- that it returns without a location has a value, and their keys include every attribute that the
-- condition lists before its first blank.
pub check_need_declared-declares :
    {Failure : Type 0} (bad_key : Bytes → Bytes) (id : Bytes) (info : ThirdPartyCaveatInfo)
    (checker : CaveatChecker Failure) (cavs : List Caveat)
    → check_need_declared bad_key id info checker ≡ ok cavs
    → (i : ℕ) × (keys : List Bytes) × (index_byte info.condition blank ≡ some i)
      × (declared_keys {Failure = Failure} cavs ≡ ok keys)
      × All (λ d. contains keys d ≡ true) (split b',' (take i info.condition))
unfolding check_need_declared need_declared_parts
check_need_declared-declares bad_key id info checker cavs h =
    elim (Option-cases (index_byte info.condition blank)) [
      | inl absent ↦ absurd (unfold check_need_parts in ground arith)
      | inr (i, at) ↦ elim (Bool-cases (nat_beq i 0)) [
        | inl first ↦ absurd (unfold check_need_parts in ground arith)
        | inr later ↦
            let arg = info.condition in
            let cut : check_need_parts bad_key id info checker (some (take i arg, drop (suc i) arg))
                ≡ ok cavs =
              ground arith in
            let (keys, hk, all) =
              check_need_parts-declares bad_key id info checker (take i arg) (drop (suc i) arg) cavs
                (index_byte-Lacks_before blank arg i at) cut in
            (i, keys, at, hk, all)
      ]
    ]
