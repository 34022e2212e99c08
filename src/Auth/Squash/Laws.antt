-- ===== src/Auth/Squash/Laws.antt =====
-- The squashed conditions impose what the conditions impose: bakery/checker.go.
use macaroon_bakery.Prelude.{
  Bytes, ℕ, ◌≤◌, ◌<◌, ◌≡◌, ◌≢◌, refl, ◌↔◌, ◌⊎◌, inl, inr, true, false, ◌||◌, Option, none, some,
  List, [], ◌∷◌, ◌++◌, arith, nat_beq, ltb, if◌then◌else◌, ◌==◌, bytes_eq, bytes_beq, bytes_beq_iff,
  Result, ok, err, All, All-append, All-append_left, All-append_right, Bool-cases,
}
use macaroon_bakery.Checkers.Caveat.{ParseError, parse_caveat, cond_time_before, first_party, blank}
use macaroon_bakery.Strings.Search.{Lacks}
use macaroon_bakery.Checkers.Caveat.Laws.{parse_caveat-condition}
use macaroon_bakery.Checkers.Time.{time_before_caveat}
use macaroon_bakery.Auth.Squash.{
  Squasher, set_time, squashed_time, lower_expiry, add_timed, add, add_all, final, squash,
}
use macaroon_bakery.Auth.Squash.Compact.{All-sorted_compact}

-- What is checked of a condition at a time: one that sets a time passes before it, the others pass
-- as they may.
pub record IsCheck (parse_time : Bytes → Option ℕ) (zero_time now : ℕ) (P : Bytes → Type 0)
    : Type 0 where
  pub before :
      (cond : Bytes) (t : ℕ)
      → squashed_time parse_time zero_time (parse_caveat cond) ≡ some t
      → P cond ↔ (now < t)

-- A time of the years that RFC 3339 can write, 0 to 9999 in UTC, is read back from its text: these
-- are the times from `first_time` on and before `end_time`.
pub record FormatLaws (parse_time : Bytes → Option ℕ) (format_time : ℕ → Bytes)
    (first_time end_time : ℕ) : Type 0 where
  pub parse-format : (t : ℕ) → first_time ≤ t → t < end_time → parse_time (format_time t) ≡ some t

-- A time that a condition sets is one that can be written in UTC.
abbrev pub IsWritable : (Bytes → Option ℕ) → (zero_time first_time end_time : ℕ) → Bytes → Type 0
IsWritable parse_time zero_time first_time end_time cond =
    (t : ℕ)
    → squashed_time parse_time zero_time (parse_caveat cond) ≡ some t
    → (first_time ≤ t) × (t < end_time)

module _ (parse_time : Bytes → Option ℕ) (format_time : ℕ → Bytes)
    (zero_time first_time end_time : ℕ) where
  abbrev time_of : Bytes → Option ℕ
  time_of cond = squashed_time parse_time zero_time (parse_caveat cond)

  set_time-nonzero :
      (o : Option ℕ) (t : ℕ)
      → set_time parse_time zero_time o ≡ some t
      → (o ≡ some t) × (t ≢ zero_time)
  unfolding set_time
  set_time-nonzero none t h = absurd (cc)
  set_time-nonzero (some x) t h = elim (Bool-cases (nat_beq x zero_time)) [
    | inl zero_x ↦ absurd (ground arith)
    | inr nonzero_x ↦ (ground arith, ground arith)
  ]

  squashed_time-parsed :
      (r : Result ParseError (Bytes × Bytes)) (t : ℕ)
      → squashed_time parse_time zero_time r ≡ some t
      → (text : Bytes) × (parse_time text ≡ some t) × (t ≢ zero_time)
  unfolding squashed_time
  squashed_time-parsed (err e) t h = absurd (cc)
  squashed_time-parsed (ok (cond, args)) t h = elim (Bool-cases (cond == cond_time_before)) [
    | inl named ↦ let r = set_time-nonzero (parse_time args) t (ground arith) in (args, r.0, r.1)
    | inr other ↦ absurd (ground arith)
  ]

  -- The expiry time of a squasher is unset or can be read back.
  abbrev IsReadable : ℕ → Type 0
  IsReadable e = (e ≡ zero_time) ⊎ ((parse_time (format_time e) ≡ some e) × (e ≢ zero_time))

  add_timed-IsReadable :
      (cond : Bytes) (c : Squasher) (o : Option ℕ)
      → ((t : ℕ) → o ≡ some t → IsReadable t)
      → IsReadable c.expiry
      → IsReadable (add_timed parse_time zero_time cond c o).expiry
  unfolding add_timed lower_expiry
  add_timed-IsReadable cond c none new old = old
  add_timed-IsReadable cond c (some et) new old =
      elim (Bool-cases (nat_beq c.expiry zero_time || ltb et c.expiry)) [
        | inl lower ↦ rw lower (new et refl)
        | inr keep ↦ rw keep old
      ]

  add-IsReadable :
      FormatLaws parse_time format_time first_time end_time
      → (cond : Bytes) (c : Squasher) → IsWritable parse_time zero_time first_time end_time cond
      → IsReadable c.expiry
      → IsReadable (add parse_time zero_time cond c).expiry
  unfolding add
  add-IsReadable laws cond c writable old =
      add_timed-IsReadable cond c (time_of cond)
        (λ t h.
          let (text, parsed, nonzero) = squashed_time-parsed (parse_caveat cond) t h in
          let (low, high) = writable t h in inr (laws.parse-format t low high, nonzero))
        old

  module _ (now : ℕ) (P : Bytes → Type 0) (checks : IsCheck parse_time zero_time now P) where
    abbrev Unexpired : ℕ → Type 0
    Unexpired e = (e ≡ zero_time) ⊎ (now < e)

    -- What a squasher stands for.
    abbrev IsMet : Squasher → Type 0
    IsMet c = All P c.conds × Unexpired c.expiry

    lower_iff :
        (e et : ℕ)
        → et ≢ zero_time
        → Unexpired (if nat_beq e zero_time || ltb et e then et else e) ↔ (Unexpired e × (now < et))
    lower_iff e et ne = elim (Bool-cases (nat_beq e zero_time)) [
      | inl unset ↦
          rw unset (
            λ h. (inl (ground arith), elim h [ inl z ↦ absurd (ne z) | inr lt ↦ lt ]),
            λ h. inr h.1,
          )
      | inr set ↦ elim (Bool-cases (ltb et e)) [
        | inl lower ↦
            rw (set, lower)
              (
                λ h. elim h [ inl z ↦ absurd (ne z) | inr lt ↦ (inr (ground arith), lt) ],
                λ h. inr h.1,
              )
        | inr keep ↦
            rw (set, keep)
              (
                λ h. elim h [ inl z ↦ absurd (ground arith) | inr lt ↦ (inr lt, ground arith) ],
                λ h. h.0,
              )
      ]
    ]

    lower_expiry-expiry :
        (et : ℕ) (c : Squasher)
        → lower_expiry parse_time zero_time et c ≡ record {
          expiry = if nat_beq c.expiry zero_time || ltb et c.expiry then et else c.expiry;
          conds = c.conds;
        }
    unfolding lower_expiry
    lower_expiry-expiry et c = ground arith

    add_iff :
        (cond : Bytes) (c : Squasher) (o : Option ℕ)
        → time_of cond ≡ o
        → IsMet (add_timed parse_time zero_time cond c o) ↔ (IsMet c × P cond)
    unfolding add_timed
    add_iff cond c none h = (
      λ m. (
        (All-append_left P c.conds (cond ∷ []) m.0, m.1),
        (All-append_right P c.conds (cond ∷ []) m.0).0,
      ),
      λ m. (All-append P c.conds (cond ∷ []) m.0.0 (m.1, tt), m.0.1),
    )
    add_iff cond c (some et) h =
        let (text, parsed, nonzero) = squashed_time-parsed (parse_caveat cond) et h in
        let one = checks.before cond et h in
        let low = lower_iff c.expiry et nonzero in
        rw (lower_expiry-expiry et c) (
          λ m. let (u, lt) = low.0 m.1 in ((m.0, u), one.1 lt),
          λ m. (m.0.0, low.1 (m.0.1, one.0 m.1)),
        )

    add_all_iff :
        (conds : List Bytes) (c : Squasher)
        → IsMet (add_all parse_time zero_time conds c) ↔ (IsMet c × All P conds)
    unfolding add_all add
    add_all_iff [] c = (λ m. (m, tt), λ m. m.0)
    add_all_iff (cond ∷ conds) c =
        let rest = add_all_iff conds (add parse_time zero_time cond c) in
        let one = add_iff cond c (time_of cond) refl in
        (
          λ m. let (met, others) = rest.0 m in let (old, new) = one.0 met in (old, (new, others)),
          λ m. rest.1 (one.1 (m.0, m.1.0), m.1.1),
        )

    add_all-IsReadable :
        FormatLaws parse_time format_time first_time end_time
        → (conds : List Bytes) (c : Squasher)
        → All (IsWritable parse_time zero_time first_time end_time) conds
        → IsReadable c.expiry
        → IsReadable (add_all parse_time zero_time conds c).expiry
    unfolding add_all
    add_all-IsReadable laws [] c writable old = old
    add_all-IsReadable laws (cond ∷ conds) c (first, others) old =
        add_all-IsReadable laws conds (add parse_time zero_time cond c) others
          (add-IsReadable laws cond c first old)

    set_time-some : (e : ℕ) → e ≢ zero_time → set_time parse_time zero_time (some e) ≡ some e
    unfolding set_time
    set_time-some e nonzero = let other : nat_beq e zero_time ≡ false = ground arith in rw other

    time_of-caveat :
        (e : ℕ)
        → parse_time (format_time e) ≡ some e
        → e ≢ zero_time
        → time_of (time_before_caveat format_time e).condition ≡ some e
    unfolding time_before_caveat first_party squashed_time
    time_of-caveat e parsed nonzero =
        let lacks : Lacks blank cond_time_before = omega arith in
        let name_parses =
          parse_caveat-condition cond_time_before (format_time e) (λ h. ground arith) lacks in
        let same : bytes_beq cond_time_before cond_time_before ≡ true =
          (bytes_beq_iff _ _).1 refl in
        rw (name_parses, same, parsed) (set_time-some e nonzero)

    final_iff :
        (c : Squasher)
        → IsReadable c.expiry
        → All P (final parse_time format_time zero_time c) ↔ IsMet c
    unfolding final
    final_iff c known = elim (Bool-cases (nat_beq c.expiry zero_time)) [
      | inl unset ↦
          let plain = All-sorted_compact P c.conds in
          rw unset (λ h. (plain.0 h, inl (ground arith)), λ h. plain.1 h.0)
      | inr set ↦
          let tb = (time_before_caveat format_time c.expiry).condition in
          let all = All-sorted_compact P (c.conds ++ tb ∷ []) in
          let found : time_of tb ≡ some c.expiry = elim known [
            | inl z ↦ absurd (ground arith)
            | inr r ↦ time_of-caveat c.expiry r.0 r.1
          ] in
          let one = checks.before tb c.expiry found in
          rw set (
            λ h.
                let l = all.0 h in
                (
                  All-append_left P c.conds (tb ∷ []) l,
                  inr (one.0 (All-append_right P c.conds (tb ∷ []) l).0),
                ),
            λ h. all.1 (
                All-append P c.conds (tb ∷ []) h.0
                  (one.1 (elim h.1 [ inl z ↦ absurd (ground arith) | inr lt ↦ lt ]), tt)),
          )
    ]

    -- The squashed conditions all pass at a time exactly where the conditions all pass: for any
    -- check under which a condition that sets a time passes before it, where the times from a
    -- first one on and before an end are read back from their texts, and the times that the
    -- conditions set are among those.
    pub squash_iff :
        FormatLaws parse_time format_time first_time end_time
        → (conds : List Bytes) → All (IsWritable parse_time zero_time first_time end_time) conds
        → All P (squash parse_time format_time zero_time conds) ↔ All P conds
    unfolding squash
    squash_iff laws conds writable =
        let start : Squasher = record { expiry = zero_time; conds = [] } in
        let done = add_all parse_time zero_time conds start in
        let end = final_iff done (add_all-IsReadable laws conds start writable (inl refl)) in
        let loop = add_all_iff conds start in
        (λ h. (loop.0 (end.0 h)).1, λ h. end.1 (loop.1 ((tt, inl refl), h)))
