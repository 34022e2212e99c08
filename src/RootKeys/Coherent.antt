-- ===== src/RootKeys/Coherent.antt =====
-- The cache of bakery/dbrootkeystore/rootkey.go answers as the database would.
use mathlib.Core.Path.{subst₂}
use macaroon_bakery.Prelude.{
  Bytes, ℕ, ◌≤◌, ◌≡◌, ◌≢◌, refl, sym, ◌∙◌, ◌⊎◌, inl, inr, Bool, true, false, Option, none, some, [],
  arith, leb, bytes_eq, bytes_beq_iff, Result, ok, err, Option-cases, Bool-cases, lookup, insert,
  lookup-insert, length,
}
use macaroon_bakery.RootKeys.{
  RootKey, RootKeys, Backing, StoreError, failed, not_found, is_valid, add_cache, found_key,
  unexpired, key_or_zero, finish_get, get0, get,
}

-- The cached key for an id, in the order in which `get0` looks for it.
abbrev pub first : Option RootKey → Option RootKey → Option RootKey
first none o = o
first (some k) o = some k

unfoldable pub cached_key : RootKeys → Bytes → Option RootKey
cached_key s id = first (lookup id s.cache) (lookup id s.old_cache)

lookup-nil : (id : Bytes) → lookup {V = RootKey} id [] ≡ none
unfolding lookup
lookup-nil id = refl

-- What is cached behind a new entry was cached before.
cached_key-add_cache :
    (id : Bytes) (k : RootKey) (s : RootKeys) (j : Bytes) (x : RootKey)
    → cached_key (add_cache id k s) j ≡ some x
    → ((id ≡ j) × (k ≡ x)) ⊎ (cached_key s j ≡ some x)
unfolding cached_key add_cache
cached_key-add_cache id k s j x c = elim (Bool-cases (leb s.max_cache_size (length s.cache))) [
  | inl full ↦
      let c' : first (lookup j (insert id k [])) (lookup j s.cache) ≡ some x = rw full at c in
      ground (arith, lookup-insert id j k [], bytes_beq_iff id j, lookup-nil j)
  | inr room ↦
      let c' : first (lookup j (insert id k s.cache)) (lookup j s.old_cache) ≡ some x =
        rw room at c in
      ground (arith, lookup-insert id j k s.cache, bytes_beq_iff id j)
]

unexpired-ne-failed : (now : ℕ) (k : RootKey) → unexpired now (ok k) ≢ err failed
unfolding unexpired
unexpired-ne-failed now k h = ground arith

module _ {Db : Type 0} (b : Backing Db) (db : Db) where
  -- The specification of a look-up: no cache.
  unfoldable pub direct : ℕ → Bytes → Result StoreError RootKey
  direct now id = unexpired now (b.get_key db id)

  -- A cached key is the one of the database; an invalid one says that there is none, or that it
  -- has expired.
  abbrev pub Agrees : ℕ → Bytes → RootKey → Type 0
  Agrees now id k =
      ((is_valid k ≡ true) × (b.get_key db id ≡ ok k))
      ⊎ ((is_valid k ≡ false) × (direct now id ≡ err not_found))

  pub record IsCoherent (now : ℕ) (s : RootKeys) : Type 0 where
    pub agrees : (id : Bytes) (k : RootKey) → cached_key s id ≡ some k → Agrees now id k

  -- The database returns keys that hold a key.
  pub record ReturnsValid : Type 0 where
    pub valid : (id : Bytes) (k : RootKey) → b.get_key db id ≡ ok k → is_valid k ≡ true

  -- What has expired stays expired.
  direct-later :
      (now later : ℕ) (id : Bytes)
      → now ≤ later
      → direct now id ≡ err not_found
      → direct later id ≡ err not_found
  unfolding direct unexpired
  direct-later now later id le h = by_key (b.get_key db id) h
    where
      by_key :
          (r : Result StoreError RootKey)
          → unexpired now r ≡ err not_found
          → unexpired later r ≡ err not_found
      by_key (err e) h = h
      by_key (ok k) h = ground arith

  Agrees-later :
      (now later : ℕ) (id : Bytes) (k : RootKey) → now ≤ later → Agrees now id k → Agrees later id k
  Agrees-later now later id k le (inl h) = inl h
  Agrees-later now later id k le (inr (bad, gone)) = inr (bad, direct-later now later id le gone)

  IsCoherent-later :
      (now later : ℕ) (s : RootKeys) → now ≤ later → IsCoherent now s → IsCoherent later s
  IsCoherent-later now later s le h = record {
    agrees = λ id k c. Agrees-later now later id k le (h.agrees id k c);
  }

  found_key-direct :
      (now : ℕ) (id : Bytes) (k : RootKey)
      → Agrees now id k
      → unexpired now (found_key k) ≡ direct now id
  unfolding found_key direct
  found_key-direct now id k (inl (valid, there)) = rw (valid, there)
  found_key-direct now id k (inr (bad, gone)) = rw bad (unfold unexpired in sym gone)

  -- What `get0` finds comes to what the database has.
  unexpired-get0 :
      (now : ℕ) (s : RootKeys) (id : Bytes)
      → IsCoherent now s
      → unexpired now (get0 b s id db).0 ≡ direct now id
  unfolding get0 cached_key
  unexpired-get0 now s id h = elim (Option-cases (lookup id s.cache)) [
    | inr (k, there) ↦ rw (there, get0) (found_key-direct now id k (h.agrees id k (rw there)))
    | inl missing ↦ elim (Option-cases (lookup id s.old_cache)) [
      | inr (k, there) ↦
          rw (missing, there, get0)
            (found_key-direct now id k (h.agrees id k (rw (missing, there))))
      | inl gone ↦ rw (missing, gone, get0) (unfold direct in refl)
    ]
  ]

  finish_get-answer :
      (now : ℕ) (s : RootKeys) (id : Bytes) (r : Result StoreError RootKey) (cached : Bool)
      → (finish_get now s id r cached).0 ≡ unexpired now r
  unfolding finish_get
  finish_get-answer now s id (err failed) cached = refl
  finish_get-answer now s id (err not_found) cached = refl
  finish_get-answer now s id (ok k) cached = refl

  unexpired-ok :
      (now : ℕ) (r : Result StoreError RootKey) (k : RootKey) → unexpired now r ≡ ok k → r ≡ ok k
  unfolding unexpired
  unexpired-ok now (err e) k h = cc
  unexpired-ok now (ok k') k h = ground arith

  direct-Agrees :
      (now : ℕ) (id : Bytes) (r : Result StoreError RootKey)
      → ReturnsValid
      → r ≢ err failed
      → direct now id ≡ r
      → Agrees now id (key_or_zero r)
  unfolding direct unexpired key_or_zero
  direct-Agrees now id (err failed) v ne e = absurd (ne refl)
  direct-Agrees now id (err not_found) v ne e = inr (unfold is_valid in refl, e)
  direct-Agrees now id (ok k) v ne e =
      let there : b.get_key db id ≡ ok k = unexpired-ok now (b.get_key db id) k e in
      inl (v.valid id k there, there)

  pub add_cache-IsCoherent :
      (now : ℕ) (id : Bytes) (k : RootKey) (s : RootKeys)
      → Agrees now id k
      → IsCoherent now s
      → IsCoherent now (add_cache id k s)
  add_cache-IsCoherent now id k s a h = record {
    agrees = λ j x c. elim (cached_key-add_cache id k s j x c) [
      | inl (same, new) ↦ subst₂ (Agrees now) same new a
      | inr old ↦ h.agrees j x old
    ];
  }

  finish_get-IsCoherent :
      (now : ℕ) (s : RootKeys) (id : Bytes) (r : Result StoreError RootKey) (cached : Bool)
      → ReturnsValid
      → unexpired now r ≡ direct now id
      → IsCoherent now s
      → IsCoherent now (finish_get now s id r cached).1
  unfolding finish_get
  finish_get-IsCoherent now s id (err failed) cached v e h = h
  finish_get-IsCoherent now s id (err not_found) true v e h = h
  finish_get-IsCoherent now s id (ok k) true v e h = h
  finish_get-IsCoherent now s id (err not_found) false v e h =
      add_cache-IsCoherent now id _ s
        (direct-Agrees now id (unexpired now (err not_found)) v (λ x. unfold unexpired in cc)
          (sym e))
        h
  finish_get-IsCoherent now s id (ok k) false v e h =
      add_cache-IsCoherent now id _ s
        (direct-Agrees now id (unexpired now (ok k)) v (unexpired-ne-failed now k) (sym e)) h

  -- A look-up through a coherent cache gives what the database gives at that time, and leaves the
  -- cache coherent: whether the key was cached, how long ago, or has expired since. The keys that
  -- the database returns are valid.
  pub get-direct :
      (now later : ℕ) (s : RootKeys) (id : Bytes)
      → ReturnsValid
      → now ≤ later
      → IsCoherent now s
      → ((get b later s id db).0 ≡ direct later id) × IsCoherent later (get b later s id db).1
  unfolding get
  get-direct now later s id v le h =
      let coherent = IsCoherent-later now later s le h in
      let found = get0 b s id db in
      let same = unexpired-get0 later s id coherent in
      (
        finish_get-answer later s id found.0 found.1 ∙ same,
        finish_get-IsCoherent later s id found.0 found.1 v same coherent,
      )
