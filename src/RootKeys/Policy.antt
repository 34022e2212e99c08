-- ===== src/RootKeys/Policy.antt =====
-- The keys that `RootKey` of bakery/dbrootkeystore/rootkey.go returns satisfy the store's policy.
use mathlib.Core.Path.{subst}
use macaroon_bakery.Prelude.{
  Bytes, ℕ, suc, ◌+◌, ◌^◌, ◌≤◌, ◌<◌, ◌≡◌, ltb, ◌&&◌, ◌∙◌, true, Option, none, some, [], ◌∷◌, arith,
  Result, ok, err, >>=-eq-ok, Option-cases, Bool-cases, inl, inr, lookup, Map,
}
use macaroon_bakery.RootKeys.{
  RootKey, RootKeys, StorePolicy, policy_eq, Backing, StoreError, hex, is_valid,
  is_valid_with_policy, newer, newest, search_cache, root_key_from_cache, generate_key, create_key,
  fetch_key, find_best_root_key, finish_root_key, root_key, zero_key, Readings, add_time,
  add_duration, neg_duration,
}

-- What `FindLatestKey` is documented to return: a key within the bounds, or the zero key.
pub record FindLaws {Db : Type 0} (b : Backing Db) : Type 0 where
  pub within :
      (db : Db) (created_after expires_after expires_before : ℕ) (k : RootKey)
      → b.find_latest_key db created_after expires_after expires_before ≡ ok k
      → is_valid k ≡ true
      → (created_after ≤ k.created) × (expires_after ≤ k.expires) × (k.expires ≤ expires_before)

ok-inj : (a b : RootKey) → ◌≡◌ {A = Result StoreError RootKey} (ok a) (ok b) → a ≡ b
ok-inj a b h = ground arith

-- The times between two times.
abbrev pub IsBetween : (low high t : ℕ) → Type 0
IsBetween low high t = (low ≤ t) × (t ≤ high)

-- All that the clock shows is between two times.
pub record AreBetween (low high : ℕ) (clock : Readings) : Type 0 where
  pub current_between : IsBetween low high clock.current
  pub search_between : (i : ℕ) → IsBetween low high (clock.search i)
  pub find_between : IsBetween low high clock.find
  pub generate_between : IsBetween low high clock.generate

module _ (policy : StorePolicy) (low high : ℕ) where
  -- The policy allows a key at one of the times.
  abbrev pub IsAllowed : RootKey → Type 0
  IsAllowed k = (t : ℕ) × IsBetween low high t × (is_valid_with_policy k policy t ≡ true)

  -- A valid key is one that the policy allows.
  abbrev Allowed : RootKey → Type 0
  Allowed k = is_valid k ≡ true → IsAllowed k

  zero_key-Allowed : Allowed zero_key
  unfolding is_valid
  zero_key-Allowed valid = absurd (cc)

  newer-Allowed :
      (now : ℕ) (k best : RootKey)
      → IsBetween low high now
      → Allowed best
      → Allowed (newer policy now k best)
  unfolding newer
  newer-Allowed now k best between h =
      elim (Bool-cases (is_valid_with_policy k policy now && ltb best.created k.created)) [
        | inl taken ↦ rw taken (λ valid. (now, between, ground arith))
        | inr kept ↦ rw kept h
      ]

  newest-Allowed :
      (clock : ℕ → ℕ) (i : ℕ) (m : Map Bytes RootKey) (best : RootKey)
      → ((j : ℕ) → IsBetween low high (clock j))
      → Allowed best
      → Allowed (newest policy clock i m best)
  unfolding newest
  newest-Allowed clock i [] best between h = h
  newest-Allowed clock i ((id, k) ∷ m) best between h =
      newest-Allowed clock (suc i) m _ between (newer-Allowed (clock i) k best (between i) h)

  module _ (clock : Readings) (between : AreBetween low high clock) where
    search_cache-Allowed : (s : RootKeys) → Allowed (search_cache policy clock s).0
    unfolding search_cache
    search_cache-Allowed s =
        elim (Bool-cases (is_valid (newest policy clock.search 0 s.cache zero_key))) [
          | inl found ↦ rw found (
              newest-Allowed clock.search 0 s.cache zero_key between.search_between
                zero_key-Allowed)
          | inr none_there ↦ rw none_there zero_key-Allowed
        ]

    root_key_from_cache-Allowed : (s : RootKeys) → Allowed (root_key_from_cache policy clock s).0
    unfolding root_key_from_cache
    root_key_from_cache-Allowed s = elim (Option-cases (lookup policy s.current)) [
      | inl missing ↦ rw missing (search_cache-Allowed s)
      | inr (k, there) ↦ elim (Bool-cases (is_valid_with_policy k policy clock.current)) [
        | inl good ↦ rw (there, good) (λ valid. (clock.current, between.current_between, good))
        | inr stale ↦ rw (there, stale) (search_cache-Allowed s)
      ]
    ]

module _ (policy : StorePolicy) (now : ℕ) where
  fresh-valid :
      (id : Bytes) (key : Bytes)
      → policy.expiry_duration + policy.generate_interval < 2 ^ 63
      → is_valid_with_policy
          (record {
            id = id;
            created = now;
            expires = add_time now (add_duration policy.expiry_duration policy.generate_interval);
            root_key = some key;
          })
          policy
          now
        ≡ true
  unfolding is_valid_with_policy
  fresh-valid id key small = ground arith

  generate_key-valid :
      (new_key new_id : Option Bytes) (k : RootKey)
      → policy.expiry_duration + policy.generate_interval < 2 ^ 63
      → generate_key policy now new_key new_id ≡ ok k
      → is_valid_with_policy k policy now ≡ true
  unfolding generate_key
  generate_key-valid none new_id k small h = cc
  generate_key-valid (some key) none k small h = cc
  generate_key-valid (some key) (some id) k small h =
      subst (λ x. is_valid_with_policy x policy now ≡ true) (ok-inj _ k h)
        (fresh-valid (hex id) key small)

  within-valid :
      (k : RootKey)
      → is_valid k ≡ true
      → (add_time now (neg_duration policy.generate_interval) ≤ k.created)
        × (add_time now policy.expiry_duration ≤ k.expires)
        × (k.expires ≤ add_time now (add_duration policy.expiry_duration policy.generate_interval))
      → is_valid_with_policy k policy now ≡ true
  unfolding is_valid_with_policy
  within-valid k valid (c, e, l) = rw valid (ground arith)

module _ {Db : Type 0} (b : Backing Db) (laws : FindLaws b) (policy : StorePolicy) (low high : ℕ)
    (small : policy.expiry_duration + policy.generate_interval < 2 ^ 63) (clock : Readings)
    (between : AreBetween low high clock) where
  create_key-IsAllowed :
      (db db' : Db) (new_key new_id : Option Bytes) (k : RootKey)
      → create_key b policy clock.generate db new_key new_id ≡ ok (k, db')
      → IsAllowed policy low high k
  unfolding create_key
  create_key-IsAllowed db db' new_key new_id k h =
      let (key, made, h1) = >>=-eq-ok (generate_key policy clock.generate new_key new_id) _ h in
      let (d, put, h2) = >>=-eq-ok (b.insert_key db key) _ h1 in
      let made_k : generate_key policy clock.generate new_key new_id ≡ ok k = made ∙ ground arith in
      (
        clock.generate,
        between.generate_between,
        generate_key-valid policy clock.generate new_key new_id k small made_k,
      )

  fetch_key-IsAllowed :
      (db db' : Db) (new_key new_id : Option Bytes) (k : RootKey)
      → fetch_key b policy clock db new_key new_id ≡ ok (k, db')
      → IsAllowed policy low high k
  unfolding fetch_key find_best_root_key
  fetch_key-IsAllowed db db' new_key new_id k h =
      let (key, found, h1) = >>=-eq-ok (find_best_root_key b policy clock.find db) _ h in
      elim (Bool-cases (is_valid key)) [
        | inl valid ↦
            let same : key ≡ k = ground arith in
            let good =
              within-valid policy clock.find key valid (laws.within db _ _ _ key found valid) in
            (
              clock.find,
              between.find_between,
              subst (λ x. is_valid_with_policy x policy clock.find ≡ true) same good,
            )
        | inr missing ↦ create_key-IsAllowed db db' new_key new_id k (ground arith)
      ]

  finish-IsAllowed :
      (s : RootKeys) (db : Db) (r : Result StoreError (RootKey × Db)) (k : RootKey)
      → ((db' : Db) → r ≡ ok (k, db') → IsAllowed policy low high k)
      → (finish_root_key b policy s db r).answer ≡ ok k
      → IsAllowed policy low high k
  unfolding finish_root_key
  finish-IsAllowed s db (err e) k h a = absurd (cc)
  finish-IsAllowed s db (ok (key, db')) k h a = h db' (ground arith)

  -- The key that `RootKey` returns, from the cache, from the database or a new one, is valid with
  -- the policy of the store at some time between two times that bound what the clock shows during
  -- the call, whatever other goroutines do to the cache meanwhile: where the policy's durations
  -- are not negative and their sum does not overflow, and the database's `FindLatestKey` returns
  -- keys within the times that it is asked for.
  pub root_key-Allowed :
      (others : RootKeys → RootKeys) (s : RootKeys) (db : Db) (new_key new_id : Option Bytes)
      (k : RootKey)
      → (root_key b others policy clock s db new_key new_id).answer ≡ ok k
      → (t : ℕ) × IsBetween low high t × (is_valid_with_policy k policy t ≡ true)
  unfolding root_key
  root_key-Allowed others s db new_key new_id k h =
      let cached = root_key_from_cache policy clock s in
      elim (Bool-cases (is_valid cached.0)) [
        | inl valid ↦
            let same : cached.0 ≡ k = ground arith in
            subst (λ x. IsAllowed policy low high x) same
              (root_key_from_cache-Allowed policy low high clock between s valid)
        | inr missing ↦
            finish-IsAllowed (others cached.1) db (fetch_key b policy clock db new_key new_id) k
              (λ db' e. fetch_key-IsAllowed db db' new_key new_id k e) (ground arith)
      ]
