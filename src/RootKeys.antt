-- ===== src/RootKeys.antt =====
-- The cache of root keys: bakery/dbrootkeystore/rootkey.go. A time is a number of nanoseconds, from
-- 2^63 of them before Go's zero time, so that `Add` never goes below 0 from Go's zero time on. A
-- duration is the bit pattern of an int64, below 2^64: its sums and its negation wrap around.
pub mod Bounds
pub mod Coherent
pub mod Policy
use macaroon_bakery.Prelude.{
  Bytes, ℕ, suc, ◌+◌, ◌-◌, ◌/◌, ◌%◌, ◌^◌, ◌≡◌, ◌↔◌, Bool, true, false, not, ◌&&◌, Option, none,
  some, List, [], ◌∷◌, arith, ltb, leb, nat_beq, nat_beq_iff, if◌then◌else◌, Eq, ◌==◌, bytes_eq,
  Result, ok, err, ◌>>=◌, Map, lookup, insert, length,
}

-- `maxPolicyCache`
abbrev pub max_policy_cache : ℕ
max_policy_cache = 100

-- A nil `RootKey` field is `none`.
pub record RootKey : Type 0 where
  pub id : Bytes
  pub created : ℕ
  pub expires : ℕ
  pub root_key : Option Bytes

-- The number of `time.Time{}`
abbrev pub zero_time : ℕ
zero_time = 2 ^ 63

abbrev pub zero_key : RootKey
zero_key = record { id = []; created = zero_time; expires = zero_time; root_key = none }

-- `Time.Add`, of a duration that is negative from 2^63 on.
unfoldable pub add_time : ℕ → ℕ → ℕ
add_time t d = if ltb d (2 ^ 63) then t + d else t - (2 ^ 64 - d)

-- The sum and the negation of durations.
unfoldable pub add_duration : ℕ → ℕ → ℕ
add_duration d e = (d + e) % 2 ^ 64

unfoldable pub neg_duration : ℕ → ℕ
neg_duration d = (2 ^ 64 - d) % 2 ^ 64

pub record StorePolicy : Type 0 where
  pub generate_interval : ℕ
  pub expiry_duration : ℕ

abbrev pub policy_beq : StorePolicy → StorePolicy → Bool
policy_beq p q =
    nat_beq p.generate_interval q.generate_interval && nat_beq p.expiry_duration q.expiry_duration

pub policy_beq_iff : (p q : StorePolicy) → (policy_beq p q ≡ true) ↔ (p ≡ q)
policy_beq_iff p q = ground arith

instance abbrev pub policy_eq : Eq StorePolicy
policy_eq = record { beq = policy_beq; beq_iff = policy_beq_iff }

-- `RootKeys`, less the clock: the time is an argument of the operations.
pub record RootKeys : Type 0 where
  pub max_cache_size : ℕ
  pub old_cache : Map Bytes RootKey
  pub cache : Map Bytes RootKey
  pub current : Map StorePolicy RootKey

pub data StoreError : Type 0 where
  not_found failed : StoreError

-- The interface `ContextBacking`, over the states of the database. An error comes with the zero key.
pub record Backing (Db : Type 0) : Type 0 where
  pub get_key : Db → Bytes → Result StoreError RootKey
  pub find_latest_key : Db → ℕ → ℕ → ℕ → Result StoreError RootKey
  pub insert_key : Db → RootKey → Result StoreError Db

-- `IsValid`
unfoldable pub is_valid : RootKey → Bool
is_valid rk = elim rk.root_key [ none ↦ false | some _ ↦ true ]

unfoldable pub after_eq : ℕ → ℕ → Bool
after_eq t0 t1 = not (ltb t0 t1)

unfoldable pub before_eq : ℕ → ℕ → Bool
before_eq t0 t1 = not (ltb t1 t0)

-- `IsValidWithPolicy`
unfoldable pub is_valid_with_policy : RootKey → StorePolicy → ℕ → Bool
unfolding is_valid after_eq before_eq add_time add_duration neg_duration
is_valid_with_policy rk p now =
    if not (is_valid rk)
    then false
    else after_eq rk.created (add_time now (neg_duration p.generate_interval))
      && after_eq rk.expires (add_time now p.expiry_duration)
      && before_eq rk.expires (add_time now (add_duration p.expiry_duration p.generate_interval))

-- `NewRootKeys`
unfoldable pub new_root_keys : ℕ → RootKeys
new_root_keys max_cache_size = record {
  max_cache_size = max_cache_size;
  old_cache = [];
  cache = [];
  current = [];
}

-- The policy that `NewStore` gives its store.
unfoldable pub store_policy : StorePolicy → StorePolicy
store_policy p =
    if nat_beq p.generate_interval 0 then record p { generate_interval = p.expiry_duration } else p

unfoldable pub add_cache : Bytes → RootKey → RootKeys → RootKeys
add_cache id k s =
    if leb s.max_cache_size (length s.cache)
    then record s { old_cache = s.cache; cache = insert id k [] }
    else record s { cache = insert id k s.cache }

unfoldable pub set_current : StorePolicy → RootKey → RootKeys → RootKeys
set_current policy key s =
    if ltb max_policy_cache (length s.current)
    then record s { current = insert policy key [] }
    else record s { current = insert policy key s.current }

-- A cached key, of which an invalid one stands for a key that was not found.
unfoldable pub found_key : RootKey → Result StoreError RootKey
unfolding is_valid
found_key k = if is_valid k then ok k else err not_found

-- `if err == nil && now.After(key.Expires)`
unfoldable pub unexpired : ℕ → Result StoreError RootKey → Result StoreError RootKey
unexpired now (err e) = err e
unexpired now (ok k) = if ltb k.expires now then err not_found else ok k

unfoldable pub key_or_zero : Result StoreError RootKey → RootKey
key_or_zero (ok k) = k
key_or_zero (err e) = zero_key

-- `get` behind the call of `get0`.
unfoldable pub finish_get :
    ℕ → RootKeys → Bytes → Result StoreError RootKey → Bool → Result StoreError RootKey × RootKeys
unfolding unexpired key_or_zero
finish_get now s id (err failed) cached = (err failed, s)
finish_get now s id r cached =
    let r' = unexpired now r in (r', if cached then s else add_cache id (key_or_zero r') s)

-- The two digits of a byte, in `fmt.Sprintf("%x", newId)`.
unfoldable pub hex_digit : ℕ → ℕ
hex_digit n = if ltb n 10 then b'0' + n else b'a' + (n - 10)

unfoldable pub hex : Bytes → Bytes
unfolding hex_digit
hex [] = []
hex (b ∷ s) = hex_digit (b / 16) ∷ hex_digit (b % 16) ∷ hex s

-- One round of the loop of `rootKeyFromCache`.
unfoldable pub newer : StorePolicy → ℕ → RootKey → RootKey → RootKey
newer policy now k best =
    if is_valid_with_policy k policy now && ltb best.created k.created then k else best

-- The loop, where `clock i` is the time that the clock shows in the round `i`.
unfoldable pub newest : StorePolicy → (clock : ℕ → ℕ) → ℕ → Map Bytes RootKey → RootKey → RootKey
newest policy clock i [] best = best
newest policy clock i ((id, k) ∷ m) best =
    newest policy clock (suc i) m (newer policy (clock i) k best)

-- What the clock shows when `RootKey` reads it: for the current key, in the rounds of the loop over
-- the cache, for the search of the database and for a new key.
pub record Readings : Type 0 where
  pub current : ℕ
  pub search : ℕ → ℕ
  pub find : ℕ
  pub generate : ℕ

-- `rootKeyFromCache` where `current` has no key to return.
unfoldable pub search_cache : StorePolicy → Readings → RootKeys → RootKey × RootKeys
search_cache policy clock s =
    let best = newest policy clock.search 0 s.cache zero_key in
    if is_valid best
    then (best, record s { current = insert policy best s.current })
    else (zero_key, s)

unfoldable pub check_current :
    StorePolicy → Readings → RootKeys → Option RootKey → RootKey × RootKeys
check_current policy clock s none = search_cache policy clock s
check_current policy clock s (some k) =
    if is_valid_with_policy k policy clock.current then (k, s) else search_cache policy clock s

unfoldable pub root_key_from_cache : StorePolicy → Readings → RootKeys → RootKey × RootKeys
unfolding check_current
root_key_from_cache policy clock s = check_current policy clock s (lookup policy s.current)

-- `generateKey`, with what the two calls of `randomBytes` give.
unfoldable pub generate_key :
    StorePolicy → ℕ → Option Bytes → Option Bytes → Result StoreError RootKey
unfolding hex add_time add_duration
generate_key policy now none new_id = err failed
generate_key policy now (some new_key) none = err failed
generate_key policy now (some new_key) (some new_id) = ok (record {
  id = hex new_id;
  created = now;
  expires = add_time now (add_duration policy.expiry_duration policy.generate_interval);
  root_key = some new_key;
})

module _ {Db : Type 0} (b : Backing Db) where
  unfoldable pub get0 : RootKeys → Bytes → Db → Result StoreError RootKey × Bool
  unfolding found_key
  get0 s id db = elim (lookup id s.cache) [
    | some k ↦ (found_key k, true)
    | none ↦ elim (lookup id s.old_cache) [
      | some k ↦ (found_key k, false)
      | none ↦ (b.get_key db id, false)
    ]
  ]

  unfoldable pub get : ℕ → RootKeys → Bytes → Db → Result StoreError RootKey × RootKeys
  unfolding finish_get
  get now s id db = let found = get0 s id db in finish_get now s id found.0 found.1

  unfoldable pub find_best_root_key : StorePolicy → ℕ → Db → Result StoreError RootKey
  unfolding add_time add_duration neg_duration
  find_best_root_key policy now db =
      b.find_latest_key db (add_time now (neg_duration policy.generate_interval))
        (add_time now policy.expiry_duration)
        (add_time now (add_duration policy.expiry_duration policy.generate_interval))

  -- A new key in the database.
  unfoldable pub create_key :
      StorePolicy → ℕ → Db → Option Bytes → Option Bytes → Result StoreError (RootKey × Db)
  create_key policy now db new_key new_id = do
    key ← generate_key policy now new_key new_id
    db' ← b.insert_key db key
    ok (key, db')

  -- `RootKey` where the cache has no key: one of the database, or a new one.
  unfoldable pub fetch_key :
      StorePolicy → Readings → Db → Option Bytes → Option Bytes → Result StoreError (RootKey × Db)
  fetch_key policy clock db new_key new_id = do
    key ← find_best_root_key policy clock.find db
    if is_valid key then ok (key, db) else create_key policy clock.generate db new_key new_id

  pub record Outcome : Type 0 where
    pub answer : Result StoreError RootKey
    pub keys : RootKeys
    pub db : Db

  -- `RootKey`: the answer is the key whose `RootKey` and `Id` it returns. The lock is released
  -- between the look into the cache and the writes; `others` is what other goroutines do to the
  -- cache there.
  unfoldable pub finish_root_key :
      StorePolicy → RootKeys → Db → Result StoreError (RootKey × Db) → Outcome
  finish_root_key policy s db (err e) = record { answer = err e; keys = s; db = db }
  finish_root_key policy s db (ok (key, db')) = record {
    answer = ok key;
    keys = set_current policy key (add_cache key.id key s);
    db = db';
  }

  unfoldable pub root_key :
      (others : RootKeys → RootKeys)
      → StorePolicy
      → Readings
      → RootKeys
      → Db
      → Option Bytes
      → Option Bytes
      → Outcome
  root_key others policy clock s db new_key new_id =
      let cached = root_key_from_cache policy clock s in
      let fetched =
        finish_root_key policy (others cached.1) db (fetch_key policy clock db new_key new_id) in
      if is_valid cached.0
      then record { answer = ok cached.0; keys = cached.1; db = db }
      else fetched
