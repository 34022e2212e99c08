-- ===== src/Tests/Keys.antt =====
-- The root key cache of bakery/dbrootkeystore on small inputs.
use macaroon_bakery.Prelude.{
  Bytes, codes, ℕ, ◌^◌, suc, ◌+◌, ◌≤◌, ◌<◌, ◌≡◌, refl, Bool, true, some, none, [], ◌∷◌, arith, ok,
  err, Result, lookup, if◌then◌else◌, ◌==◌, bytes_eq, length,
}
use macaroon_bakery.RootKeys.{
  RootKey, RootKeys, StorePolicy, Backing, StoreError, not_found, failed, zero_key, is_valid,
  is_valid_with_policy, new_root_keys, set_current, max_policy_cache, get, root_key, generate_key,
  root_key_from_cache, search_cache, newest, newer, policy_eq, Readings, zero_time,
}
use macaroon_bakery.RootKeys.Bounds.{
  IsBounded, get-IsBounded, set_current-bound, root_key_from_cache-grows,
}
use macaroon_bakery.RootKeys.Coherent.{cached_key, direct, IsCoherent, ReturnsValid, get-direct}
use macaroon_bakery.RootKeys.Policy.{FindLaws, IsBetween, AreBetween, root_key-Allowed}

abbrev key_a : RootKey
key_a = record {
  id = codes "a";
  created = zero_time + 10;
  expires = zero_time + 40;
  root_key = some (codes "secret");
}

-- A database that holds one key, or none.
abbrev one_key : Backing Bool
one_key = record {
  get_key =
      λ db id. if db then (if id == codes "a" then ok key_a else err not_found) else err failed;
  find_latest_key = λ db created_after expires_after expires_before. ok zero_key;
  insert_key = λ db k. ok db;
}

abbrev hourly : StorePolicy
hourly = record { generate_interval = 10; expiry_duration = 20 }

one_key-ReturnsValid : ReturnsValid one_key true
one_key-ReturnsValid = record { valid = λ id k h. by_id id k h }
  where
    by_id : (id : Bytes) (k : RootKey) → one_key.get_key true id ≡ ok k → is_valid k ≡ true
    by_id id k h = unfold is_valid in ground arith

empty-IsCoherent : IsCoherent one_key true (zero_time + 5) (new_root_keys 2)
unfolding new_root_keys cached_key lookup
empty-IsCoherent = record { agrees = λ id k h. cc }

get-direct_example :
    ((get one_key (zero_time + 12) (new_root_keys 2) (codes "a") true).0
      ≡ direct one_key true (zero_time + 12) (codes "a"))
    × IsCoherent one_key true
        (zero_time + 12)
        (get one_key (zero_time + 12) (new_root_keys 2) (codes "a") true).1
get-direct_example =
    get-direct one_key true (zero_time + 5) (zero_time + 12) (new_root_keys 2) (codes "a")
      one_key-ReturnsValid (omega arith) empty-IsCoherent

empty-IsBounded : IsBounded (new_root_keys 2)
unfolding new_root_keys
empty-IsBounded = record { cache_bound = omega arith; old_bound = omega arith }

room : 0 < (new_root_keys 2).max_cache_size
unfolding new_root_keys
room = omega arith

get-IsBounded_example :
    IsBounded (get one_key (zero_time + 12) (new_root_keys 2) (codes "a") true).1
get-IsBounded_example =
    get-IsBounded one_key (zero_time + 12) (new_root_keys 2) (codes "a") true room empty-IsBounded

set_current-bound_example :
    length (set_current hourly key_a (new_root_keys 2)).current ≤ max_policy_cache + 1
set_current-bound_example = set_current-bound hourly key_a (new_root_keys 2)

-- A clock that shows later and later times.
abbrev clock : Readings
clock = record {
  current = zero_time + 12;
  search = λ i. zero_time + 13;
  find = zero_time + 14;
  generate = zero_time + 15;
}

clock-AreBetween : AreBetween (zero_time + 12) (zero_time + 15) clock
clock-AreBetween = record {
  current_between = omega arith;
  search_between = λ i. omega arith;
  find_between = omega arith;
  generate_between = omega arith;
}

abbrev with_a : RootKeys
with_a = record {
  max_cache_size = 2;
  old_cache = [];
  cache = (codes "a", key_a) ∷ [];
  current = [];
}

no_current : lookup hourly with_a.current ≡ none
unfolding lookup
no_current = refl

a_is_newest : is_valid (newest hourly clock.search 0 with_a.cache zero_key) ≡ true
unfolding is_valid newest newer is_valid_with_policy
a_is_newest = refl

root_key_from_cache-grows_example :
    length (root_key_from_cache hourly clock with_a).1.current ≡ suc (length with_a.current)
root_key_from_cache-grows_example =
    root_key_from_cache-grows hourly clock with_a no_current a_is_newest

none_found :
    (k : RootKey) → ◌≡◌ {A = Result StoreError RootKey} (ok zero_key) (ok k) → is_valid k ≡ true → ⊥
unfolding is_valid
none_found k h valid = ground arith

one_key-FindLaws : FindLaws one_key
one_key-FindLaws = record { within = λ db c e l k h valid. absurd (none_found k h valid) }

abbrev quiet : RootKeys → RootKeys
quiet s = s

a_returned : (root_key one_key quiet hourly clock with_a true none none).answer ≡ ok key_a
unfolding root_key root_key_from_cache search_cache is_valid newest newer is_valid_with_policy
    lookup
a_returned = refl

hourly_small : hourly.expiry_duration + hourly.generate_interval < 2 ^ 63
hourly_small = omega arith

root_key-Allowed_example :
    (t : ℕ) × IsBetween (zero_time + 12) (zero_time + 15) t
    × (is_valid_with_policy key_a hourly t ≡ true)
root_key-Allowed_example =
    root_key-Allowed one_key one_key-FindLaws hourly (zero_time + 12) (zero_time + 15) hourly_small
      clock clock-AreBetween quiet with_a true none none key_a a_returned

-- Durations of about 146 years, whose sum wraps around.
abbrev centuries : StorePolicy
centuries = record { generate_interval = 2 ^ 62; expiry_duration = 2 ^ 62 }

expired_when_made :
    generate_key centuries (zero_time + 10) (some (codes "secret")) (some (0x4F ∷ []))
    ≡ ok (record {
      id = codes "4f";
      created = zero_time + 10;
      expires = 10;
      root_key = some (codes "secret");
    })
unfolding generate_key
expired_when_made = refl
