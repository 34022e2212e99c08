-- ===== src/RootKeys/Bounds.antt =====
-- The sizes of the caches of bakery/dbrootkeystore/rootkey.go.
use macaroon_bakery.Prelude.{
  Bytes, ℕ, suc, ◌+◌, ◌≤◌, ◌<◌, ◌≡◌, Bool, true, false, none, arith, ltb, leb, Result, ok, err,
  Bool-cases, inl, inr, lookup, insert, length, length-insert, bytes_eq,
}
use macaroon_bakery.RootKeys.{
  RootKey, RootKeys, StorePolicy, policy_eq, Backing, StoreError, add_cache, set_current,
  max_policy_cache, get, finish_get, failed, not_found, root_key_from_cache, search_cache, newest,
  Readings, is_valid, zero_key,
}

-- Neither cache holds more keys than the size that was asked for.
pub record IsBounded (s : RootKeys) : Type 0 where
  pub cache_bound : length s.cache ≤ s.max_cache_size
  pub old_bound : length s.old_cache ≤ s.max_cache_size

length-insert_le :
    (id : Bytes) (k : RootKey) (s : RootKeys) → length (insert id k s.cache) ≤ suc (length s.cache)
length-insert_le id k s = ground (arith, length-insert id k s.cache)

pub add_cache-IsBounded :
    (id : Bytes) (k : RootKey) (s : RootKeys)
    → 0 < s.max_cache_size
    → IsBounded s
    → IsBounded (add_cache id k s)
unfolding add_cache
add_cache-IsBounded id k s pos h = elim (Bool-cases (leb s.max_cache_size (length s.cache))) [
  | inl full ↦
      rw full (record { cache_bound = unfold insert in omega arith; old_bound = h.cache_bound })
  | inr room ↦
      rw room
        (record { cache_bound = ground (arith, length-insert_le id k s); old_bound = h.old_bound })
]

max_cache_size-add_cache :
    (id : Bytes) (k : RootKey) (s : RootKeys) → (add_cache id k s).max_cache_size ≡ s.max_cache_size
unfolding add_cache
max_cache_size-add_cache id k s = ground arith

finish_get-IsBounded :
    (now : ℕ) (s : RootKeys) (id : Bytes) (r : Result StoreError RootKey) (cached : Bool)
    → 0 < s.max_cache_size
    → IsBounded s
    → IsBounded (finish_get now s id r cached).1
unfolding finish_get
finish_get-IsBounded now s id (err failed) cached pos h = h
finish_get-IsBounded now s id (err not_found) true pos h = h
finish_get-IsBounded now s id (err not_found) false pos h = add_cache-IsBounded id _ s pos h
finish_get-IsBounded now s id (ok k) true pos h = h
finish_get-IsBounded now s id (ok k) false pos h = add_cache-IsBounded id _ s pos h

module _ {Db : Type 0} (b : Backing Db) where
  -- A look-up keeps the two caches within their size, which is not 0.
  pub get-IsBounded :
      (now : ℕ) (s : RootKeys) (id : Bytes) (db : Db)
      → 0 < s.max_cache_size
      → IsBounded s
      → IsBounded (get b now s id db).1
  unfolding get
  get-IsBounded now s id db pos h = finish_get-IsBounded now s id _ _ pos h

-- After `setCurrent` at most `maxPolicyCache` + 1 policies have a current key.
pub set_current-bound :
    (policy : StorePolicy) (k : RootKey) (s : RootKeys)
    → length (set_current policy k s).current ≤ max_policy_cache + 1
unfolding set_current
set_current-bound policy k s = elim (Bool-cases (ltb max_policy_cache (length s.current))) [
  | inl full ↦ rw full (unfold insert in omega arith)
  | inr room ↦ rw room (ground (arith, length-insert policy k s.current))
]

-- Where `rootKeyFromCache` finds a key for a policy that has no current one, the number of
-- policies with a current key grows by one, however large it is.
pub root_key_from_cache-grows :
    (policy : StorePolicy) (clock : Readings) (s : RootKeys)
    → lookup policy s.current ≡ none
    → is_valid (newest policy clock.search 0 s.cache zero_key) ≡ true
    → length (root_key_from_cache policy clock s).1.current ≡ suc (length s.current)
unfolding root_key_from_cache search_cache
root_key_from_cache-grows policy clock s new found =
    rw (new, found)
      (ground
        (arith, length-insert policy (newest policy clock.search 0 s.cache zero_key) s.current))
