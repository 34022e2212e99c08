-- ===== src/Prelude/Maps.antt =====
-- Go's maps as association lists. A key stands once in a map that is built by `insert`; the order
-- of the entries is the order in which a loop over the map happens to meet them.
use Prim.Native.Nat.{ℕ, suc}
use mathlib.Core.Bool.{Bool, true, false}
use mathlib.Core.List.{List, [], ◌∷◌}
use mathlib.Core.Option.{Option, none, some}
use mathlib.Core.Path.{◌≡◌, refl}
use native.Mathlib.Omega.{arith}
use macaroon_bakery.Prelude.Tests.{Eq, ◌==◌, if◌then◌else◌}
use macaroon_bakery.Prelude.Lists.{length}

abbrev pub Map {ℓ κ} : Type ℓ → Type κ → Type (ℓ ⊔ κ)
Map K V = List (K × V)

-- What an insertion adds to the number of entries.
abbrev pub grown {κ} : {V : Type κ} → Option V → ℕ → ℕ
grown none n = suc n
grown (some _) n = n

module _ {ℓ κ} {K : Type ℓ} {V : Type κ} ⦃e : Eq K⦄ where
  unfoldable pub lookup : K → Map K V → Option V
  lookup k [] = none
  lookup k ((j, v) ∷ m) = if j == k then some v else lookup k m

  unfoldable pub insert : K → V → Map K V → Map K V
  insert key value [] = (key, value) ∷ []
  insert key value ((k, old) ∷ m) =
      if k == key then (key, value) ∷ m else (k, old) ∷ insert key value m

  unfoldable pub delete : K → Map K V → Map K V
  delete k [] = []
  delete k ((j, w) ∷ m) = let rest = delete k m in if j == k then rest else (j, w) ∷ rest

  pub lookup-insert :
      (key k : K) (value : V) (m : Map K V)
      → lookup k (insert key value m) ≡ (if key == k then some value else lookup k m)
  unfolding lookup insert
  lookup-insert key k value [] = refl
  lookup-insert key k value ((j, old) ∷ m) =
      ground (arith, e.beq_iff key k, e.beq_iff j key, e.beq_iff j k, lookup-insert key k value m)

  pub lookup-delete :
      (k j : K) (m : Map K V) → lookup j (delete k m) ≡ (if k == j then none else lookup j m)
  unfolding lookup delete
  lookup-delete k j [] = ground arith
  lookup-delete k j ((i, w) ∷ m) =
      ground (arith, e.beq_iff k j, e.beq_iff i k, e.beq_iff i j, lookup-delete k j m)

  -- Each key stands once.
  abbrev pub HasUniqueKeys : Map K V → Type (ℓ ⊔ κ)
  HasUniqueKeys [] = Unit
  HasUniqueKeys ((k, v) ∷ m) = (lookup k m ≡ none) × HasUniqueKeys m

  insert-HasUniqueKeys_step :
      (k j : K) (v w : V) (m : Map K V) (b : Bool)
      → (j == k) ≡ b
      → lookup j m ≡ none
      → HasUniqueKeys m
      → HasUniqueKeys (insert k v m)
      → HasUniqueKeys (if b then (k, v) ∷ m else (j, w) ∷ insert k v m)
  insert-HasUniqueKeys_step k j v w m true same fresh h ih =
      let e : j ≡ k = (e.beq_iff j k).0 same in (rw e at fresh, h)
  insert-HasUniqueKeys_step k j v w m false new fresh h ih =
      (ground (arith, lookup-insert k j v m, e.beq_iff k j, e.beq_iff j k), ih)

  pub insert-HasUniqueKeys :
      (k : K) (v : V) (m : Map K V) → HasUniqueKeys m → HasUniqueKeys (insert k v m)
  unfolding insert lookup
  insert-HasUniqueKeys k v [] h = (refl, tt)
  insert-HasUniqueKeys k v ((j, w) ∷ m) (fresh, h) =
      insert-HasUniqueKeys_step k j v w m (j == k) refl fresh h (insert-HasUniqueKeys k v m h)

  pub length-insert :
      (k : K) (v : V) (m : Map K V) → length (insert k v m) ≡ grown (lookup k m) (length m)
  unfolding insert lookup
  length-insert k v [] = refl
  length-insert k v ((j, w) ∷ m) = ground (arith, length-insert k v m)

  length-delete_missing : (k : K) (m : Map K V) → lookup k m ≡ none → length (delete k m) ≡ length m
  unfolding lookup delete
  length-delete_missing k [] h = refl
  length-delete_missing k ((j, w) ∷ m) h = ground (arith, length-delete_missing k m)

  pub length-delete :
      (k : K) (v : V) (m : Map K V)
      → HasUniqueKeys m
      → lookup k m ≡ some v
      → length m ≡ suc (length (delete k m))
  unfolding lookup delete
  length-delete k v [] u h = cc
  length-delete k v ((j, w) ∷ m) (fresh, u) h =
      ground (arith, length-delete k v m u, length-delete_missing k m, e.beq_iff j k)

  pub delete-HasUniqueKeys : (k : K) (m : Map K V) → HasUniqueKeys m → HasUniqueKeys (delete k m)
  unfolding lookup delete
  delete-HasUniqueKeys k [] u = tt
  delete-HasUniqueKeys k ((j, w) ∷ m) (fresh, u) =
      let rest = delete-HasUniqueKeys k m u in
      elim (j == k) as (λ b. HasUniqueKeys (if b then delete k m else (j, w) ∷ delete k m)) [
        | true ↦ rest
        | false ↦ (ground (arith, lookup-delete k j m), rest)
      ]
