-- ===== src/Checkers/Namespace/Equality.antt =====
-- `Equal` of bakery/checkers/namespace.go.
use mathlib.Core.Path.{subst}
use macaroon_bakery.Prelude.{
  Bytes, ◌≤◌, ◌≡◌, ◌≢◌, ◌↔◌, refl, sym, ◌∙◌, true, false, none, some, [], ◌∷◌, arith, ◌==◌,
  bytes_eq, bytes_beq_iff, Option-cases, inl, inr, lookup, delete, lookup-delete, length,
  length-delete, HasUniqueKeys, delete-HasUniqueKeys, Bool-cases, beq_refl,
}
use macaroon_bakery.Checkers.Namespace.{
  Prefixes, Namespace, get_prefix, same_prefixes, equal, resolve,
}
use macaroon_bakery.Checkers.Namespace.Valid.{IsValid}
use macaroon_bakery.Checkers.Namespace.Canonical.{lookup-resolve}

-- No URI has the empty prefix.
abbrev pub HasNoEmptyPrefix : Prefixes → Type 0
HasNoEmptyPrefix [] = Unit
HasNoEmptyPrefix ((k, v) ∷ m) = (v ≢ []) × HasNoEmptyPrefix m

-- Every entry of the first map is one of the second.
abbrev IsSubmap : Prefixes → Prefixes → Type 0
IsSubmap m n = (k v : Bytes) → lookup k m ≡ some v → lookup k n ≡ some v

head-lookup : (j w : Bytes) (m : Prefixes) → lookup j ((j, w) ∷ m) ≡ some w
unfolding lookup
head-lookup j w m = ground (arith, beq_refl j)

tail-lookup :
    (j w k v : Bytes) (m : Prefixes)
    → lookup j m ≡ none
    → lookup k m ≡ some v
    → ((j == k) ≡ false) × (lookup k ((j, w) ∷ m) ≡ some v)
unfolding lookup
tail-lookup j w k v m fresh there = elim (Bool-cases (j == k)) [
  | inl same ↦
      let e : j ≡ k = (bytes_beq_iff j k).0 same in
      let gone : lookup k m ≡ none = subst (λ x. lookup x m ≡ none) e fresh in ground arith
  | inr other ↦ (other, ground arith)
]

get_prefix-lookup :
    (n : Prefixes) (j w : Bytes) → w ≢ [] → (get_prefix n j == w) ≡ true → lookup j n ≡ some w
unfolding get_prefix
get_prefix-lookup n j w nonempty h = elim (Option-cases (lookup j n)) [
  | inl missing ↦ ground (arith, bytes_beq_iff [] w)
  | inr (p, there) ↦ ground (arith, bytes_beq_iff p w)
]

same_prefixes-IsSubmap :
    (m n : Prefixes) → HasNoEmptyPrefix m → same_prefixes m n ≡ true → IsSubmap m n
unfolding same_prefixes lookup
same_prefixes-IsSubmap [] n e h k v there = cc
same_prefixes-IsSubmap ((j, w) ∷ m) n (ne, e) h k v there = elim (Bool-cases (j == k)) [
  | inl same ↦
      let ek : j ≡ k = (bytes_beq_iff j k).0 same in
      subst (λ x. lookup x n ≡ some v) ek (get_prefix-lookup n j w ne (ground arith) ∙ ground arith)
  | inr other ↦ same_prefixes-IsSubmap m n e (ground arith) k v (ground arith)
]

IsSubmap-same_prefixes :
    (m n : Prefixes) → HasUniqueKeys m → IsSubmap m n → same_prefixes m n ≡ true
unfolding same_prefixes get_prefix
IsSubmap-same_prefixes [] n u h = refl
IsSubmap-same_prefixes ((j, w) ∷ m) n (fresh, u) h =
    let tail : IsSubmap m n = λ k v there. h k v (tail-lookup j w k v m fresh there).1 in
    ground (arith, h j w (head-lookup j w m), beq_refl w, IsSubmap-same_prefixes m n u tail)

IsSubmap-delete :
    (m n : Prefixes) (j : Bytes) → lookup j m ≡ none → IsSubmap m n → IsSubmap m (delete j n)
IsSubmap-delete m n j gone h k v there =
    ground (arith, lookup-delete j k n, h k v there, (tail-lookup j v k v m gone there).0)

IsSubmap-length :
    (m n : Prefixes) → HasUniqueKeys m → HasUniqueKeys n → IsSubmap m n → length m ≤ length n
IsSubmap-length [] n um un h = omega arith
IsSubmap-length ((j, w) ∷ m) n (fresh, um) un h =
    let tail : IsSubmap m n = λ k v there. h k v (tail-lookup j w k v m fresh there).1 in
    omega (
      arith,
      length-delete j w n un (h j w (head-lookup j w m)),
      IsSubmap-length m (delete j n) um (delete-HasUniqueKeys j n un)
          (IsSubmap-delete m n j fresh tail),
    )

-- A map of as many entries that holds those of `m` holds no more.
IsSubmap-lookup :
    (m n : Prefixes) (k : Bytes)
    → HasUniqueKeys m
    → HasUniqueKeys n
    → length m ≡ length n
    → IsSubmap m n
    → lookup k m ≡ lookup k n
IsSubmap-lookup m n k um un len h = elim (Option-cases (lookup k m)) [
  | inr (v, there) ↦ there ∙ sym (h k v there)
  | inl gone ↦ elim (Option-cases (lookup k n)) [
    | inl missing ↦ gone ∙ sym missing
    | inr (v, there) ↦ absurd (
        omega (
          arith,
          length-delete k v n un there,
          IsSubmap-length m (delete k n) um (delete-HasUniqueKeys k n un)
              (IsSubmap-delete m n k gone h),
        ))
  ]
]

resolve-lookup :
    (ns ns' : Namespace) (k : Bytes)
    → lookup k ns.uri_to_prefix ≡ lookup k ns'.uri_to_prefix
    → resolve (some ns) k ≡ resolve (some ns') k
unfolding resolve
resolve-lookup ns ns' k h = rw (h, resolve)

-- For valid namespaces of which the first has no empty prefix, `Equal` answers true exactly where
-- the two resolve every URI alike.
pub equal_iff :
    (ns ns' : Namespace)
    → IsValid ns
    → IsValid ns'
    → HasNoEmptyPrefix ns.uri_to_prefix
    → (equal (some ns) (some ns') ≡ true)
      ↔ ((uri : Bytes) → resolve (some ns) uri ≡ resolve (some ns') uri)
unfolding equal
equal_iff ns ns' v v' ne =
    let m = ns.uri_to_prefix in
    let n = ns'.uri_to_prefix in
    (
      λ h uri. resolve-lookup ns ns' uri (
          IsSubmap-lookup m n uri v.unique v'.unique (ground arith)
            (same_prefixes-IsSubmap m n ne (ground arith))),
      λ h.
          let sub : IsSubmap m n = λ k w there. sym (lookup-resolve ns ns' k (h k)) ∙ there in
          let bus : IsSubmap n m = λ k w there. lookup-resolve ns ns' k (h k) ∙ there in
          let le : length m ≤ length n = IsSubmap-length m n v.unique v'.unique sub in
          let ge : length n ≤ length m = IsSubmap-length n m v'.unique v.unique bus in
          ground (arith, IsSubmap-same_prefixes m n v.unique sub),
    )

-- `Equal` answers true for two namespaces that differ in one URI, which has the empty prefix in
-- each and is absent from the other, although they resolve the first of the two URIs differently.
-- The map that they share has unique keys and neither URI.
pub equal_confuses :
    (m : Prefixes) (u v : Bytes)
    → u ≢ v
    → HasUniqueKeys m
    → lookup u m ≡ none
    → lookup v m ≡ none
    → (equal
          (some (record { uri_to_prefix = (u, []) ∷ m }))
          (some (record { uri_to_prefix = (v, []) ∷ m }))
        ≡ true)
      × (resolve (some (record { uri_to_prefix = (u, []) ∷ m })) u
          ≢ resolve (some (record { uri_to_prefix = (v, []) ∷ m })) u)
unfolding equal same_prefixes resolve lookup get_prefix
equal_confuses m u v ne um gu gv =
    let sub : IsSubmap m ((v, []) ∷ m) = λ k w there. (tail-lookup v [] k w m gv there).1 in
    (
      ground (
        arith,
        IsSubmap-same_prefixes m ((v, []) ∷ m) um sub,
        bytes_beq_iff v u,
        beq_refl {A = Bytes} [],
      ),
      ground (arith, bytes_beq_iff v u, beq_refl u),
    )
