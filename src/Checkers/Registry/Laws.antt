-- ===== src/Checkers/Registry/Laws.antt =====
-- What the registered checkers satisfy, and which of them checks a caveat.
use mathlib.Core.Path.{subst, subst₂}
use macaroon_bakery.Prelude.{
  Bytes, ℕ, ◌≡◌, ◌≢◌, refl, sym, ap, inl, inr, true, false, not, ◌&&◌, Option, none, some, [], ◌∷◌,
  arith, ◌==◌, bytes_eq, bytes_beq_iff, beq_refl, Result, ok, ◌>>=◌, check-eq-ok, from_option,
  lookup, insert, lookup-insert, All-append, Option-cases, Bool-cases, append_assoc,
}
use macaroon_bakery.Strings.Search.{contains_byte, index_byte-none, Lacks}
use macaroon_bakery.Checkers.Caveat.{
  condition, condition_with_prefix, parse_caveat, is_empty, colon, blank,
}
use macaroon_bakery.Checkers.Caveat.Laws.{parse_caveat-condition}
use macaroon_bakery.Checkers.Namespace.{Namespace, resolve, resolve_caveat}
use macaroon_bakery.Checkers.Namespace.Valid.{IsValid, IsEntry}
use macaroon_bakery.Checkers.Namespace.Text.{prefix-Lacks-blank, uri-ne-nil}
use macaroon_bakery.Checkers.Registry.{
  Func, CheckerInfo, Checker, register, nil_check, failure, check_first_party_caveat, check_parsed,
}

module _ {Context CheckFailure : Type 0} where
  -- What is known of a registered checker.
  pub record IsRegistered (ns : Namespace) (full_cond : Bytes)
      (info : CheckerInfo Context CheckFailure) : Type 0 where
    pub full : full_cond ≡ condition_with_prefix info.prefix info.name
    pub resolved : resolve (some ns) info.namespace ≡ (info.prefix, true)
    pub plain : info.prefix ≡ [] → Lacks colon info.name

  pub record IsValidChecker (c : Checker Context CheckFailure) : Type 0 where
    pub namespace_valid : IsValid c.namespace
    pub registered :
        (k : Bytes) (info : CheckerInfo Context CheckFailure)
        → lookup k c.checkers ≡ some info
        → IsRegistered c.namespace k info

contains_byte-Lacks : (s : Bytes) (c : ℕ) → contains_byte s c ≡ false → Lacks c s
unfolding contains_byte
contains_byte-Lacks s c h = index_byte-none c s (ground arith)

from_option-some {ℓ κ ν} :
    {E : Type κ} {A : Type ℓ} {B : Type ν} (e : E) (o : Option A) (f : A → Result E B) {b : B}
    → (from_option e o >>= f) ≡ ok b
    → (a : A) × (o ≡ some a) × (f a ≡ ok b)
from_option-some e none f h = cc
from_option-some e (some a) f h = (a, refl, h)

is_empty-nil : (s : Bytes) → s ≡ [] → is_empty s ≡ true
unfolding is_empty
is_empty-nil s h = ground arith

-- What `Register` has done where it has not panicked.
pub register_inv :
    {Context CheckFailure : Type 0} (c c' : Checker Context CheckFailure) (cond uri : Bytes)
    (func : Option (Func Context CheckFailure))
    → register c cond uri func ≡ ok c'
    → (f : Func Context CheckFailure) × (prefix : Bytes) × (func ≡ some f)
      × (resolve (some c.namespace) uri ≡ (prefix, true))
      × (prefix ≡ [] → Lacks colon cond)
      × (lookup (condition_with_prefix prefix cond) c.checkers ≡ none)
      × (c' ≡ record c {
        checkers =
            insert
              (condition_with_prefix prefix cond)
              (record { check_func = f; prefix = prefix; name = cond; namespace = uri })
              c.checkers;
      })
unfolding register
register_inv c c' cond uri func h =
    let found = resolve (some c.namespace) uri in
    let (f, some_f, h1) = from_option-some nil_check func _ h in
    let (ok1, h2) = check-eq-ok found.1 _ _ h1 in
    let (ok2, h3) = check-eq-ok (not (is_empty found.0 && contains_byte cond colon)) _ _ h2 in
    elim (Option-cases (lookup (condition_with_prefix found.0 cond) c.checkers)) [
      | inl new ↦ (
        f,
        found.0,
        some_f,
        ground arith,
        λ e. contains_byte-Lacks cond colon (ground (arith, is_empty-nil found.0 e)),
        new,
        ground arith,
      )
      | inr (old, there) ↦ absurd (ground arith)
    ]

module _ {Context CheckFailure : Type 0} (c : Checker Context CheckFailure) where
  insert-registered :
      (k : Bytes) (info : CheckerInfo Context CheckFailure)
      → IsValidChecker c
      → IsRegistered c.namespace k info
      → IsValidChecker (record c { checkers = insert k info c.checkers })
  insert-registered k info v new = record {
    namespace_valid = v.namespace_valid;
    registered = λ j i there. elim (Bool-cases (k == j)) [
      | inl same ↦
          let ek : k ≡ j = (bytes_beq_iff k j).0 same in
          let ei : info ≡ i = ground (arith, lookup-insert k j info c.checkers) in
          subst₂ (IsRegistered c.namespace) ek ei new
      | inr other ↦ v.registered j i (ground (arith, lookup-insert k j info c.checkers))
    ];
  }

  -- `Register` keeps the registered checkers valid: each stands under its own full condition,
  -- with the prefix of its namespace.
  pub register-IsValidChecker :
      (c' : Checker Context CheckFailure) (cond uri : Bytes)
      (func : Option (Func Context CheckFailure))
      → IsValidChecker c
      → register c cond uri func ≡ ok c'
      → IsValidChecker c'
  register-IsValidChecker c' cond uri func v h =
      let (f, prefix, some_f, found, plain, new, done) = register_inv c c' cond uri func h in
      subst IsValidChecker (sym done) (
        insert-registered (condition_with_prefix prefix cond) _ v
          (record { full = refl; resolved = found; plain = plain }))

pub resolved-IsEntry :
    (ns : Namespace) (uri prefix : Bytes)
    → IsValid ns
    → resolve (some ns) uri ≡ (prefix, true)
    → IsEntry uri prefix
unfolding resolve
resolved-IsEntry ns uri prefix v h = elim (Option-cases (lookup uri ns.uri_to_prefix)) [
  | inl missing ↦ absurd (ground arith)
  | inr (p, there) ↦ v.entry uri prefix (ground arith)
]

-- The prefix goes before the condition, whether or not there is an argument.
pub condition-prefix :
    (prefix name arg : Bytes)
    → condition_with_prefix prefix (condition name arg)
      ≡ condition (condition_with_prefix prefix name) arg
unfolding condition_with_prefix condition
condition-prefix [] name arg = refl
condition-prefix (x ∷ prefix) name [] = refl
condition-prefix (x ∷ prefix) name (a ∷ arg) =
    sym (append_assoc (x ∷ prefix) (colon ∷ name) (blank ∷ a ∷ arg))

pub full_cond-ne-nil : (prefix name : Bytes) → name ≢ [] → condition_with_prefix prefix name ≢ []
unfolding condition_with_prefix
full_cond-ne-nil [] name h = h
full_cond-ne-nil (x ∷ prefix) name h = λ e. cc

pub full_cond-Lacks :
    (prefix name : Bytes)
    → Lacks blank prefix
    → Lacks blank name
    → Lacks blank (condition_with_prefix prefix name)
unfolding condition_with_prefix
full_cond-Lacks [] name hp hn = hn
full_cond-Lacks (x ∷ prefix) name hp hn =
    All-append _ (x ∷ prefix) (colon ∷ name) hp ((omega arith), hn)

-- A first party caveat in a registered namespace gets the prefix of its namespace.
pub resolve_caveat-found :
    (unregistered : Bytes → Bytes → Bytes) (ns : Namespace) (cond uri prefix : Bytes)
    → uri ≢ []
    → resolve (some ns) uri ≡ (prefix, true)
    → (resolve_caveat unregistered
        (some ns)
        (record { condition = cond; namespace = uri; location = [] })).condition
      ≡ condition_with_prefix prefix cond
unfolding resolve_caveat condition_with_prefix
resolve_caveat-found un ns cond [] prefix ne found = absurd (ne refl)
resolve_caveat-found un ns cond (x ∷ uri) prefix ne found = rw found (ground arith)

module _ {Context CheckFailure : Type 0} (unregistered : Bytes → Bytes → Bytes)
    (c c' : Checker Context CheckFailure) (cond uri arg : Bytes) (f : Func Context CheckFailure)
    (ctx : Context) (v : IsValidChecker c) (registered : register c cond uri (some f) ≡ ok c')
    (nonempty : cond ≢ []) (free : Lacks blank cond) where
  -- A caveat that a client builds for a condition that `Register` accepted on a valid checker,
  -- resolved in the checker's namespace, is checked by the function registered for it, with its
  -- full condition and its argument, and the answer is that function's. The condition is not
  -- empty and has no blank.
  pub check_first_party_caveat-register :
      check_first_party_caveat c' ctx
        (resolve_caveat unregistered
          (some c'.namespace)
          (record { condition = condition cond arg; namespace = uri; location = [] })).condition
      ≡ failure (f ctx (condition_with_prefix (resolve (some c.namespace) uri).0 cond) arg)
  unfolding check_first_party_caveat
  check_first_party_caveat-register =
      let (g, prefix, some_g, found, plain, new, done) =
        register_inv c c' cond uri (some f) registered in
      let e : IsEntry uri prefix =
        resolved-IsEntry c.namespace uri prefix v.namespace_valid found in
      let full = condition_with_prefix prefix cond in
      let text =
        resolve_caveat-found unregistered c.namespace (condition cond arg) uri prefix
          (uri-ne-nil uri e.uri_valid) found in
      let parsed : parse_caveat (condition full arg) ≡ ok (full, arg) =
        parse_caveat-condition full arg (full_cond-ne-nil prefix cond nonempty)
          (full_cond-Lacks prefix cond (prefix-Lacks-blank prefix e.prefix_valid) free) in
      let there : lookup full c'.checkers
          ≡ some (record { check_func = g; prefix = prefix; name = cond; namespace = uri }) =
        rw (done, lookup-insert, beq_refl full) in
      let ran : check_first_party_caveat c' ctx (condition full arg) ≡ failure (g ctx full arg) =
        rw (parsed, check_parsed, there) in
      let namespace : c'.namespace ≡ c.namespace = ap (λ x. x.namespace) done in
      let same : f ≡ g = cc (some_g) in
      rw (namespace, text, condition-prefix prefix cond arg, ran, found, same)
