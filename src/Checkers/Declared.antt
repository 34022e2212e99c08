-- ===== src/Checkers/Declared.antt =====
-- Declared caveats: bakery/checkers/declared.go.
pub mod Laws
pub mod Prefixed
use macaroon_bakery.Prelude.{
  Bytes, codes, Bool, true, false, ◌||◌, not, Option, none, some, List, [], ◌∷◌, ◌++◌,
  if◌then◌else◌, ◌==◌, bytes_eq, Result, ok, err, Map, lookup, insert, delete,
}
use macaroon_bakery.Strings.Search.{contains_byte, split_two}
use macaroon_bakery.Checkers.Caveat.{
  Caveat, first_party, error_caveat, parse_caveat, ParseError, is_empty, blank, cond_declared,
  cond_need_declared, std_namespace,
}
use macaroon_bakery.Checkers.Macaroons.{MacaroonCaveat}
use macaroon_bakery.Checkers.Namespace.{Namespace, resolve}

-- `DeclaredCaveat`, where `bad_key` is the text of the error caveat (`fmt.Sprintf` with `%q`).
unfoldable pub declared_caveat : (Bytes → Bytes) → Bytes → Bytes → Caveat
declared_caveat bad_key key value =
    if contains_byte key blank || is_empty key
    then error_caveat (bad_key key)
    else first_party cond_declared (key ++ blank ∷ value)

-- `strings.Join(keys, ",")`
unfoldable pub join_keys : List Bytes → Bytes
join_keys [] = []
join_keys (k ∷ []) = k
join_keys (k ∷ j ∷ keys) = k ++ b',' ∷ join_keys (j ∷ keys)

unfoldable pub need_declared_caveat : Caveat → List Bytes → Caveat
unfolding join_keys
need_declared_caveat cav keys =
    if is_empty cav.location
    then error_caveat (codes "need-declared caveat is not third-party")
    else record {
      condition = cond_need_declared ++ blank ∷ (join_keys keys ++ blank ∷ cav.condition);
      namespace = [];
      location = cav.location;
    }

-- The name and the rest that `ParseCaveat` gives, empty where it fails.
unfoldable pub parts_of : Result ParseError (Bytes × Bytes) → Bytes × Bytes
parts_of (ok p) = p
parts_of (err e) = ([], [])

-- The key and the value that a condition declares: the tests in the loop of
-- `InferDeclaredFromConditions` that go on with the next condition answer `none`.
unfoldable pub declaration : Bytes → Bytes → Option (Bytes × Bytes)
unfolding parts_of
declaration declared_cond cond =
    let parts = parts_of (parse_caveat cond) in
    if parts.0 == declared_cond then split_two parts.1 blank else none

-- The variables of the loop.
pub record Inferring : Type 0 where
  pub info : Map Bytes Bytes
  pub conflicts : List Bytes

-- `if oldVal, ok := info[key]; ok && oldVal != val`
unfoldable pub differs : Option Bytes → Bytes → Bool
differs none val = false
differs (some old) val = not (old == val)

unfoldable pub infer_step : Inferring → Option (Bytes × Bytes) → Inferring
unfolding differs
infer_step s none = s
infer_step s (some (key, val)) =
    if differs (lookup key s.info) val
    then record s { conflicts = s.conflicts ++ key ∷ [] }
    else record s { info = insert key val s.info }

unfoldable pub infer_loop : Bytes → List Bytes → Inferring → Inferring
unfolding infer_step
infer_loop declared_cond [] s = s
infer_loop declared_cond (cond ∷ conds) s =
    infer_loop declared_cond conds (infer_step s (declaration declared_cond cond))

unfoldable pub delete_all : List Bytes → Map Bytes Bytes → Map Bytes Bytes
delete_all [] info = info
delete_all (key ∷ keys) info = delete_all keys (delete key info)

-- `prefix + CondDeclared`
unfoldable pub declared_cond_in : Option Namespace → Bytes
declared_cond_in ns = (resolve ns std_namespace).0 ++ cond_declared

unfoldable pub infer_declared_from_conditions : Option Namespace → List Bytes → Map Bytes Bytes
unfolding declared_cond_in infer_loop delete_all
infer_declared_from_conditions ns conds =
    let s = infer_loop (declared_cond_in ns) conds (record { info = []; conflicts = [] }) in
    delete_all s.conflicts s.info

-- The first party conditions of a macaroon's caveats.
unfoldable pub first_party_conditions : List MacaroonCaveat → List Bytes
unfolding is_empty
first_party_conditions [] = []
first_party_conditions (cav ∷ cavs) =
    let rest = first_party_conditions cavs in if is_empty cav.location then cav.id ∷ rest else rest

pub data DeclaredError : Type 0 where
  no_value : DeclaredError
  not_declared wrong_value : Bytes → Bytes → DeclaredError

unfoldable pub check_value : Map Bytes Bytes → Option (Bytes × Bytes) → Option DeclaredError
check_value attrs none = some no_value
check_value attrs (some (key, expected)) = elim (lookup key attrs) [
  | none ↦ some (not_declared key expected)
  | some val ↦ if val == expected then none else some (wrong_value key expected)
]

-- The macaroons of the package gopkg.in/macaroon.v2, with the method `Caveats`.
module _ {Macaroon : Type 0} (caveats : Macaroon → List MacaroonCaveat) where
  unfoldable pub all_conditions : List Macaroon → List Bytes
  unfolding first_party_conditions
  all_conditions [] = []
  all_conditions (m ∷ ms) = first_party_conditions (caveats m) ++ all_conditions ms

  unfoldable pub infer_declared : Option Namespace → List Macaroon → Map Bytes Bytes
  unfolding all_conditions
  infer_declared ns ms = infer_declared_from_conditions ns (all_conditions ms)

  -- `checkDeclared`, over the namespace and the macaroons that the context holds
  -- (`ContextWithMacaroons` and `MacaroonsFromContext`).
  unfoldable pub check_declared : Option Namespace × List Macaroon → Bytes → Option DeclaredError
  unfolding check_value infer_declared
  check_declared (ns, ms) arg = check_value (infer_declared ns ms) (split_two arg blank)
