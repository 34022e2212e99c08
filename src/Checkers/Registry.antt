-- ===== src/Checkers/Registry.antt =====
-- The type `Checker` of bakery/checkers/checkers.go.
pub mod Laws
use macaroon_bakery.Prelude.{
  Bytes, codes, Bool, true, false, not, ◌&&◌, Option, none, some, List, [], ◌∷◌, if◌then◌else◌,
  bytes_eq, Result, ok, err, ◌>>=◌, ◌>>◌, check, from_option, Map, lookup, insert,
}
use macaroon_bakery.Strings.Search.{contains_byte}
use macaroon_bakery.Checkers.Caveat.{
  std_namespace, condition_with_prefix, parse_caveat, ParseError, is_empty, colon,
}
use macaroon_bakery.Checkers.Namespace.{
  Namespace, NamespaceError, resolve, register as register_uri,
}

-- Why `Register` panics.
pub data RegisterError : Type 0 where
  nil_check no_prefix colon_in_condition already_registered : RegisterError
  bad_namespace : NamespaceError → RegisterError

-- The contexts and the errors of the check functions are the clients'.
module _ (Context CheckFailure : Type 0) where
  -- A check function: `none` is a nil error.
  abbrev pub Func : Type 0
  Func = Context → Bytes → Bytes → Option CheckFailure

  pub record CheckerInfo : Type 0 where
    pub check_func : Func
    pub prefix : Bytes
    pub name : Bytes
    pub namespace : Bytes

  pub record Checker : Type 0 where
    pub namespace : Namespace
    pub checkers : Map Bytes CheckerInfo

  -- The cause of an error of `CheckFirstPartyCaveat`.
  pub data CheckError : Type 0 where
    caveat_not_recognized : CheckError
    not_satisfied : CheckFailure → CheckError

module _ {Context CheckFailure : Type 0} where
  -- `NewEmpty`; a nil namespace stands for a new one.
  unfoldable pub new_empty : Option Namespace → Checker Context CheckFailure
  new_empty none = record { namespace = record { uri_to_prefix = [] }; checkers = [] }
  new_empty (some ns) = record { namespace = ns; checkers = [] }

  -- `Register` behind its guards.
  unfoldable pub add_checker :
      Checker Context CheckFailure
      → Bytes
      → CheckerInfo Context CheckFailure
      → Result RegisterError (Checker Context CheckFailure)
  add_checker c full_cond info = elim (lookup full_cond c.checkers) [
    | some _ ↦ err already_registered
    | none ↦ ok (record c { checkers = insert full_cond info c.checkers })
  ]

  unfoldable pub register :
      Checker Context CheckFailure
      → Bytes
      → Bytes
      → Option (Func Context CheckFailure)
      → Result RegisterError (Checker Context CheckFailure)
  unfolding add_checker
  register c cond uri func = do
    f ← from_option nil_check func
    let found = resolve (some c.namespace) uri
    check found.1 no_prefix
    check (not (is_empty found.0 && contains_byte cond colon)) colon_in_condition
    add_checker c (condition_with_prefix found.0 cond)
        (record { check_func = f; prefix = found.0; name = cond; namespace = uri })

  unfoldable pub register_conds :
      Checker Context CheckFailure
      → Map Bytes (Func Context CheckFailure)
      → Result RegisterError (Checker Context CheckFailure)
  register_conds c [] = ok c
  register_conds c ((cond, f) ∷ fs) = do
    c' ← register c cond std_namespace (some f)
    register_conds c' fs

  -- `RegisterStd`, with the map `allCheckers` in the order in which the loop meets it.
  unfoldable pub register_std :
      Map Bytes (Func Context CheckFailure)
      → Checker Context CheckFailure
      → Result RegisterError (Checker Context CheckFailure)
  unfolding register_conds
  register_std all_checkers c = elim (register_uri c.namespace std_namespace []) [
    | err e ↦ err (bad_namespace e)
    | ok ns ↦ register_conds (record c { namespace = ns }) all_checkers
  ]

  -- `New`
  unfoldable pub new :
      Map Bytes (Func Context CheckFailure)
      → Option Namespace
      → Result RegisterError (Checker Context CheckFailure)
  unfolding register_std new_empty
  new all_checkers ns = register_std all_checkers (new_empty ns)

  unfoldable pub failure : Option CheckFailure → Option (CheckError Context CheckFailure)
  failure none = none
  failure (some e) = some (not_satisfied e)

  -- `CheckFirstPartyCaveat` behind the search for the checker.
  unfoldable pub run_checker :
      Context
      → Bytes
      → Bytes
      → Option (CheckerInfo Context CheckFailure)
      → Option (CheckError Context CheckFailure)
  unfolding failure
  run_checker ctx cond arg none = some caveat_not_recognized
  run_checker ctx cond arg (some info) = failure (info.check_func ctx cond arg)

  unfoldable pub check_parsed :
      Checker Context CheckFailure
      → Context
      → Result ParseError (Bytes × Bytes)
      → Option (CheckError Context CheckFailure)
  unfolding run_checker
  check_parsed c ctx (err e) = some caveat_not_recognized
  check_parsed c ctx (ok (cond, arg)) = run_checker ctx cond arg (lookup cond c.checkers)

  unfoldable pub check_first_party_caveat :
      Checker Context CheckFailure → Context → Bytes → Option (CheckError Context CheckFailure)
  unfolding check_parsed
  check_first_party_caveat c ctx cav = check_parsed c ctx (parse_caveat cav)
