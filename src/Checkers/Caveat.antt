-- ===== src/Checkers/Caveat.antt =====
-- Caveats and their conditions: bakery/checkers/checkers.go.
pub mod Laws
use macaroon_bakery.Prelude.{
  Bytes, codes, ℕ, zero, suc, Bool, true, false, Option, none, some, [], ◌∷◌, ◌++◌, if◌then◌else◌,
  bytes_eq, Result, ok, err, take, drop,
}
use macaroon_bakery.Strings.Search.{index_byte}

abbrev pub std_namespace : Bytes
std_namespace = codes "std"

abbrev pub cond_declared : Bytes
cond_declared = codes "declared"

abbrev pub cond_time_before : Bytes
cond_time_before = codes "time-before"

abbrev pub cond_error : Bytes
cond_error = codes "error"

abbrev pub cond_need_declared : Bytes
cond_need_declared = codes "need-declared"

pub record Caveat : Type 0 where
  pub condition : Bytes
  pub namespace : Bytes
  pub location : Bytes

abbrev pub blank : ℕ
blank = b' '

abbrev pub colon : ℕ
colon = b':'

unfoldable pub is_empty : Bytes → Bool
is_empty [] = true
is_empty (b ∷ s) = false

-- `Condition`
unfoldable pub condition : Bytes → Bytes → Bytes
unfolding is_empty
condition name arg = if is_empty arg then name else name ++ blank ∷ arg

unfoldable pub first_party : Bytes → Bytes → Caveat
first_party name arg = record {
  condition = condition name arg;
  namespace = std_namespace;
  location = [];
}

-- `ErrorCaveatf`, of the text that `fmt.Sprintf` makes.
unfoldable pub error_caveat : Bytes → Caveat
error_caveat text = first_party cond_error text

pub data ParseError : Type 0 where
  empty_caveat starts_with_space : ParseError

-- What `ParseCaveat` makes of the place of the first blank.
unfoldable pub cut_caveat : Bytes → Option ℕ → Result ParseError (Bytes × Bytes)
cut_caveat cav none = ok (cav, [])
cut_caveat cav (some zero) = err starts_with_space
cut_caveat cav (some (suc i)) = ok (take (suc i) cav, drop (suc (suc i)) cav)

unfoldable pub parse_caveat : Bytes → Result ParseError (Bytes × Bytes)
unfolding cut_caveat is_empty
parse_caveat cav = if is_empty cav then err empty_caveat else cut_caveat cav (index_byte cav blank)

-- `ConditionWithPrefix`
unfoldable pub condition_with_prefix : Bytes → Bytes → Bytes
unfolding is_empty
condition_with_prefix prefix cond = if is_empty prefix then cond else prefix ++ colon ∷ cond
