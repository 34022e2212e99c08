-- ===== src/Tests/Squashing.antt =====
-- The squashing of conditions of bakery/checker.go on small inputs.
use macaroon_bakery.Prelude.{
  Bytes, codes, ℕ, zero, suc, ◌<◌, ◌≡◌, ◌↔◌, refl, ap, arith, Option, none, some, List, [], ◌∷◌,
  length, replicate, All, bytes_beq,
}
use macaroon_bakery.Prelude.Sort.{sort_strings, insert_sorted, bytes_le}
use macaroon_bakery.Strings.Search.{index_byte}
use macaroon_bakery.Checkers.Caveat.{parse_caveat, condition, first_party}
use macaroon_bakery.Checkers.Time.{time_before_caveat}
use macaroon_bakery.Auth.Squash.{
  squashed_time, squash, add, add_all, final, compact, lower_expiry, set_time,
}
use macaroon_bakery.Auth.Squash.Laws.{IsCheck, FormatLaws, IsWritable, squash_iff}

-- A time is written as so many ones.
abbrev read_tally : Bytes → Option ℕ
read_tally s = some (length s)

abbrev write_tally : ℕ → Bytes
write_tally t = replicate t b'1'

length-write_tally : (t : ℕ) → length (write_tally t) ≡ t
length-write_tally zero = refl
length-write_tally (suc t) = ap suc (length-write_tally t)

tally-FormatLaws : FormatLaws read_tally write_tally 0 1000
tally-FormatLaws = record { parse-format = λ t low high. ap some (length-write_tally t) }

abbrev IsAfterOne : Option ℕ → Type 0
IsAfterOne none = Unit
IsAfterOne (some t) = 1 < t

-- What a checker says at the time 1 that knows no condition but time-before.
abbrev PassesAtOne : Bytes → Type 0
PassesAtOne cond = IsAfterOne (squashed_time read_tally 0 (parse_caveat cond))

one-IsCheck : IsCheck read_tally 0 1 PassesAtOne
one-IsCheck = record { before = λ cond t h. rw h (λ x. x, λ x. x) }

abbrev conds : List Bytes
conds = codes "time-before 111" ∷ codes "is-ok" ∷ codes "time-before 11" ∷ codes "is-ok" ∷ []

conds_squashed : squash read_tally write_tally 0 conds ≡ codes "is-ok" ∷ codes "time-before 11" ∷ []
unfolding squash add_all add squashed_time set_time lower_expiry final compact parse_caveat
    condition first_party time_before_caveat index_byte sort_strings insert_sorted bytes_le
    bytes_beq
conds_squashed = refl

-- The conditions set the times 3 and 2.
conds-IsWritable : All (IsWritable read_tally 0 0 1000) conds
unfolding squashed_time set_time parse_caveat index_byte bytes_beq
conds-IsWritable =
    (λ t h. ground arith, (λ t h. absurd (cc), (λ t h. ground arith, (λ t h. absurd (cc), tt))))

squash_iff_example : All PassesAtOne (squash read_tally write_tally 0 conds) ↔ All PassesAtOne conds
squash_iff_example =
    squash_iff read_tally write_tally 0 0 1000 1 PassesAtOne one-IsCheck tally-FormatLaws conds
      conds-IsWritable
