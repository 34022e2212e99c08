-- ===== src/Strings/Utf8.antt =====
-- `utf8.DecodeRune`, `utf8.ValidString`, `unicode.IsSpace` and `strings.IndexFunc`.
pub mod Ascii
use macaroon_bakery.Prelude.{
  Bytes, ℕ, zero, suc, ◌+◌, ◌-◌, ◌*◌, ◌≤◌, ◌<◌, ◌≡◌, refl, Bool, true, false, ◌&&◌, ◌||◌, Option,
  none, some, List, [], ◌∷◌, ◌++◌, arith, leb, ltb, nat_beq, if◌then◌else◌, length, take,
  take-append_le, Bool-cases, inl, inr,
}

pub record Rune : Type 0 where
  pub point : ℕ
  pub valid : Bool
  pub bytes : Bytes

-- What the first byte of a sequence asks for: the continuation bytes and the range of the first.
pub record Lead : Type 0 where
  pub payload : ℕ
  pub extra : ℕ
  pub low : ℕ
  pub high : ℕ

-- The tables `first` and `acceptRanges` of unicode/utf8, for the bytes that start a sequence of
-- several.
unfoldable pub lead : ℕ → Option Lead
lead b =
    if ltb b 0xC2
    then none
    else if ltb b 0xE0
    then some (record { payload = b - 0xC0; extra = 1; low = 0x80; high = 0xBF })
    else if nat_beq b 0xE0
    then some (record { payload = 0; extra = 2; low = 0xA0; high = 0xBF })
    else if nat_beq b 0xED
    then some (record { payload = 0xD; extra = 2; low = 0x80; high = 0x9F })
    else if ltb b 0xF0
    then some (record { payload = b - 0xE0; extra = 2; low = 0x80; high = 0xBF })
    else if nat_beq b 0xF0
    then some (record { payload = 0; extra = 3; low = 0x90; high = 0xBF })
    else if ltb b 0xF4
    then some (record { payload = b - 0xF0; extra = 3; low = 0x80; high = 0xBF })
    else if nat_beq b 0xF4
    then some (record { payload = 4; extra = 3; low = 0x80; high = 0x8F })
    else none

-- Do `n` continuation bytes follow, the first between `low` and `high`?
unfoldable pub follows : ℕ → ℕ → ℕ → Bytes → Bool
follows zero low high s = true
follows (suc n) low high [] = false
follows (suc n) low high (c ∷ s) = leb low c && leb c high && follows n 0x80 0xBF s

unfoldable pub gather : ℕ → ℕ → Bytes → ℕ
gather zero acc s = acc
gather (suc n) acc [] = acc
gather (suc n) acc (c ∷ s) = gather n (acc * 64 + (c - 0x80)) s

-- The rune that a sequence stands for; `RuneError` and width 1 where it is broken.
abbrev pub bad_rune : ℕ → Rune
bad_rune b = record { point = 0xFFFD; valid = false; bytes = b ∷ [] }

abbrev pub ascii_rune : ℕ → Rune
ascii_rune b = record { point = b; valid = true; bytes = b ∷ [] }

unfoldable pub long_rune : ℕ → Lead → Bytes → Rune
unfolding follows gather
long_rune b l s =
    if follows l.extra l.low l.high s
    then record { point = gather l.extra l.payload s; valid = true; bytes = b ∷ take l.extra s }
    else bad_rune b

unfoldable pub lead_rune : ℕ → Option Lead → Bytes → Rune
unfolding long_rune
lead_rune b none s = bad_rune b
lead_rune b (some l) s = long_rune b l s

-- `utf8.DecodeRune` of `b ∷ s`.
unfoldable pub decode_rune : ℕ → Bytes → Rune
unfolding lead_rune lead
decode_rune b s = if ltb b 0x80 then ascii_rune b else lead_rune b (lead b) s

abbrev width_after : Rune → ℕ
width_after r = length r.bytes - 1

-- The runes of a text behind `k` bytes that belong to the rune before.
unfoldable pub runes_from : ℕ → Bytes → List Rune
unfolding decode_rune
runes_from k [] = []
runes_from zero (b ∷ s) = let r = decode_rune b s in r ∷ runes_from (width_after r) s
runes_from (suc k) (b ∷ s) = runes_from k s

-- `range s` over a string.
unfoldable pub runes : Bytes → List Rune
unfolding runes_from
runes s = runes_from 0 s

unfoldable pub all_valid : List Rune → Bool
all_valid [] = true
all_valid (r ∷ rs) = r.valid && all_valid rs

unfoldable pub valid_string : Bytes → Bool
unfolding runes all_valid
valid_string s = all_valid (runes s)

-- `strings.IndexFunc(s, f)`, where the answer is the byte offset or -1, here `none`.
unfoldable pub index_from : (ℕ → Bool) → ℕ → List Rune → Option ℕ
index_from f i [] = none
index_from f i (r ∷ rs) = if f r.point then some i else index_from f (i + length r.bytes) rs

unfoldable pub index_func : Bytes → (ℕ → Bool) → Option ℕ
unfolding runes index_from
index_func s f = index_from f 0 (runes s)

unfoldable pub is_space : ℕ → Bool
is_space r =
    (leb 0x09 r && leb r 0x0D)
    || nat_beq r 0x20
    || nat_beq r 0x85
    || nat_beq r 0xA0
    || nat_beq r 0x1680
    || (leb 0x2000 r && leb r 0x200A)
    || nat_beq r 0x2028
    || nat_beq r 0x2029
    || nat_beq r 0x202F
    || nat_beq r 0x205F
    || nat_beq r 0x3000

-- An ASCII byte ends every sequence: it is a rune of its own wherever it stands.
follows-append :
    (n low high : ℕ) (s : Bytes) (c : ℕ) (t : Bytes)
    → c < 0x80
    → 0x80 ≤ low
    → follows n low high (s ++ c ∷ t) ≡ follows n low high s
unfolding follows
follows-append zero low high s c t h k = refl
follows-append (suc n) low high [] c t h k = ground arith
follows-append (suc n) low high (b ∷ s) c t h k = ground (arith, follows-append n 0x80 0xBF s c t h)

follows-length : (n low high : ℕ) (s : Bytes) → follows n low high s ≡ true → n ≤ length s
unfolding follows
follows-length zero low high s h = omega arith
follows-length (suc n) low high [] h = cc
follows-length (suc n) low high (b ∷ s) h = ground (arith, follows-length n 0x80 0xBF s)

gather-append : (n acc : ℕ) (s t : Bytes) → n ≤ length s → gather n acc (s ++ t) ≡ gather n acc s
unfolding gather
gather-append zero acc s t h = refl
gather-append (suc n) acc [] t h = absurd (omega arith)
gather-append (suc n) acc (b ∷ s) t h = gather-append n _ s t (omega arith)

lead_low : (b : ℕ) (l : Lead) → lead b ≡ some l → 0x80 ≤ l.low
unfolding lead
lead_low b l h = ground arith

long_rune-append :
    (b : ℕ) (l : Lead) (s : Bytes) (c : ℕ) (t : Bytes)
    → c < 0x80
    → 0x80 ≤ l.low
    → long_rune b l (s ++ c ∷ t) ≡ long_rune b l s
unfolding long_rune
long_rune-append b l s c t h k = elim (Bool-cases (follows l.extra l.low l.high s)) [
  | inl whole ↦
      let fits : l.extra ≤ length s = follows-length _ l.low l.high s whole in
      rw (
        follows-append l.extra l.low l.high s c t h k,
        whole,
        gather-append l.extra l.payload s (c ∷ t) fits,
        take-append_le l.extra s (c ∷ t) fits,
      )
  | inr broken ↦ rw (follows-append l.extra l.low l.high s c t h k, broken)
]

lead_rune-append :
    (b : ℕ) (o : Option Lead) (s : Bytes) (c : ℕ) (t : Bytes)
    → lead b ≡ o
    → c < 0x80
    → lead_rune b o (s ++ c ∷ t) ≡ lead_rune b o s
unfolding lead_rune
lead_rune-append b none s c t e h = refl
lead_rune-append b (some l) s c t e h =
    unfold long_rune in long_rune-append b l s c t h (lead_low b l e)

pub decode_rune-append :
    (b : ℕ) (s : Bytes) (c : ℕ) (t : Bytes)
    → c < 0x80
    → decode_rune b (s ++ c ∷ t) ≡ decode_rune b s
unfolding decode_rune
decode_rune-append b s c t h = elim (Bool-cases (ltb b 0x80)) [
  | inl small ↦ rw small
  | inr big ↦ rw big (lead_rune-append b (lead b) s c t refl h)
]
