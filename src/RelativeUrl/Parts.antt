-- ===== src/RelativeUrl/Parts.antt =====
-- The parts of paths in `RelativeURLPath` of internal/httputil/relativeurl.go.
use mathlib.Core.Path.{subst}
use macaroon_bakery.Prelude.{
  Bytes, ℕ, zero, suc, ◌≡◌, ◌≢◌, refl, sym, ap, ◌∙◌, false, List, [], ◌∷◌, ◌++◌, length, replicate,
  ◌==◌, bytes_eq, bytes_beq_iff, arith, All, All-append, All-append_left, All-append_right,
  Bool-cases, inl, inr,
}
use macaroon_bakery.Strings.Search.{Lacks}
use macaroon_bakery.Strings.Split.{split, join}
use macaroon_bakery.Checkers.Caveat.{is_empty}
use macaroon_bakery.RelativeUrl.{
  slash, dot, dotdot, is_absolute, init_parts, last_part, strip_common, up_and_down,
}

-- A part that is no dot segment, and one that is not empty either.
abbrev pub IsNoDots : Bytes → Type 0
IsNoDots p = (p == dot ≡ false) × (p == dotdot ≡ false)

abbrev pub IsPlain : Bytes → Type 0
IsPlain p = (is_empty p ≡ false) × IsNoDots p

pub init-last : (ps : List Bytes) → ps ≢ [] → init_parts ps ++ last_part ps ∷ [] ≡ ps
unfolding init_parts last_part
init-last [] ne = absurd (ne refl)
init-last (p ∷ []) ne = refl
init-last (p ∷ q ∷ ps) ne = ap (λ l. p ∷ l) (init-last (q ∷ ps) (λ e. cc))

pub init-cons : (p : Bytes) (ps : List Bytes) → ps ≢ [] → init_parts (p ∷ ps) ≡ p ∷ init_parts ps
unfolding init_parts
init-cons p [] ne = absurd (ne refl)
init-cons p (q ∷ ps) ne = refl

pub last-cons : (p : Bytes) (ps : List Bytes) → ps ≢ [] → last_part (p ∷ ps) ≡ last_part ps
unfolding last_part
last-cons p [] ne = absurd (ne refl)
last-cons p (q ∷ ps) ne = refl

pub split-slash : (s : Bytes) → split slash (slash ∷ s) ≡ [] ∷ split slash s
unfolding split
split-slash s = ground arith

pub strip_common-append :
    (bs ts : List Bytes)
    → (common : List Bytes) × (bs ≡ common ++ (strip_common bs ts).0)
      × (ts ≡ common ++ (strip_common bs ts).1)
unfolding strip_common
strip_common-append [] ts = ([], refl, refl)
strip_common-append (b ∷ bs) [] = ([], refl, refl)
strip_common-append (b ∷ bs) (t ∷ ts) = elim (Bool-cases (b == t)) [
  | inl same ↦
      let (common, hb, ht) = strip_common-append bs ts in
      let e : b ≡ t = (bytes_beq_iff b t).0 same in
      (
        b ∷ common,
        rw same (ap (λ l. b ∷ l) hb),
        rw same (ap (λ l. t ∷ l) ht ∙ ap (λ x. x ∷ (common ++ (strip_common bs ts).1)) (sym e)),
      )
  | inr other ↦ ([], rw other refl, rw other refl)
]

pub join-empty : (p : Bytes) (ps : List Bytes) → join slash (p ∷ ps) ≡ [] → p ∷ ps ≡ [] ∷ []
unfolding join
join-empty p [] h = ap (λ x. x ∷ []) h
join-empty [] (q ∷ ps) h = absurd (cc)
join-empty (c ∷ p) (q ∷ ps) h = absurd (cc)

-- The parts of the answer: the first is empty only where it is the only one.
pub up_and_down-cons :
    (base_only targ_only : List Bytes) (last_elem : Bytes)
    → All IsPlain targ_only
    → (p : Bytes) × (ps : List Bytes) × (up_and_down (base_only, targ_only) last_elem ≡ p ∷ ps)
      × (ps ≢ [] → is_empty p ≡ false)
unfolding up_and_down is_empty
up_and_down-cons [] [] last_elem h = (last_elem, [], refl, λ ne. absurd (ne refl))
up_and_down-cons [] (t ∷ ts) last_elem ((filled, plain), h) =
    (t, ts ++ last_elem ∷ [], refl, λ ne. filled)
up_and_down-cons (b ∷ bs) targ_only last_elem h =
    (dotdot, replicate (length bs) dotdot ++ (targ_only ++ last_elem ∷ []), refl, λ ne. refl)

pub Lacks-relative : (p : Bytes) → Lacks slash p → is_absolute p ≡ false
unfolding is_absolute
Lacks-relative [] h = refl
Lacks-relative (c ∷ p) (h, hs) = ground arith

pub is_absolute-append : (p q : Bytes) → is_empty p ≡ false → is_absolute (p ++ q) ≡ is_absolute p
unfolding is_absolute is_empty
is_absolute-append [] q h = absurd (cc)
is_absolute-append (c ∷ p) q h = refl

pub join-relative :
    (p : Bytes) (ps : List Bytes)
    → Lacks slash p
    → (ps ≢ [] → is_empty p ≡ false)
    → is_absolute (join slash (p ∷ ps)) ≡ false
unfolding join
join-relative p [] free filled = Lacks-relative p free
join-relative p (q ∷ ps) free filled =
    is_absolute-append p (slash ∷ join slash (q ∷ ps)) (filled (λ e. cc)) ∙ Lacks-relative p free

pub All-init :
    (P : Bytes → Type 0) (ps : List Bytes)
    → ps ≢ []
    → All P ps
    → All P (init_parts ps) × P (last_part ps)
All-init P ps ne h =
    let both : All P (init_parts ps ++ last_part ps ∷ []) =
      subst (All P) (sym (init-last ps ne)) h in
    (
      All-append_left P (init_parts ps) (last_part ps ∷ []) both,
      (All-append_right P (init_parts ps) (last_part ps ∷ []) both).0,
    )

pub All-replicate : (P : Bytes → Type 0) (n : ℕ) (p : Bytes) → P p → All P (replicate n p)
All-replicate P zero p h = tt
All-replicate P (suc n) p h = (h, All-replicate P n p h)

pub plain-NoDots : (ps : List Bytes) → All IsPlain ps → All IsNoDots ps
plain-NoDots [] h = tt
plain-NoDots (p ∷ ps) ((filled, plain), h) = (plain, plain-NoDots ps h)

pub up_and_down-Lacks :
    (base_only targ_only : List Bytes) (last_elem : Bytes)
    → All (Lacks slash) targ_only
    → Lacks slash last_elem
    → All (Lacks slash) (up_and_down (base_only, targ_only) last_elem)
unfolding up_and_down
up_and_down-Lacks base_only targ_only last_elem ht hl =
    All-append (Lacks slash) (replicate (length base_only) dotdot) (targ_only ++ last_elem ∷ [])
      (All-replicate (Lacks slash) (length base_only) dotdot
        (λ e. omega arith, (λ e. omega arith, tt)))
      (All-append (Lacks slash) targ_only (last_elem ∷ []) ht (hl, tt))
