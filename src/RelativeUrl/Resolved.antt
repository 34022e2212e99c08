-- ===== src/RelativeUrl/Resolved.antt =====
-- `RelativeURLPath` of internal/httputil/relativeurl.go against the resolution of its answer.
use mathlib.Core.Path.{subst}
use macaroon_bakery.Prelude.{
  Bytes, ◌≡◌, ◌≢◌, refl, sym, ap, ◌∙◌, true, false, List, [], ◌∷◌, ◌++◌, bytes_eq, bytes_beq, ok,
  All, All-append_right, Bool-cases, inl, inr,
}
use macaroon_bakery.Strings.Search.{Lacks}
use macaroon_bakery.Strings.Split.{
  split, join, join-split, split-join, split-ne-nil, split-Lacks_separator,
}
use macaroon_bakery.Checkers.Caveat.{is_empty}
use macaroon_bakery.RelativeUrl.{
  slash, dot, is_absolute, init_parts, last_part, strip_common, up_and_down, or_dot,
  relative_url_path,
}
use macaroon_bakery.RelativeUrl.Reference.{step, last_step, unwind, remove_dots, resolve_path}
use macaroon_bakery.RelativeUrl.Parts.{
  IsNoDots, IsPlain, init-last, init-cons, last-cons, split-slash, strip_common-append, join-empty,
  up_and_down-cons, join-relative, All-init, plain-NoDots, up_and_down-Lacks,
}
use macaroon_bakery.RelativeUrl.Removal.{remove_dots-push, empty-NoDots, one-ne-nil, resolve_parts}

-- A dot at the end stands for an empty last part.
remove_dots-dot : (st : List Bytes) → remove_dots st (dot ∷ []) ≡ remove_dots st ([] ∷ [])
unfolding remove_dots last_step step bytes_beq
remove_dots-dot st = refl

split-dot : split slash dot ≡ dot ∷ []
unfolding split
split-dot = refl

empty-eq : (s : Bytes) → is_empty s ≡ true → s ≡ []
unfolding is_empty
empty-eq [] h = refl
empty-eq (c ∷ s) h = absurd (cc)

resolve-dot :
    (base : Bytes)
    → All IsNoDots (init_parts (split slash base))
    → resolve_path base dot ≡ join slash (remove_dots [] (init_parts (split slash base) ++ [] ∷ []))
unfolding resolve_path is_absolute
resolve-dot base hb =
    let segments = init_parts (split slash base) in
    ap (λ l. join slash (remove_dots [] (segments ++ l))) split-dot
    ∙ ap (join slash) (
        remove_dots-push [] segments (dot ∷ []) hb (one-ne-nil dot)
        ∙ remove_dots-dot (unwind segments [])
        ∙ sym (remove_dots-push [] segments ([] ∷ []) hb (one-ne-nil [])))

-- The answer for the parts of a path, resolved: the parts themselves, or a dot for an empty part.
resolve-join :
    (base : Bytes) (p : Bytes) (ps : List Bytes)
    → (ps ≢ [] → is_empty p ≡ false)
    → All (Lacks slash) (p ∷ ps)
    → All IsNoDots (init_parts (split slash base))
    → resolve_path base (or_dot (join slash (p ∷ ps)))
      ≡ join slash (remove_dots [] (init_parts (split slash base) ++ p ∷ ps))
unfolding resolve_path or_dot
resolve-join base p ps filled (free, frees) hb =
    let path = join slash (p ∷ ps) in
    let segments = init_parts (split slash base) in
    elim (Bool-cases (is_empty path)) [
      | inl nothing ↦
          let none_left : path ≡ [] = empty-eq path nothing in
          let alone : p ∷ ps ≡ [] ∷ [] = join-empty p ps none_left in
          rw nothing (
            resolve-dot base hb ∙ ap (λ l. join slash (remove_dots [] (segments ++ l))) (sym alone))
      | inr something ↦ rw something (
          rw (join-relative p ps free filled) (
            ap (λ l. join slash (remove_dots [] (segments ++ l)))
              (split-join slash (p ∷ ps) (λ h. cc) (free, frees))))
    ]

-- The segments of a path behind the root, which the hypotheses are about.
abbrev pub segments_of : Bytes → List Bytes
segments_of s = init_parts (split slash s)

init-rooted : (s : Bytes) → init_parts (split slash (slash ∷ s)) ≡ [] ∷ segments_of s
init-rooted s = ap init_parts (split-slash s) ∙ init-cons [] (split slash s) (split-ne-nil slash s)

last-rooted : (s : Bytes) → last_part (split slash (slash ∷ s)) ≡ last_part (split slash s)
last-rooted s = ap last_part (split-slash s) ∙ last-cons [] (split slash s) (split-ne-nil slash s)

strip-rooted : (bs ts : List Bytes) → strip_common ([] ∷ bs) ([] ∷ ts) ≡ strip_common bs ts
unfolding strip_common bytes_beq
strip-rooted bs ts = refl

-- The parts of the answer for paths from the root.
answer_parts :
    (b t : Bytes)
    → up_and_down
        (strip_common (init_parts (split slash (slash ∷ b))) (init_parts (split slash (slash ∷ t))))
        (last_part (split slash (slash ∷ t)))
      ≡ up_and_down (strip_common (segments_of b) (segments_of t)) (last_part (split slash t))
answer_parts b t =
    (λ i. up_and_down (strip_common (init-rooted b i) (init-rooted t i)) (last-rooted t i))
    ∙ ap (λ r. up_and_down r (last_part (split slash t)))
        (strip-rooted (segments_of b) (segments_of t))

-- The parts of the target are its segments and its last part.
target_parts :
    (t : Bytes) → ([] ∷ segments_of t) ++ last_part (split slash t) ∷ [] ≡ split slash (slash ∷ t)
target_parts t =
    ap (λ l. [] ∷ l) (init-last (split slash t) (split-ne-nil slash t)) ∙ sym (split-slash t)

-- For absolute paths `RelativeURLPath` answers with a path that, resolved against the base as RFC
-- 3986 says, is the target: where the base has no dot segments before its last part, and the
-- target has neither dot segments nor empty parts other than its first and last.
pub resolve_path-relative_url_path :
    (b t : Bytes)
    → All IsNoDots (segments_of b)
    → All IsPlain (segments_of t)
    → IsNoDots (last_part (split slash t))
    → (path : Bytes) × (relative_url_path (slash ∷ b) (slash ∷ t) ≡ ok path)
      × (resolve_path (slash ∷ b) path ≡ slash ∷ t)
unfolding relative_url_path is_absolute
resolve_path-relative_url_path b t hb ht hl =
    let bs = segments_of b in
    let ts = segments_of t in
    let last_elem = last_part (split slash t) in
    let rest = strip_common bs ts in
    let (common, eb, et) = strip_common-append bs ts in
    let (p, ps, cons, filled) =
      up_and_down-cons rest.0 rest.1 last_elem
        (All-append_right IsPlain common rest.1 (subst (All IsPlain) et ht)) in
    let path = or_dot (join slash (p ∷ ps)) in
    let base_NoDots : All IsNoDots (init_parts (split slash (slash ∷ b))) =
      subst (All IsNoDots) (sym (init-rooted b)) (empty-NoDots, hb) in
    let (ts_free, last_free) =
      All-init (Lacks slash) (split slash t) (split-ne-nil slash t)
        (split-Lacks_separator slash t) in
    let free : All (Lacks slash) (p ∷ ps) = subst (All (Lacks slash)) cons (
      up_and_down-Lacks rest.0 rest.1 last_elem
        (All-append_right (Lacks slash) common rest.1 (subst (All (Lacks slash)) et ts_free))
        last_free) in
    let down : remove_dots [] (init_parts (split slash (slash ∷ b)) ++ p ∷ ps)
        ≡ split slash (slash ∷ t) =
      (λ i. remove_dots [] (init-rooted b i ++ sym cons i))
      ∙ (λ i. remove_dots [] (([] ∷ eb i) ++ up_and_down (rest.0, rest.1) last_elem))
      ∙ resolve_parts common rest.0 rest.1 last_elem (subst (All IsNoDots) eb hb)
          (plain-NoDots rest.1 (All-append_right IsPlain common rest.1 (subst (All IsPlain) et ht)))
          hl
      ∙ (λ i. ([] ∷ sym et i) ++ last_elem ∷ [])
      ∙ target_parts t in
    (
      path,
      ap (λ l. ok (or_dot (join slash l))) (answer_parts b t ∙ cons),
      resolve-join (slash ∷ b) p ps filled free base_NoDots
          ∙ ap (join slash) down
          ∙ join-split slash (slash ∷ t),
    )
