-- ===== src/RelativeUrl/Removal.antt =====
-- Dot segments are removed from the parts that `RelativeURLPath` of internal/httputil/relativeurl.go makes.
use macaroon_bakery.Prelude.{
  Bytes, ◌≡◌, ◌≢◌, refl, sym, ap, ◌∙◌, List, [], ◌∷◌, ◌++◌, append_assoc, length, length-append,
  replicate, bytes_eq, bytes_beq, beq_refl, arith, All,
}
use macaroon_bakery.RelativeUrl.{dotdot, up_and_down}
use macaroon_bakery.RelativeUrl.Reference.{pop, step, last_step, unwind, remove_dots}
use macaroon_bakery.RelativeUrl.Parts.{IsNoDots}

-- Plain segments are pushed, and so many dot-dots take so many of them away.
pub unwind-unwind : (ps qs rs : List Bytes) → unwind (unwind ps qs) rs ≡ unwind qs (ps ++ rs)
unfolding unwind
unwind-unwind [] qs rs = refl
unwind-unwind (p ∷ ps) qs rs = unwind-unwind ps (p ∷ qs) rs

pub step-NoDots : (p : Bytes) (st : List Bytes) → IsNoDots p → step p st ≡ p ∷ st
unfolding step
step-NoDots p st (h, k) = rw (k, h) refl

pub remove_dots-next :
    (p : Bytes) (st ps : List Bytes)
    → ps ≢ []
    → remove_dots st (p ∷ ps) ≡ remove_dots (step p st) ps
unfolding remove_dots
remove_dots-next p st [] ne = absurd (ne refl)
remove_dots-next p st (q ∷ ps) ne = refl

pub append-ne-nil : (ps qs : List Bytes) → qs ≢ [] → ps ++ qs ≢ []
append-ne-nil [] qs ne = ne
append-ne-nil (p ∷ ps) qs ne = λ e. cc

pub remove_dots-push :
    (st ps qs : List Bytes)
    → All IsNoDots ps
    → qs ≢ []
    → remove_dots st (ps ++ qs) ≡ remove_dots (unwind ps st) qs
unfolding unwind
remove_dots-push st [] qs h ne = refl
remove_dots-push st (p ∷ ps) qs (h, hs) ne =
    remove_dots-next p st (ps ++ qs) (append-ne-nil ps qs ne)
    ∙ ap (λ s. remove_dots s (ps ++ qs)) (step-NoDots p st h)
    ∙ remove_dots-push (p ∷ st) ps qs hs ne

pub pop-push :
    (p : Bytes) (xs st : List Bytes) (r : Bytes) → pop (p ∷ (xs ++ r ∷ st)) ≡ xs ++ r ∷ st
unfolding pop
pop-push p [] st r = refl
pop-push p (x ∷ xs) st r = refl

pub step-dotdot : (st : List Bytes) → step dotdot st ≡ pop st
unfolding step
step-dotdot st = rw (beq_refl dotdot) refl

pub empty-NoDots : IsNoDots []
unfolding bytes_beq
empty-NoDots = (refl, refl)

pub remove_dots-pop :
    (xs st : List Bytes) (r : Bytes) (qs : List Bytes)
    → qs ≢ []
    → remove_dots (xs ++ r ∷ st) (replicate (length xs) dotdot ++ qs) ≡ remove_dots (r ∷ st) qs
remove_dots-pop [] st r qs ne = refl
remove_dots-pop (x ∷ xs) st r qs ne =
    let more = replicate (length xs) dotdot ++ qs in
    let popped : step dotdot (x ∷ (xs ++ r ∷ st)) ≡ xs ++ r ∷ st =
      step-dotdot (x ∷ (xs ++ r ∷ st)) ∙ pop-push x xs st r in
    remove_dots-next dotdot (x ∷ (xs ++ r ∷ st)) more
      (append-ne-nil (replicate (length xs) dotdot) qs ne)
    ∙ ap (λ s. remove_dots s more) popped
    ∙ remove_dots-pop xs st r qs ne

pub remove_dots-last :
    (st : List Bytes) (p : Bytes) → IsNoDots p → remove_dots st (p ∷ []) ≡ unwind (p ∷ st) []
unfolding remove_dots last_step
remove_dots-last st p (h, k) = unfold step in rw (k, h) refl

pub unwind-append : (ps qs st : List Bytes) → unwind (ps ++ qs) st ≡ unwind qs (unwind ps st)
unfolding unwind
unwind-append [] qs st = refl
unwind-append (p ∷ ps) qs st = unwind-append ps qs (p ∷ st)

pub unwind-stack :
    (ps st : List Bytes) → (xs : List Bytes) × (unwind ps st ≡ xs ++ st) × (length xs ≡ length ps)
unfolding unwind
unwind-stack [] st = ([], refl, refl)
unwind-stack (p ∷ ps) st =
    let (xs, e, l) = unwind-stack ps (p ∷ st) in
    (xs ++ p ∷ [], e ∙ sym (append_assoc xs (p ∷ []) st), omega (arith, length-append xs (p ∷ [])))

pub unwind-cons :
    (ps : List Bytes) (p : Bytes) → (r : Bytes) × (st : List Bytes) × (unwind ps (p ∷ []) ≡ r ∷ st)
unwind-cons ps p =
    let (xs, e, l) = unwind-stack ps (p ∷ []) in let (r, st, h) = split_cons xs p in (r, st, e ∙ h)
  where
    split_cons :
        (xs : List Bytes) (p : Bytes) → (r : Bytes) × (st : List Bytes) × (xs ++ p ∷ [] ≡ r ∷ st)
    split_cons [] p = (p, [], refl)
    split_cons (x ∷ xs) p = (x, xs ++ p ∷ [], refl)

pub one-ne-nil : (p : Bytes) → p ∷ [] ≢ []
one-ne-nil p h = cc

-- From the base's parts, as many dot-dots as it has of its own lead to what it shares with the target.
pub resolve_parts :
    (common base_only targ_only : List Bytes) (last_elem : Bytes)
    → All IsNoDots (common ++ base_only)
    → All IsNoDots targ_only
    → IsNoDots last_elem
    → remove_dots [] (([] ∷ (common ++ base_only)) ++ up_and_down (base_only, targ_only) last_elem)
      ≡ ([] ∷ (common ++ targ_only)) ++ last_elem ∷ []
unfolding up_and_down unwind
resolve_parts common base_only targ_only last_elem hb ht hl =
    let qs = targ_only ++ last_elem ∷ [] in
    let qs_ne : qs ≢ [] = append-ne-nil targ_only (last_elem ∷ []) (one-ne-nil last_elem) in
    let (r, st, top) = unwind-cons common [] in
    let (xs, stacked, long) = unwind-stack base_only (r ∷ st) in
    let ups = replicate (length base_only) dotdot in
    let pushed : remove_dots [] (([] ∷ (common ++ base_only)) ++ (ups ++ qs))
        ≡ remove_dots (unwind (common ++ base_only) ([] ∷ [])) (ups ++ qs) =
      remove_dots-push [] ([] ∷ (common ++ base_only)) (ups ++ qs) (empty-NoDots, hb)
        (append-ne-nil ups qs qs_ne) in
    let stack : unwind (common ++ base_only) ([] ∷ []) ≡ xs ++ r ∷ st =
      unwind-append common base_only ([] ∷ []) ∙ ap (unwind base_only) top ∙ stacked in
    let popped : remove_dots (xs ++ r ∷ st) (ups ++ qs) ≡ remove_dots (r ∷ st) qs =
      ap (λ n. remove_dots (xs ++ r ∷ st) (replicate n dotdot ++ qs)) (sym long)
      ∙ remove_dots-pop xs st r qs qs_ne in
    let down : remove_dots (r ∷ st) qs ≡ unwind (unwind targ_only (r ∷ st)) (last_elem ∷ []) =
      remove_dots-push (r ∷ st) targ_only (last_elem ∷ []) ht (one-ne-nil last_elem)
      ∙ remove_dots-last (unwind targ_only (r ∷ st)) last_elem hl in
    let flat : unwind (unwind targ_only (r ∷ st)) (last_elem ∷ []) ≡ [] ∷ (common ++ qs) =
      unwind-unwind targ_only (r ∷ st) (last_elem ∷ [])
      ∙ ap (λ s. unwind s qs) (sym top)
      ∙ unwind-unwind common ([] ∷ []) qs in
    pushed
    ∙ ap (λ s. remove_dots s (ups ++ qs)) stack
    ∙ popped
    ∙ down
    ∙ flat
    ∙ ap (λ l. [] ∷ l) (sym (append_assoc common targ_only (last_elem ∷ [])))
