-- ===== src/Checkers/Declared/Laws.antt =====
-- What `InferDeclaredFromConditions` infers.
use macaroon_bakery.Prelude.{
  Bytes, ◌≡◌, refl, sym, ◌∙◌, Bool, false, not, ◌&&◌, ◌||◌, Option, none, some, List, [], ◌∷◌,
  arith, if◌then◌else◌, ◌==◌, bytes_eq, bytes_beq_iff, lookup, delete, lookup-insert, lookup-delete,
  Map, Option-cases, inl, inr,
}
use macaroon_bakery.Prelude.Sort.{contains, contains-append}
use macaroon_bakery.Checkers.Namespace.{Namespace}
use macaroon_bakery.Checkers.Declared.{
  declaration, Inferring, infer_step, infer_loop, delete_all, declared_cond_in,
  infer_declared_from_conditions,
}

-- The keys and values that the conditions declare, in their order.
abbrev pub with_declaration : Option (Bytes × Bytes) → Map Bytes Bytes → Map Bytes Bytes
with_declaration none ds = ds
with_declaration (some d) ds = d ∷ ds

unfoldable pub declarations : Bytes → List Bytes → Map Bytes Bytes
declarations declared_cond [] = []
declarations declared_cond (cond ∷ conds) =
    with_declaration (declaration declared_cond cond) (declarations declared_cond conds)

-- Is `key` declared with a value other than `val`?
unfoldable pub disputed : Bytes → Bytes → Map Bytes Bytes → Bool
disputed key val [] = false
disputed key val ((k, v) ∷ ds) = (k == key && not (v == val)) || disputed key val ds

-- The specification: the value on which all declarations of a key agree.
unfoldable pub agreed : Bytes → Map Bytes Bytes → Option Bytes
agreed key ds = elim (lookup key ds) [
  | none ↦ none
  | some v ↦ if disputed key v ds then none else some v
]

-- The loop keeps the first value of a key.
abbrev first : Option Bytes → Option Bytes → Option Bytes
first none o = o
first (some v) o = some v

abbrev is_disputed : Bytes → Option Bytes → Map Bytes Bytes → Bool
is_disputed key none ds = false
is_disputed key (some v) ds = disputed key v ds

lookup-nil : (key : Bytes) → lookup {V = Bytes} key [] ≡ none
unfolding lookup
lookup-nil key = refl

contains-nil : (key : Bytes) → contains [] key ≡ false
unfolding contains
contains-nil key = refl

module _ (key : Bytes) where
  info-infer_step :
      (s : Inferring) (d : Option (Bytes × Bytes)) (ds : Map Bytes Bytes)
      → first (lookup key (infer_step s d).info) (lookup key ds)
        ≡ first (lookup key s.info) (lookup key (with_declaration d ds))
  unfolding infer_step lookup
  info-infer_step s none ds = refl
  info-infer_step s (some (k, v)) ds = elim (Option-cases (lookup k s.info)) [
    | inl new ↦ rw new (ground (arith, lookup-insert k key v s.info, bytes_beq_iff k key, new))
    | inr (w, old) ↦
        rw old (
          ground (arith, lookup-insert k key v s.info, bytes_beq_iff k key, bytes_beq_iff w v, old))
  ]

  conflicts-infer_step :
      (s : Inferring) (d : Option (Bytes × Bytes)) (ds : Map Bytes Bytes)
      → (contains (infer_step s d).conflicts key
          || is_disputed key (first (lookup key (infer_step s d).info) (lookup key ds)) ds)
        ≡ (contains s.conflicts key
            || is_disputed key
                (first (lookup key s.info) (lookup key (with_declaration d ds)))
                (with_declaration d ds))
  unfolding infer_step lookup disputed contains
  conflicts-infer_step s none ds = refl
  conflicts-infer_step s (some (k, v)) ds = elim (Option-cases (lookup k s.info)) [
    | inl new ↦
        rw new (
          ground (arith, lookup-insert k key v s.info, bytes_beq_iff k key, bytes_beq_iff v v, new))
    | inr (w, old) ↦ rw old (
        ground (
          arith,
          lookup-insert k key v s.info,
          contains-append s.conflicts (k ∷ []) key,
          bytes_beq_iff k key,
          bytes_beq_iff v w,
          bytes_beq_iff w v,
          old,
        ))
  ]

  first-none : (o : Option Bytes) → first o none ≡ o
  first-none none = refl
  first-none (some v) = refl

  is_disputed-nil : (b : Bool) (o : Option Bytes) → (b || is_disputed key o []) ≡ b
  unfolding disputed
  is_disputed-nil b o = ground arith

  module _ (declared_cond : Bytes) where
    info-infer_loop :
        (conds : List Bytes) (s : Inferring)
        → lookup key (infer_loop declared_cond conds s).info
          ≡ first (lookup key s.info) (lookup key (declarations declared_cond conds))
    unfolding infer_loop declarations lookup
    info-infer_loop [] s = sym (first-none (lookup key s.info))
    info-infer_loop (cond ∷ conds) s =
        let d = declaration declared_cond cond in
        info-infer_loop conds (infer_step s d)
        ∙ info-infer_step s d (declarations declared_cond conds)

    conflicts-infer_loop :
        (conds : List Bytes) (s : Inferring)
        → contains (infer_loop declared_cond conds s).conflicts key ≡ (
            contains s.conflicts key
            || is_disputed key
                (first (lookup key s.info) (lookup key (declarations declared_cond conds)))
                (declarations declared_cond conds))
    unfolding infer_loop declarations lookup
    conflicts-infer_loop [] s = sym (is_disputed-nil _ _)
    conflicts-infer_loop (cond ∷ conds) s =
        let d = declaration declared_cond cond in
        conflicts-infer_loop conds (infer_step s d)
        ∙ conflicts-infer_step s d (declarations declared_cond conds)

  lookup-delete_all :
      (keys : List Bytes) (info : Map Bytes Bytes)
      → lookup key (delete_all keys info) ≡ (if contains keys key then none else lookup key info)
  unfolding delete_all contains
  lookup-delete_all [] info = refl
  lookup-delete_all (k ∷ keys) info =
      ground (arith, lookup-delete_all keys (delete k info), lookup-delete k key info)

-- `InferDeclaredFromConditions` gives a key the value on which all its declarations agree, and
-- none if two of them differ or there is none.
pub lookup-infer_declared :
    (ns : Option Namespace) (conds : List Bytes) (key : Bytes)
    → lookup key (infer_declared_from_conditions ns conds)
      ≡ agreed key (declarations (declared_cond_in ns) conds)
unfolding infer_declared_from_conditions agreed
lookup-infer_declared ns conds key =
    let dc = declared_cond_in ns in
    let start : Inferring = record { info = []; conflicts = [] } in
    let s = infer_loop dc conds start in
    ground (
      arith,
      lookup-delete_all key s.conflicts s.info,
      info-infer_loop key dc conds start,
      conflicts-infer_loop key dc conds start,
      lookup-nil key,
      contains-nil key,
    )
