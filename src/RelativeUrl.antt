-- ===== src/RelativeUrl.antt =====
-- Relative URL paths: internal/httputil/relativeurl.go.
pub mod Reference
pub mod Parts
pub mod Removal
pub mod Resolved
use macaroon_bakery.Prelude.{
  Bytes, ℕ, Bool, true, false, List, [], ◌∷◌, ◌++◌, length, replicate, nat_beq, if◌then◌else◌, ◌==◌,
  bytes_eq, codes, Result, ok, err,
}
use macaroon_bakery.Strings.Split.{split, join}
use macaroon_bakery.Checkers.Caveat.{is_empty}

abbrev pub slash : ℕ
slash = b'/'

abbrev pub dot : Bytes
dot = codes "."

abbrev pub dotdot : Bytes
dotdot = codes ".."

pub data UrlError : Type 0 where
  non_absolute_base non_absolute_target : UrlError

-- `strings.HasPrefix(path, "/")`
unfoldable pub is_absolute : Bytes → Bool
is_absolute [] = false
is_absolute (c ∷ path) = nat_beq c slash

-- `parts[0 : len(parts)-1]` and `parts[len(parts)-1]` of parts that are not empty.
unfoldable pub init_parts : List Bytes → List Bytes
init_parts [] = []
init_parts (p ∷ []) = []
init_parts (p ∷ q ∷ ps) = p ∷ init_parts (q ∷ ps)

unfoldable pub last_part : List Bytes → Bytes
last_part [] = []
last_part (p ∷ []) = p
last_part (p ∷ q ∷ ps) = last_part (q ∷ ps)

-- What is left of both behind their common prefix.
unfoldable pub strip_common : List Bytes → List Bytes → List Bytes × List Bytes
strip_common [] ts = ([], ts)
strip_common (b ∷ bs) [] = (b ∷ bs, [])
strip_common (b ∷ bs) (t ∷ ts) =
    let rest = strip_common bs ts in if b == t then rest else (b ∷ bs, t ∷ ts)

unfoldable pub up_and_down : List Bytes × List Bytes → Bytes → List Bytes
up_and_down (base_only, targ_only) last_elem =
    replicate (length base_only) dotdot ++ (targ_only ++ last_elem ∷ [])

unfoldable pub or_dot : Bytes → Bytes
or_dot path = if is_empty path then dot else path

-- `RelativeURLPath`
unfoldable pub relative_url_path : Bytes → Bytes → Result UrlError Bytes
unfolding is_absolute up_and_down or_dot
relative_url_path base targ =
    if is_absolute base
    then (if is_absolute targ
        then ok (
            or_dot (
              join slash (
                up_and_down
                  (strip_common (init_parts (split slash base)) (init_parts (split slash targ)))
                  (last_part (split slash targ)))))
        else err non_absolute_target)
    else err non_absolute_base
