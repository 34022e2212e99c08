-- ===== src/RelativeUrl/Reference.antt =====
-- The resolution of a relative path, as RFC 3986 5.2.3 and 5.2.4 describe it.
use macaroon_bakery.Prelude.{Bytes, ◌||◌, List, [], ◌∷◌, ◌++◌, if◌then◌else◌, ◌==◌, bytes_eq}
use macaroon_bakery.Strings.Split.{split, join}
use macaroon_bakery.RelativeUrl.{slash, dot, dotdot, is_absolute, init_parts}

-- The parts of the output are on a stack, of which the first part of the path stays.
unfoldable pub pop : List Bytes → List Bytes
pop [] = []
pop (p ∷ []) = p ∷ []
pop (p ∷ q ∷ st) = q ∷ st

unfoldable pub step : Bytes → List Bytes → List Bytes
unfolding pop
step p st = if p == dotdot then pop st else if p == dot then st else p ∷ st

-- A path that ends in a dot segment ends in a slash.
unfoldable pub last_step : Bytes → List Bytes → List Bytes
unfolding step
last_step p st = if p == dotdot || p == dot then [] ∷ step p st else step p st

-- The parts of the stack before those of a list.
unfoldable pub unwind : List Bytes → List Bytes → List Bytes
unwind [] ps = ps
unwind (p ∷ st) ps = unwind st (p ∷ ps)

unfoldable pub remove_dots : List Bytes → List Bytes → List Bytes
unfolding last_step unwind
remove_dots st [] = unwind st []
remove_dots st (p ∷ []) = unwind (last_step p st) []
remove_dots st (p ∷ q ∷ ps) = remove_dots (step p st) (q ∷ ps)

unfoldable pub resolve_path : Bytes → Bytes → Bytes
unfolding remove_dots
resolve_path base path =
    if is_absolute path
    then join slash (remove_dots [] (split slash path))
    else join slash (remove_dots [] (init_parts (split slash base) ++ split slash path))
