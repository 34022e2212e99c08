-- ===== src/Bakery/Keys/Laws.antt =====
-- The store of third parties ignores a trailing slash: bakery/keys.go.
use macaroon_bakery.Prelude.{
  Bytes, ◌≡◌, refl, ap, some, [], ◌∷◌, ◌++◌, if◌then◌else◌, ◌==◌, bytes_eq, lookup-insert,
}
use macaroon_bakery.Bakery.Codec.Legacy.{ThirdPartyInfo}
use macaroon_bakery.Bakery.Keys.{
  ThirdPartyStore, slash, canonical_location, add_info, third_party_info,
}

-- After `AddInfo` a location with the same canonical form has the information, and others what they had.
pub third_party_info-add_info :
    (s : ThirdPartyStore) (loc other : Bytes) (info : ThirdPartyInfo)
    → third_party_info (add_info loc info s) other ≡ (
        if canonical_location loc == canonical_location other
        then some info
        else third_party_info s other)
unfolding third_party_info add_info
third_party_info-add_info s loc other info =
    lookup-insert (canonical_location loc) (canonical_location other) info s

pub canonical_location-slash : (loc : Bytes) → canonical_location (loc ++ slash ∷ []) ≡ loc
unfolding canonical_location
canonical_location-slash [] = refl
canonical_location-slash (c ∷ []) = refl
canonical_location-slash (c ∷ d ∷ loc) = ap (λ l. c ∷ l) (canonical_location-slash (d ∷ loc))
