-- ===== src/Bakery/Keys.antt =====
-- Keys and the store of third parties: bakery/keys.go. Base64 is a parameter.
pub mod Laws
use macaroon_bakery.Prelude.{
  Bytes, ℕ, ◌-◌, ◌≡◌, Bool, true, false, Option, none, some, List, [], ◌∷◌, ◌++◌, nat_beq,
  if◌then◌else◌, ◌==◌, bytes_eq, Result, ok, err, ◌>>=◌, ◌>>◌, check, from_option, Map, lookup,
  insert, length, take, drop, replicate,
}
use macaroon_bakery.Bakery.Crypto.{Box, KeyPair, key_len}
use macaroon_bakery.Bakery.Codec.Legacy.{ThirdPartyInfo}

pub data KeyError : Type 0 where
  bad_base64 wrong_length missing_public_key missing_private_key no_random : KeyError

-- `PrivateKey.Public`
unfoldable pub public_of_private : Box → Bytes → Bytes
public_of_private box k = box.public_of k

-- `Key.isZero`
unfoldable pub is_zero : Bytes → Bool
is_zero k = k == replicate key_len 0

-- `Key.UnmarshalBinary`
unfoldable pub unmarshal_binary : Bytes → Result KeyError Bytes
unmarshal_binary bytes = do check (nat_beq (length bytes) key_len) wrong_length; ok bytes

-- `Key.UnmarshalText`
unfoldable pub unmarshal_key : (Bytes → Option Bytes) → Bytes → Result KeyError Bytes
unfolding unmarshal_binary
unmarshal_key base64_decode text = do
  bytes ← from_option bad_base64 (base64_decode text)
  unmarshal_binary bytes

-- `KeyPair.validate`
unfoldable pub validate : KeyPair → Result KeyError (Unit {0})
unfolding is_zero
validate k =
    if is_zero k.public
    then err missing_public_key
    else if is_zero k.private
    then err missing_private_key
    else ok tt

-- `KeyPair.UnmarshalJSON` and `KeyPair.UnmarshalYAML`, with what the unmarshaling of the fields gives.
unfoldable pub unmarshal_key_pair : Result KeyError KeyPair → Result KeyError KeyPair
unfolding validate
unmarshal_key_pair fields = do k ← fields; validate k; ok k

-- `GenerateKey`, with what `box.GenerateKey` gives.
unfoldable pub generate_key_pair : Option (Bytes × Bytes) → Result KeyError KeyPair
generate_key_pair none = err no_random
generate_key_pair (some (public, private)) = ok (record { public = public; private = private })

-- `ThirdPartyLocator`: the information on the third party at a location.
abbrev pub Locator : Type 0
Locator = Bytes → Option ThirdPartyInfo

-- `emptyLocator`
abbrev pub empty_locator : Locator
empty_locator loc = none

-- `ThirdPartyStore`
abbrev pub ThirdPartyStore : Type 0
ThirdPartyStore = Map Bytes ThirdPartyInfo

abbrev pub slash : ℕ
slash = b'/'

-- `strings.TrimSuffix(loc, "/")`
unfoldable pub canonical_location : Bytes → Bytes
canonical_location [] = []
canonical_location (c ∷ []) = if nat_beq c slash then [] else c ∷ []
canonical_location (c ∷ d ∷ loc) = c ∷ canonical_location (d ∷ loc)

unfoldable pub add_info : Bytes → ThirdPartyInfo → ThirdPartyStore → ThirdPartyStore
unfolding canonical_location
add_info loc info s = insert (canonical_location loc) info s

unfoldable pub third_party_info : ThirdPartyStore → Locator
unfolding canonical_location
third_party_info s loc = lookup (canonical_location loc) s
