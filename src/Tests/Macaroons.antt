-- ===== src/Tests/Macaroons.antt =====
-- Macaroons, their third party caveats and discharges on small inputs.
use macaroon_bakery.Prelude.{
  Bytes, ℕ, ◌≡◌, refl, ap, take, Option, none, some, List, [], ◌∷◌, ◌++◌, arith, ok, length,
  replicate, codes, All, insert, true, false,
}
use macaroon_bakery.Prelude.Sort.{contains}
use macaroon_bakery.Strings.Search.{index_byte}
use macaroon_bakery.Strings.Split.{split}
use macaroon_bakery.Strings.Utf8.{valid_string}
use macaroon_bakery.Checkers.Caveat.{Caveat, is_empty, blank}
use macaroon_bakery.Checkers.Declared.{declared_caveat}
use macaroon_bakery.Checkers.Macaroons.{MacaroonCaveat}
use macaroon_bakery.Bakery.Uvarint.{append_uvarint, put_uvarint}
use macaroon_bakery.Bakery.Codec.{ThirdPartyCaveatInfo, version3, encode_caveat_v2v3}
use macaroon_bakery.Bakery.Codec.SecretPart.{legacy}
use macaroon_bakery.Bakery.Codec.Legacy.{
  Entropy, Version, at_version, encode_caveat, encode_at_version, encode_caveat_v1, ThirdPartyInfo,
  decode_caveat,
}
use macaroon_bakery.Bakery.Codec.Versions.{IsEncodable, Carries, decode-encode_caveat}
use macaroon_bakery.Bakery.Macaroon.{
  Macaroon, CaveatEntropy, third_party_ids, id_base, new_caveat_id, find_id, is_used,
}
use macaroon_bakery.Bakery.Macaroon.Adding.{
  add_third_party_caveat, encode_third_party, finish_added, place_caveat, least_version,
  is_before_v3, or_else,
}
use macaroon_bakery.Bakery.Macaroon.FreshId.{new_caveat_id-fresh}
use macaroon_bakery.Bakery.Macaroon.Added.{StoredIn}
use macaroon_bakery.Bakery.Keys.{Locator}
use macaroon_bakery.Bakery.Discharge.{
  CaveatChecker, declared_keys, check_need_declared, need_declared_parts, check_need_parts,
  has_empty, add_missing, discharge, discharge_decoded,
}
use macaroon_bakery.Bakery.Discharge.NeedDeclared.{check_need_declared-declares}
use macaroon_bakery.Bakery.Discharge.Composed.{discharge-add_third_party_caveat}
use macaroon_bakery.Tests.Codecs.{
  plain_box, plain_box-BoxLaws, first, third, first-IsKeyPair, third-IsKeyPair, v2_size, v3_size,
}
use macaroon_bakery.Tests.Namespaces.{two_uris, two_uris-IsValid}
use macaroon_bakery.Tests.Platforms.{
  framed, plain_encodings, plain_encodings-EncodingLaws, Sample, sample_lib, sample_platform,
}

abbrev nonces : Entropy
nonces = record { random_nonce = some (replicate 24 7); uuid = replicate 24 9 }

some-eq : (d : Bytes) (o : Option Bytes) (x y : Bytes) → o ≡ some x → o ≡ some y → x ≡ y
some-eq d none x y h k = absurd (cc)
some-eq d (some z) x y h k = ground arith

nonces-length : (nonce : Bytes) → nonces.random_nonce ≡ some nonce → length nonce ≡ 24
nonces-length nonce h = ap length (some-eq [] nonces.random_nonce nonce (replicate 24 7) h refl)

is_ok-valid : valid_string (codes "is-ok") ≡ true
unfolding valid_string
is_ok-valid = refl

nonces-IsEncodable : IsEncodable nonces (codes "is-ok") (codes "key") two_uris
nonces-IsEncodable = record {
  valid_condition = is_ok-valid;
  valid_namespace = two_uris-IsValid;
  uuid_length = refl;
  nonce_length = nonces-length;
  v2_size = v2_size;
  v3_size = v3_size;
}

abbrev v1_party : Version → ThirdPartyInfo
v1_party v = record { public_key = third.public; version = v }

abbrev v1_id : Bytes
v1_id =
    b'e'
    ∷ b'{'
    ∷ framed third.public (
        framed first.public (
          framed (replicate 24 7)
            (b'e' ∷ (replicate 16 0 ++ framed (codes "key") (codes "is-ok")))))

v1_run :
    encode_caveat plain_box plain_encodings
      (codes "is-ok")
      (codes "key")
      (v1_party (at_version 1))
      first
      (some two_uris)
      nonces
    ≡ ok v1_id
unfolding encode_caveat encode_at_version encode_caveat_v1
v1_run = refl

decode-encode_caveat_example :
    (d : ThirdPartyCaveatInfo) × (decode_caveat plain_box plain_encodings third v1_id ≡ ok d)
    × Carries (codes "is-ok") (codes "key") first third v1_id d
decode-encode_caveat_example =
    decode-encode_caveat plain_box plain_encodings plain_box-BoxLaws plain_encodings-EncodingLaws
      (codes "is-ok") (codes "key") first third first-IsKeyPair third-IsKeyPair nonces two_uris
      nonces-IsEncodable (at_version 1) v1_id v1_run

abbrev sample_with : List MacaroonCaveat → Sample
sample_with cavs = record { id = codes "id"; root_key = codes "root"; format = 2; caveats = cavs }

abbrev sample_macaroon : Macaroon Sample
sample_macaroon = record {
  m = sample_with [];
  version = at_version 3;
  caveat_data = [];
  namespace = some two_uris;
  caveat_id_prefix = [];
}

abbrev third_caveat : Caveat
third_caveat = record { condition = codes "is-ok"; namespace = []; location = codes "third" }

abbrev encrypted : Bytes
encrypted =
    encode_caveat_v2v3 plain_box version3 (codes "is-ok") (codes "key") third.public first
      (some two_uris) (replicate 24 9)

abbrev macaroon_with_caveat : Macaroon Sample
macaroon_with_caveat = record sample_macaroon {
  m = sample_with (
      record { id = 3 ∷ 0 ∷ []; verification_id = 1 ∷ codes "key"; location = codes "third" } ∷ []);
  caveat_data = (3 ∷ 0 ∷ [], encrypted) ∷ [];
}

abbrev caveat_entropy : CaveatEntropy
caveat_entropy = record { root_key = some (codes "key"); nonces = nonces }

new_caveat_id-fresh_example :
    (j : ℕ) × (new_caveat_id sample_lib macaroon_with_caveat []
      ≡ some (append_uvarint (id_base []) j))
    × (contains (third_party_ids macaroon_with_caveat.m.caveats) (append_uvarint (id_base []) j)
        ≡ false)
new_caveat_id-fresh_example = new_caveat_id-fresh sample_lib macaroon_with_caveat [] (omega arith)

added_run :
    add_third_party_caveat sample_platform sample_macaroon first caveat_entropy
      (ok (v1_party (at_version 3), third_caveat))
    ≡ (macaroon_with_caveat, none)
unfolding add_third_party_caveat encode_third_party finish_added place_caveat least_version
    is_before_v3 new_caveat_id find_id is_used id_base append_uvarint put_uvarint encode_caveat
    encode_at_version is_empty insert
added_run = refl

abbrev no_caveats : CaveatChecker Unit
no_caveats = λ id info. ok []

discharge-add_third_party_caveat_example :
    (id : Bytes) × (payload : Option Bytes) × (info : ThirdPartyCaveatInfo)
    × (sample_lib.add_third_party (codes "key") id (codes "third") sample_macaroon.m
        ≡ some macaroon_with_caveat.m)
    × StoredIn macaroon_with_caveat.caveat_data id payload
    × Carries (codes "is-ok") (codes "key") first third (or_else payload id) info
    × ((locator : Option Locator) (f : ℕ → CaveatEntropy)
        → discharge sample_platform
            (λ k. k)
            (record {
              id = id;
              caveat = payload;
              key = third;
              checker = no_caveats;
              locator = locator;
            })
            f
          ≡ discharge_decoded sample_platform
              (λ k. k)
              (record {
                id = id;
                caveat = payload;
                key = third;
                checker = no_caveats;
                locator = locator;
              })
              f
              info)
discharge-add_third_party_caveat_example =
    discharge-add_third_party_caveat sample_platform (λ k. k) sample_macaroon macaroon_with_caveat
      third_caveat first third (at_version 3) two_uris caveat_entropy no_caveats (codes "key")
      plain_box-BoxLaws plain_encodings-EncodingLaws first-IsKeyPair third-IsKeyPair refl refl
      nonces-IsEncodable added_run

abbrev email_info : ThirdPartyCaveatInfo
email_info = record {
  condition = codes "email is-ok";
  first_party_public_key = first.public;
  third_party_key_pair = third;
  root_key = codes "key";
  caveat = [];
  version = 3;
  namespace = legacy;
}

email_run :
    check_need_declared (λ k. k) [] email_info no_caveats
    ≡ ok (declared_caveat (λ k. k) (codes "email") [] ∷ [])
unfolding check_need_declared need_declared_parts check_need_parts has_empty declared_keys
    add_missing index_byte split contains is_empty declared_caveat
email_run = refl

check_need_declared-declares_example :
    (i : ℕ) × (keys : List Bytes) × (index_byte (codes "email is-ok") blank ≡ some i)
    × (declared_keys {Failure = Unit} (declared_caveat (λ k. k) (codes "email") [] ∷ []) ≡ ok keys)
    × All (λ d. contains keys d ≡ true) (split b',' (take i (codes "email is-ok")))
check_need_declared-declares_example =
    check_need_declared-declares (λ k. k) [] email_info no_caveats
      (declared_caveat (λ k. k) (codes "email") [] ∷ []) email_run
