-- ===== src/Tests/Platforms.antt =====
-- Simple packages for the tests: a macaroon is its id, its root key and its caveats.
use macaroon_bakery.Prelude.{
  Bytes, ℕ, ◌≡◌, refl, sym, ap, ◌∙◌, ◌-◌, Option, none, some, List, [], ◌∷◌, ◌++◌, length, take,
  drop, take-append, drop-append, nat_beq, if◌then◌else◌,
}
use macaroon_bakery.Checkers.Macaroons.{MacaroonCaveat}
use macaroon_bakery.Bakery.Codec.Legacy.{
  CaveatRecord, CaveatJson, Encodings, EncodingLaws, Version, at_version,
}
use macaroon_bakery.Bakery.Macaroon.{MacaroonLib}
use macaroon_bakery.Bakery.Macaroon.Adding.{Platform}
use macaroon_bakery.Bakery.Macaroon.Added.{IdLaws}
use macaroon_bakery.Tests.Codecs.{plain_box}

-- A string behind its length.
abbrev pub framed : Bytes → Bytes → Bytes
framed s rest = length s ∷ (s ++ rest)

abbrev pub read_frame : Bytes → Option (Bytes × Bytes)
read_frame [] = none
read_frame (n ∷ s) = some (take n s, drop n s)

pub read_frame-framed : (s rest : Bytes) → read_frame (framed s rest) ≡ some (s, rest)
read_frame-framed s rest = ap (λ t. some t) (λ i. (take-append s rest i, drop-append s rest i))

abbrev read_record : Option (Bytes × Bytes) → Option CaveatRecord
read_record none = none
read_record (some (key, condition)) = some (record { root_key = key; condition = condition })

abbrev or_none : Option Bytes → Bytes
or_none none = []
or_none (some s) = s

abbrev read_json3 : Bytes → Bytes → Option (Bytes × Bytes) → Option CaveatJson
read_json3 a b none = none
read_json3 a b (some (c, d)) =
    some (record {
      third_party_public_key = some a;
      first_party_public_key = some b;
      nonce = c;
      id = d;
    })

abbrev read_json2 : Bytes → Option (Bytes × Bytes) → Option CaveatJson
read_json2 a none = none
read_json2 a (some (b, rest)) = read_json3 a b (read_frame rest)

abbrev read_json1 : Option (Bytes × Bytes) → Option CaveatJson
read_json1 none = none
read_json1 (some (a, rest)) = read_json2 a (read_frame rest)

abbrev read_json : Bytes → Option CaveatJson
read_json [] = none
read_json (c ∷ s) = read_json1 (read_frame s)

abbrev without_first : Bytes → Option Bytes
without_first [] = none
without_first (c ∷ s) = some s

abbrev pub plain_encodings : Encodings
plain_encodings = record {
  marshal_record = λ r. some (framed r.root_key r.condition);
  unmarshal_record = λ s. read_record (read_frame s);
  marshal_caveat = λ c. some (
      b'{'
      ∷ framed (or_none c.third_party_public_key)
          (framed (or_none c.first_party_public_key) (framed c.nonce c.id)));
  unmarshal_caveat = read_json;
  to_base64 = λ s. b'e' ∷ s;
  from_base64 = without_first;
}

read_json-framed :
    (a b c d : Bytes)
    → read_json (b'{' ∷ framed a (framed b (framed c d)))
      ≡ some (record {
        third_party_public_key = some a;
        first_party_public_key = some b;
        nonce = c;
        id = d;
      })
read_json-framed a b c d =
    ap read_json1 (read_frame-framed a (framed b (framed c d)))
    ∙ ap (read_json2 a) (read_frame-framed b (framed c d))
    ∙ ap (read_json3 a b) (read_frame-framed c d)

pub plain_encodings-EncodingLaws : EncodingLaws plain_encodings
plain_encodings-EncodingLaws = record {
  record-text = λ r valid. (
    framed r.root_key r.condition,
    refl,
    ap read_record (read_frame-framed r.root_key r.condition),
  );
  caveat-text = λ third first nonce id. (
    framed third (framed first (framed nonce (b'e' ∷ id))),
    refl,
    read_json-framed third first nonce (b'e' ∷ id),
  );
  from-to_base64 = λ s. refl;
  to_base64-brace = λ s. (b'{' ∷ s, refl);
}

pub record Sample : Type 0 where
  pub id : Bytes
  pub root_key : Bytes
  pub format : ℕ
  pub caveats : List MacaroonCaveat

abbrev with_caveat : MacaroonCaveat → Sample → Sample
with_caveat c m = record m { caveats = m.caveats ++ c ∷ [] }

abbrev pub sample_lib : MacaroonLib Sample
sample_lib = record {
  new_m = λ key id location format.
      some (record { id = id; root_key = key; format = format; caveats = [] });
  version_of = λ m. m.format;
  id_of = λ m. m.id;
  caveats_of = λ m. m.caveats;
  add_first_party = λ condition m.
      some (with_caveat (record { id = condition; verification_id = []; location = [] }) m);
  add_third_party = λ key id location m.
      some (with_caveat (record { id = id; verification_id = 1 ∷ key; location = location }) m);
  signature_of = λ m. m.root_key;
  bind = λ signature m. m;
  verify_signature = λ m key ms. if nat_beq (length m.root_key) (length key) then some [] else none;
}

pub sample_lib-IdLaws : IdLaws sample_lib
sample_lib-IdLaws = record {
  new_m-id = λ key id location format m h. ap (λ o. from_some id o) (sym h);
  add_first_party-id = λ condition m m' h. ap (λ o. from_some m.id o) (sym h);
  add_third_party-id = λ key id location m m' h. ap (λ o. from_some m.id o) (sym h);
}
  where
    from_some : Bytes → Option Sample → Bytes
    from_some d none = d
    from_some d (some m) = m.id

-- The locations of local caveats are read as one digit and as they are.
abbrev one_digit : Bytes → Option Version
one_digit [] = none
one_digit (c ∷ s) = some (at_version (c - 48))

abbrev pub sample_platform : Platform Sample
sample_platform = record {
  lib = sample_lib;
  box = plain_box;
  encodings = plain_encodings;
  readers = record { atoi = one_digit; base64_decode = λ s. some s };
  unregistered = λ uri condition. condition;
}
