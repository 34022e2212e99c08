-- ===== src/Bakery/Discharge/Composed.antt =====
-- `AddCaveat` of bakery/macaroon.go against `Discharge` of bakery/discharge.go.
use mathlib.Core.Path.{subst}
use macaroon_bakery.Prelude.{Bytes, ℕ, ◌≡◌, refl, sym, Option, none, some, bytes_eq, ok}
use macaroon_bakery.Checkers.Caveat.{Caveat}
use macaroon_bakery.Checkers.Namespace.{Namespace}
use macaroon_bakery.Bakery.Crypto.{BoxLaws, KeyPair, IsKeyPair}
use macaroon_bakery.Bakery.Codec.{ThirdPartyCaveatInfo}
use macaroon_bakery.Bakery.Codec.Legacy.{EncodingLaws, Version, encode_caveat}
use macaroon_bakery.Bakery.Codec.Versions.{Carries, IsEncodable, decode-encode_caveat}
use macaroon_bakery.Bakery.Macaroon.{Macaroon, CaveatEntropy}
use macaroon_bakery.Bakery.Macaroon.Adding.{
  Platform, or_else, least_version, encode_third_party, finish_added, add_third_party_caveat,
}
use macaroon_bakery.Bakery.Keys.{Locator}
use macaroon_bakery.Bakery.Discharge.{CaveatChecker, discharge, discharge_decoded}
use macaroon_bakery.Bakery.Macaroon.Added.{
  StoredIn, place_caveat-payload, set_m-done, finish_added-done, encode_third_party-done,
}

module _ {M : Type 0} (p : Platform M) where
  -- Where `AddCaveat` adds a third party caveat without an error, the macaroon has it under an
  -- id, with the caveat's location and a root key, and the third party's `Discharge` of that id,
  -- and of the encrypted caveat that the macaroon keeps for it if it keeps one, decodes it to the
  -- condition, the same root key and the first party's key, and goes on with these. The packages
  -- obey their laws, both parties have key pairs, the macaroon has a namespace, and the caveat
  -- can be encoded.
  pub discharge-add_third_party_caveat :
      {Failure : Type 0} (bad_key : Bytes → Bytes) (mac mac' : Macaroon M) (cav : Caveat)
      (first third : KeyPair) (version : Version) (ns : Namespace) (e : CaveatEntropy)
      (checker : CaveatChecker Failure) (root_key : Bytes)
      → BoxLaws p.box
      → EncodingLaws p.encodings
      → IsKeyPair p.box first
      → IsKeyPair p.box third
      → mac.namespace ≡ some ns
      → e.root_key ≡ some root_key
      → IsEncodable e.nonces cav.condition root_key ns
      → add_third_party_caveat p mac first e
          (ok (record { public_key = third.public; version = version }, cav))
        ≡ (mac', none)
      → (id : Bytes) × (payload : Option Bytes) × (info : ThirdPartyCaveatInfo)
        × (p.lib.add_third_party root_key id cav.location mac.m ≡ some mac'.m)
        × StoredIn mac'.caveat_data id payload
        × Carries cav.condition root_key first third (or_else payload id) info
        × ((locator : Option Locator) (f : ℕ → CaveatEntropy)
            → discharge p bad_key
                (record {
                  id = id;
                  caveat = payload;
                  key = third;
                  checker = checker;
                  locator = locator;
                })
                f
              ≡ discharge_decoded p bad_key
                  (record {
                    id = id;
                    caveat = payload;
                    key = third;
                    checker = checker;
                    locator = locator;
                  })
                  f
                  info)
  unfolding add_third_party_caveat encode_third_party finish_added discharge
  discharge-add_third_party_caveat bad_key mac mac' cav first third version ns e checker root_key
        laws enc_laws first_keys third_keys in_ns rooted fits h =
      let (rk, id, mac1, encoded_ok, set_ok) = finish_added-done p mac mac' cav.location _ h in
      let (encoded, root_eq, encodes, placed) =
        encode_third_party-done p mac mac1 first e
          (record { public_key = third.public; version = version }) cav root_key rk id rooted
          encoded_ok in
      let (same_m, payload, stored, chosen) =
        place_caveat-payload p mac encoded (least_version mac.version version) id mac1 placed in
      let (added, same_data) =
        set_m-done p mac1 mac' (p.lib.add_third_party rk id cav.location mac1.m) set_ok in
      let (info, decodes, carries) =
        decode-encode_caveat p.box p.encodings laws enc_laws cav.condition root_key first third
          first_keys third_keys e.nonces ns fits (least_version mac.version version) encoded
          (subst
            (λ n.
              encode_caveat p.box p.encodings cav.condition root_key
                (record { public_key = third.public; version = least_version mac.version version })
                first n e.nonces
              ≡ ok encoded)
            in_ns encodes) in
      (
        id,
        payload,
        info,
        subst (λ r. p.lib.add_third_party r id cav.location mac.m ≡ some mac'.m) root_eq
            (subst (λ n. p.lib.add_third_party rk id cav.location n ≡ some mac'.m) same_m added),
        subst (λ kept. StoredIn kept id payload) (sym same_data) stored,
        subst (λ s. Carries cav.condition root_key first third s info) (sym chosen) carries,
        λ locator f. rw (chosen, decodes) refl,
      )
