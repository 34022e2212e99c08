-- ===== src/Bakery/Macaroon/Added.antt =====
-- What a successful `AddCaveat` of bakery/macaroon.go has done.
use mathlib.Core.Path.{subst}
use macaroon_bakery.Prelude.{
  Bytes, ℕ, suc, ◌≡◌, refl, sym, ap, ◌∙◌, Option, none, some, List, [], ◌∷◌, inl, inr, bytes_eq,
  beq_refl, Result, ok, err, ◌>>=◌, >>=-eq-ok, from_option, arith, Map, lookup, insert,
  lookup-insert, Bool-cases, Option-cases,
}
use macaroon_bakery.Checkers.Caveat.{Caveat, is_empty}
use macaroon_bakery.Checkers.Namespace.{resolve_caveat}
use macaroon_bakery.Bakery.Crypto.{KeyPair}
use macaroon_bakery.Bakery.Codec.{CaveatError}
use macaroon_bakery.Bakery.Codec.Legacy.{Version, ThirdPartyInfo, encode_caveat}
use macaroon_bakery.Bakery.Macaroon.{
  MacaroonError, Macaroon, CaveatEntropy, new_caveat_id, no_random_secret, MacaroonLib,
}
use macaroon_bakery.Bakery.Macaroon.Adding.{
  Platform, Added, least_version, is_before_v3, encoded_caveat, set_m, place_caveat,
  encode_third_party, finish_added, add_third_party_caveat, or_else, add_with_key, add_caveat,
  add_caveats,
}
use macaroon_bakery.Bakery.Keys.{Locator}

-- The encrypted caveat of a third party caveat is its id, or is kept under its id.
abbrev pub StoredIn : Map Bytes Bytes → Bytes → Option Bytes → Type 0
StoredIn kept id none = Unit
StoredIn kept id (some s) = lookup id kept ≡ some s

pub ok-injective : {E A : Type 0} (a b : A) → ◌≡◌ {A = Result E A} (ok a) (ok b) → a ≡ b
ok-injective a b h = ground arith

module _ {M : Type 0} (p : Platform M) where
  pub place_caveat-payload :
      (mac : Macaroon M) (info : Bytes) (v : Version) (id : Bytes) (mac' : Macaroon M)
      → place_caveat p mac info v ≡ ok (id, mac')
      → (mac'.m ≡ mac.m)
        × (payload : Option Bytes) × StoredIn mac'.caveat_data id payload
        × (or_else payload id ≡ info)
  unfolding place_caveat
  place_caveat-payload mac info v id mac' h = elim (Bool-cases (is_before_v3 v)) [
    | inl old ↦ (ground arith, none, tt, ground arith)
    | inr new ↦ elim (Option-cases (new_caveat_id p.lib mac mac.caveat_id_prefix)) [
      | inl ran_out ↦ absurd (ground arith)
      | inr (j, fresh) ↦
          let kept : mac'.caveat_data ≡ insert id info mac.caveat_data = ground arith in
          let found : lookup id mac'.caveat_data ≡ some info =
            ap (λ (d : Map Bytes Bytes). lookup id d) kept
            ∙ ground (arith, lookup-insert id id info mac.caveat_data, beq_refl id) in
          (ground arith, some info, found, refl)
    ]
  ]

  pub set_m-done :
      (mac mac' : Macaroon M) (o : Option M)
      → set_m p mac o ≡ (mac', none)
      → (o ≡ some mac'.m) × (mac'.caveat_data ≡ mac.caveat_data)
  set_m-done mac mac' none h = absurd (cc)
  set_m-done mac mac' (some m) h = (ground arith, ground arith)

  pub finish_added-done :
      (mac mac' : Macaroon M) (location : Bytes)
      (r : Result MacaroonError (Bytes × Bytes × Macaroon M))
      → finish_added p mac location r ≡ (mac', none)
      → (root_key : Bytes) × (id : Bytes) × (mac1 : Macaroon M) × (r ≡ ok (root_key, id, mac1))
        × (set_m p mac1 (p.lib.add_third_party root_key id location mac1.m) ≡ (mac', none))
  unfolding finish_added
  finish_added-done mac mac' location (err e) h = absurd (cc)
  finish_added-done mac mac' location (ok (root_key, id, mac1)) h = (root_key, id, mac1, refl, h)

  encoded_caveat-ok :
      (r : Result CaveatError Bytes) (id : Bytes) → encoded_caveat r ≡ ok id → r ≡ ok id
  encoded_caveat-ok (ok s) id h = ground arith
  encoded_caveat-ok (err e) id h = absurd (cc)

  pub encode_third_party-done :
      (mac mac1 : Macaroon M) (key : KeyPair) (e : CaveatEntropy) (info : ThirdPartyInfo)
      (cav : Caveat) (root_key root_key1 id : Bytes)
      → e.root_key ≡ some root_key
      → encode_third_party p mac key e (info, cav) ≡ ok (root_key1, id, mac1)
      → (encoded : Bytes) × (root_key1 ≡ root_key)
        × (encode_caveat p.box p.encodings cav.condition root_key
              (record info { version = least_version mac.version info.version })
              key
              mac.namespace
              e.nonces
            ≡ ok encoded)
        × (place_caveat p mac encoded (least_version mac.version info.version) ≡ ok (id, mac1))
  unfolding encode_third_party
  encode_third_party-done mac mac1 key e info cav root_key root_key1 id rooted h =
      let v = least_version mac.version info.version in
      let (k, k_ok, h1) = >>=-eq-ok (from_option no_random_secret e.root_key) _ h in
      let same : k ≡ root_key = ground arith in
      let (encoded, encoded_ok, h2) =
        >>=-eq-ok
          (encoded_caveat (
            encode_caveat p.box p.encodings cav.condition k (record info { version = v }) key
              mac.namespace e.nonces))
          (λ s. place_caveat p mac s v >>= λ x. ok (k, x.0, x.1)) h1 in
      let (x, placed, h3) = >>=-eq-ok (place_caveat p mac encoded v) (λ x. ok (k, x.0, x.1)) h2 in
      let root_eq : root_key1 ≡ root_key = ground arith in
      let triple : (k, x.0, x.1) ≡ (root_key1, id, mac1) = ok-injective _ _ h3 in
      let placed_eq : x ≡ (id, mac1) = ap (λ t. (t.1, t.2)) triple in
      (
        encoded,
        root_eq,
        subst
            (λ r.
              encode_caveat p.box p.encodings cav.condition r (record info { version = v }) key
                mac.namespace e.nonces
              ≡ ok encoded)
            same (encoded_caveat-ok _ _ encoded_ok),
        placed ∙ ap ok placed_eq,
      )

-- What the program relies on about the ids of macaroons.
pub record IdLaws {M : Type 0} (lib : MacaroonLib M) : Type 0 where
  pub new_m-id :
      (root_key id location : Bytes) (format : ℕ) (m : M)
      → lib.new_m root_key id location format ≡ some m
      → lib.id_of m ≡ id
  pub add_first_party-id :
      (condition : Bytes) (m m' : M)
      → lib.add_first_party condition m ≡ some m'
      → lib.id_of m' ≡ lib.id_of m
  pub add_third_party-id :
      (root_key id location : Bytes) (m m' : M)
      → lib.add_third_party root_key id location m ≡ some m'
      → lib.id_of m' ≡ lib.id_of m

module _ {M : Type 0} (p : Platform M) (ids : IdLaws p.lib) where
  add_third_party_caveat-id :
      (mac mac' : Macaroon M) (key : KeyPair) (e : CaveatEntropy)
      (r : Result MacaroonError (ThirdPartyInfo × Caveat))
      → add_third_party_caveat p mac key e r ≡ (mac', none)
      → p.lib.id_of mac'.m ≡ p.lib.id_of mac.m
  unfolding add_third_party_caveat
  add_third_party_caveat-id mac mac' key e (err error) h = absurd (cc)
  add_third_party_caveat-id mac mac' key e (ok (info, cav)) h =
      let (rk, id, mac1, encoded_ok, set_ok) = finish_added-done p mac mac' cav.location _ h in
      let (added, same_data) =
        set_m-done p mac1 mac' (p.lib.add_third_party rk id cav.location mac1.m) set_ok in
      elim (Option-cases e.root_key) [
        | inl none_left ↦ absurd (unfold encode_third_party in ground arith)
        | inr (root_key, rooted) ↦
            let (encoded, root_eq, encodes, placed) =
              encode_third_party-done p mac mac1 key e info cav root_key rk id rooted encoded_ok in
            let (same_m, payload, stored, chosen) =
              place_caveat-payload p mac encoded (least_version mac.version info.version) id mac1
                placed in
            ids.add_third_party-id rk id cav.location mac1.m mac'.m added ∙ ap p.lib.id_of same_m
      ]

  add_with_key-id :
      (mac mac' : Macaroon M) (cav : Caveat) (key : Option KeyPair) (loc : Option Locator)
      (e : CaveatEntropy)
      → add_with_key p mac cav key loc e ≡ (mac', none)
      → p.lib.id_of mac'.m ≡ p.lib.id_of mac.m
  unfolding add_with_key
  add_with_key-id mac mac' cav none loc e h = absurd (cc)
  add_with_key-id mac mac' cav (some key) loc e h = add_third_party_caveat-id mac mac' key e _ h

  pub add_caveat-id :
      (mac mac' : Macaroon M) (cav : Caveat) (key : Option KeyPair) (loc : Option Locator)
      (e : CaveatEntropy)
      → add_caveat p mac cav key loc e ≡ (mac', none)
      → p.lib.id_of mac'.m ≡ p.lib.id_of mac.m
  unfolding add_caveat
  add_caveat-id mac mac' cav key loc e h = elim (Bool-cases (is_empty cav.location)) [
    | inl own ↦
        let (added, same_data) = set_m-done p mac mac' _ (rw own at h) in
        ids.add_first_party-id (resolve_caveat p.unregistered mac.namespace cav).condition mac.m
          mac'.m added
    | inr other ↦ add_with_key-id mac mac' cav key loc e (rw other at h)
  ]

  add_caveats_next :
      (mac : Macaroon M) (cav : Caveat) (cavs : List Caveat) (key : Option KeyPair)
      (loc : Option Locator) (e : ℕ → CaveatEntropy) (i : ℕ)
      → (add_caveat p mac cav key loc (e i)).1 ≡ none
      → add_caveats p mac (cav ∷ cavs) key loc e i
        ≡ add_caveats p (add_caveat p mac cav key loc (e i)).0 cavs key loc e (suc i)
  unfolding add_caveats
  add_caveats_next mac cav cavs key loc e i h = rw (add_caveats, h) refl

  add_caveats_stops :
      (mac mac' : Macaroon M) (cav : Caveat) (cavs : List Caveat) (key : Option KeyPair)
      (loc : Option Locator) (e : ℕ → CaveatEntropy) (i : ℕ) (error : MacaroonError)
      → (add_caveat p mac cav key loc (e i)).1 ≡ some error
      → add_caveats p mac (cav ∷ cavs) key loc e i ≡ (mac', none)
      → ⊥
  unfolding add_caveats
  add_caveats_stops mac mac' cav cavs key loc e i error failed h =
      let stopped : add_caveats p mac (cav ∷ cavs) key loc e i
          ≡ add_caveat p mac cav key loc (e i) =
        rw (add_caveats, failed) refl in
      let clash : some error ≡ none = sym failed ∙ ap (λ (a : Added M). a.1) (sym stopped ∙ h) in
      absurd (cc)

  pub add_caveats-id :
      (mac mac' : Macaroon M) (cavs : List Caveat) (key : Option KeyPair) (loc : Option Locator)
      (e : ℕ → CaveatEntropy) (i : ℕ)
      → add_caveats p mac cavs key loc e i ≡ (mac', none)
      → p.lib.id_of mac'.m ≡ p.lib.id_of mac.m
  unfolding add_caveats
  add_caveats-id mac mac' [] key loc e i h = ap (λ (a : Added M). p.lib.id_of (a.0).m) (sym h)
  add_caveats-id mac mac' (cav ∷ cavs) key loc e i h =
      elim (Option-cases ((add_caveat p mac cav key loc (e i)).1)) [
        | inl added ↦
            add_caveats-id (add_caveat p mac cav key loc (e i)).0 mac' cavs key loc e (suc i)
              (sym (add_caveats_next mac cav cavs key loc e i added) ∙ h)
            ∙ add_caveat-id mac (add_caveat p mac cav key loc (e i)).0 cav key loc (e i)
                (λ j. ((add_caveat p mac cav key loc (e i)).0, added j))
        | inr (error, failed) ↦
            absurd (add_caveats_stops mac mac' cav cavs key loc e i error failed h)
      ]
