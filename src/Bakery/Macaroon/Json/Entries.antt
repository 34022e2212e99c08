-- ===== src/Bakery/Macaroon/Json/Entries.antt =====
-- The caveat data of a macaroon in JSON: the loops of `MarshalJSON` and `UnmarshalJSON` of
-- bakery/macaroon.go.
use macaroon_bakery.Prelude.{
  Bytes, ◌≡◌, ◌∙◌, refl, sym, ap, true, Option, none, some, [], ◌∷◌, if◌then◌else◌, bytes_eq,
  bytes_beq, bytes_beq_iff, ok, Map, insert, lookup, lookup-insert, HasUniqueKeys, All, arith,
  Bool-cases, inl, inr,
}
use macaroon_bakery.Strings.Utf8.{valid_string}
use macaroon_bakery.Bakery.Codec.Legacy.{Version}
use macaroon_bakery.Bakery.Macaroon.{MacaroonLib}
use macaroon_bakery.Bakery.Macaroon.Json.{JsonLib, encode_data, decode_data}

-- A JSON string keeps a text that is valid UTF-8.
abbrev pub IsText : Bytes → Type 0
IsText s = valid_string s ≡ true

abbrev pub IsTextOrNull : Option Bytes → Type 0
IsTextOrNull none = Unit
IsTextOrNull (some s) = IsText s

-- JSON reads what it wrote of a `macaroonJSON` whose macaroon is read back on its own and whose
-- strings are valid UTF-8; the entries of the map come in any order. Base64 is text, and is read
-- back.
pub record JsonLaws {M : Type 0} (j : JsonLib M) : Type 0 where
  pub unmarshal-marshal_json :
      (m : M) (m_text : Bytes) (version : Version) (texts : Map Bytes Bytes) (ns : Option Bytes)
      (text : Bytes)
      → j.marshal_m m ≡ some m_text
      → j.unmarshal_m m_text ≡ some m
      → HasUniqueKeys texts
      → All (λ e. IsText e.0 × IsText e.1) texts
      → IsTextOrNull ns
      → j.marshal_json
          (record { macaroon = some m; version = version; caveat_data = texts; namespace = ns })
        ≡ some text
      → (texts' : Map Bytes Bytes) × (j.unmarshal_json text
          ≡ some (record {
            macaroon = some m;
            version = version;
            caveat_data = texts';
            namespace = ns;
          }))
        × HasUniqueKeys texts'
        × ((key : Bytes) → lookup key texts' ≡ lookup key texts)
  pub base64_decode-to_raw_base64 : (s : Bytes) → j.base64_decode (j.to_raw_base64 s) ≡ some s
  pub to_raw_base64-IsText : (s : Bytes) → IsText (j.to_raw_base64 s)

lookup-head : (k v : Bytes) (m : Map Bytes Bytes) → lookup k ((k, v) ∷ m) ≡ some v
unfolding lookup
lookup-head k v m = ground (arith, bytes_beq_iff k k)

lookup-tail :
    (j k v w : Bytes) (m : Map Bytes Bytes)
    → lookup j m ≡ none
    → lookup k m ≡ some v
    → lookup k ((j, w) ∷ m) ≡ some v
unfolding lookup
lookup-tail j k v w m new there = elim (Bool-cases (bytes_beq j k)) [
  | inl same ↦ absurd (
      let e : j ≡ k = (bytes_beq_iff j k).0 same in
      let none_there : lookup k m ≡ none = ap (λ x. lookup x m) (sym e) ∙ new in cc)
  | inr other ↦ rw other there
]

module _ {M : Type 0} (lib : MacaroonLib M) (j : JsonLib M) (laws : JsonLaws j) where
  abbrev pub encoded : Option Bytes → Option Bytes
  encoded none = none
  encoded (some d) = some (j.to_raw_base64 d)

  abbrev pub decoded : Option Bytes → Option Bytes
  decoded none = none
  decoded (some d) = j.base64_decode d

  to_raw_base64-injective : (s t : Bytes) → j.to_raw_base64 s ≡ j.to_raw_base64 t → s ≡ t
  to_raw_base64-injective s t h =
      let same : some s ≡ some t =
        sym (laws.base64_decode-to_raw_base64 s)
        ∙ ap j.base64_decode h
        ∙ laws.base64_decode-to_raw_base64 t in
      ground arith

  bytes_beq-to_raw_base64 :
      (s t : Bytes) → bytes_beq (j.to_raw_base64 s) (j.to_raw_base64 t) ≡ bytes_beq s t
  bytes_beq-to_raw_base64 s t = elim (Bool-cases (bytes_beq s t)) [
    | inl same ↦ (bytes_beq_iff _ _).1 (ap j.to_raw_base64 ((bytes_beq_iff s t).0 same)) ∙ sym same
    | inr other ↦ elim (Bool-cases (bytes_beq (j.to_raw_base64 s) (j.to_raw_base64 t))) [
      | inl same ↦
          let e = to_raw_base64-injective s t ((bytes_beq_iff _ _).0 same) in
          absurd (let same' : bytes_beq s t ≡ true = (bytes_beq_iff s t).1 e in cc)
      | inr others ↦ others ∙ sym other
    ]
  ]

  pub lookup-encode_data :
      (id : Bytes) (entries : Map Bytes Bytes)
      → lookup (j.to_raw_base64 id) (encode_data lib j entries) ≡ encoded (lookup id entries)
  unfolding encode_data lookup
  lookup-encode_data id [] = refl
  lookup-encode_data id ((k, d) ∷ entries) = elim (Bool-cases (bytes_beq k id)) [
    | inl same ↦ rw (bytes_beq-to_raw_base64 k id, same) refl
    | inr other ↦ rw (bytes_beq-to_raw_base64 k id, other) (lookup-encode_data id entries)
  ]

  pub encode_data-HasUniqueKeys :
      (entries : Map Bytes Bytes)
      → HasUniqueKeys entries
      → HasUniqueKeys (encode_data lib j entries)
  unfolding encode_data
  encode_data-HasUniqueKeys [] h = tt
  encode_data-HasUniqueKeys ((id, d) ∷ entries) (new, rest) = (
    lookup-encode_data id entries ∙ ap (λ o. encoded o) new,
    encode_data-HasUniqueKeys entries rest,
  )

  pub encode_data-IsText :
      (entries : Map Bytes Bytes) → All (λ e. IsText e.0 × IsText e.1) (encode_data lib j entries)
  unfolding encode_data
  encode_data-IsText [] = tt
  encode_data-IsText ((id, d) ∷ entries) =
      ((laws.to_raw_base64-IsText id, laws.to_raw_base64-IsText d), encode_data-IsText entries)

  -- Every entry is encoded.
  abbrev pub IsEncoded : Map Bytes Bytes → Type 0
  IsEncoded texts =
      (k v : Bytes)
      → lookup k texts ≡ some v
      → (id : Bytes) × (d : Bytes) × (k ≡ j.to_raw_base64 id) × (v ≡ j.to_raw_base64 d)

  pub encode_data-IsEncoded : (entries : Map Bytes Bytes) → IsEncoded (encode_data lib j entries)
  unfolding encode_data lookup
  encode_data-IsEncoded [] k v h = absurd (cc)
  encode_data-IsEncoded ((id, d) ∷ entries) k v h =
      elim (Bool-cases (bytes_beq (j.to_raw_base64 id) k)) [
        | inl same ↦ (id, d, sym ((bytes_beq_iff _ k).0 same), ground arith)
        | inr other ↦ encode_data-IsEncoded entries k v (rw other at h)
      ]

  lookup-decoded :
      (id d k v i : Bytes) (texts entries : Map Bytes Bytes)
      → k ≡ j.to_raw_base64 id
      → j.base64_decode v ≡ some d
      → lookup i entries ≡ decoded (lookup (j.to_raw_base64 i) texts)
      → (if bytes_beq id i then some d else lookup i entries)
        ≡ decoded (lookup (j.to_raw_base64 i) ((k, v) ∷ texts))
  unfolding lookup
  lookup-decoded id d k v i texts entries k_id d_decodes alike =
      let tests : bytes_beq k (j.to_raw_base64 i) ≡ bytes_beq id i =
        ap (λ x. bytes_beq x (j.to_raw_base64 i)) k_id ∙ bytes_beq-to_raw_base64 id i in
      elim (Bool-cases (bytes_beq id i)) [
        | inl same ↦ rw (tests, same) (sym d_decodes)
        | inr other ↦ rw (tests, other) alike
      ]

  pub decoded-encoded : (o : Option Bytes) → decoded (encoded o) ≡ o
  decoded-encoded none = refl
  decoded-encoded (some d) = laws.base64_decode-to_raw_base64 d

  -- The entries are decoded in any order.
  pub decode_data-IsEncoded :
      (texts : Map Bytes Bytes)
      → HasUniqueKeys texts
      → IsEncoded texts
      → (entries : Map Bytes Bytes) × (decode_data lib j texts ≡ ok entries)
        × ((id : Bytes) → lookup id entries ≡ decoded (lookup (j.to_raw_base64 id) texts))
  unfolding decode_data
  decode_data-IsEncoded [] unique e = ([], refl, λ id. unfold lookup in refl)
  decode_data-IsEncoded ((k, v) ∷ texts) (new, unique) e =
      let (id, d, k_id, v_d) = e k v (lookup-head k v texts) in
      let (entries, decodes, alike) =
        decode_data-IsEncoded texts unique
          (λ k' v' h. e k' v' (lookup-tail k k' v' v texts new h)) in
      let id_decodes : j.base64_decode k ≡ some id =
        ap j.base64_decode k_id ∙ laws.base64_decode-to_raw_base64 id in
      let d_decodes : j.base64_decode v ≡ some d =
        ap j.base64_decode v_d ∙ laws.base64_decode-to_raw_base64 d in
      (
        insert id d entries,
        rw (id_decodes, d_decodes, decodes) refl,
        λ i.
            lookup-insert id i d entries
            ∙ lookup-decoded id d k v i texts entries k_id d_decodes (alike i),
      )
