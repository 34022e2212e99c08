-- ===== src/Tests/Jsons.antt =====
-- The JSON form of macaroons on a small input.
use macaroon_bakery.Prelude.{
  Bytes, ℕ, zero, suc, ◌+◌, ◌≡◌, refl, sym, ap, ◌∙◌, true, false, Option, none, some, List, [], ◌∷◌,
  ◌++◌, codes, ok, Map, lookup, nat_beq, replicate, length, HasUniqueKeys, bytes_eq, bytes_beq,
  bytes_beq_iff, arith,
}
use macaroon_bakery.Prelude.Sort.{sort_strings}
use macaroon_bakery.Strings.Utf8.{valid_string}
use macaroon_bakery.Checkers.Macaroons.{MacaroonCaveat}
use macaroon_bakery.Checkers.Namespace.{
  marshal_text, elements, element, more_elements, get_prefix, uris_of, resolve,
}
use macaroon_bakery.Bakery.Macaroon.{Macaroon, macaroon_version}
use macaroon_bakery.Bakery.Macaroon.Json.{
  MacaroonJson, JsonLib, marshal_macaroon, unmarshal_macaroon, encode_data,
}
use macaroon_bakery.Bakery.Macaroon.Json.Entries.{IsText, JsonLaws}
use macaroon_bakery.Bakery.Macaroon.Json.RoundTrip.{IsWritten, unmarshal-marshal_macaroon}
use macaroon_bakery.Bakery.Codec.{version3}
use macaroon_bakery.Bakery.Codec.Legacy.{Version, negative, at_version}
use macaroon_bakery.Tests.Platforms.{framed, read_frame, read_frame-framed, Sample, sample_lib}
use macaroon_bakery.Tests.Namespaces.{two_uris, two_uris-IsValid}

-- Frames one after the other.
abbrev frames : List Bytes → Bytes
frames [] = []
frames (f ∷ fs) = framed f (frames fs)

abbrev cons_some : Bytes → Option (List Bytes) → Option (List Bytes)
cons_some f none = none
cons_some f (some fs) = some (f ∷ fs)

abbrev read_next : (Bytes → Option (List Bytes)) → Option (Bytes × Bytes) → Option (List Bytes)
read_next read none = none
read_next read (some (f, rest)) = cons_some f (read rest)

abbrev read_frames : ℕ → Bytes → Option (List Bytes)
read_frames zero s = some []
read_frames (suc n) s = read_next (λ rest. read_frames n rest) (read_frame s)

read_frames-frames : (fs : List Bytes) → read_frames (length fs) (frames fs) ≡ some fs
read_frames-frames [] = refl
read_frames-frames (f ∷ fs) =
    ap (read_next (λ rest. read_frames (length fs) rest)) (read_frame-framed f (frames fs))
    ∙ ap (cons_some f) (read_frames-frames fs)

-- A macaroon without caveats, with two entries and a namespace, is written as frames, of which
-- those of the last entry come first.
abbrev write_sample : ℕ → Sample → List MacaroonCaveat → (a b c d ns : Bytes) → Option Bytes
write_sample v m (cav ∷ cavs) a b c d ns = none
write_sample v m [] a b c d ns =
    some (v ∷ m.format ∷ frames (c ∷ d ∷ a ∷ b ∷ ns ∷ m.id ∷ m.root_key ∷ []))

abbrev write_json : Version → Option Sample → Map Bytes Bytes → Option Bytes → Option Bytes
write_json (at_version v) (some m) ((a, b) ∷ (c, d) ∷ []) (some ns) =
    write_sample v m m.caveats a b c d ns
write_json v m entries ns = none

abbrev of_frames : ℕ → ℕ → Option (List Bytes) → Option (MacaroonJson Sample)
of_frames v format (some (c ∷ d ∷ a ∷ b ∷ ns ∷ id ∷ key ∷ [])) = some (record {
  macaroon = some (record { id = id; root_key = key; format = format; caveats = [] });
  version = at_version v;
  caveat_data = (c, d) ∷ (a, b) ∷ [];
  namespace = some ns;
})
of_frames v format o = none

abbrev read_json : Bytes → Option (MacaroonJson Sample)
read_json (v ∷ format ∷ s) = of_frames v format (read_frames 7 s)
read_json s = none

-- A byte is written as so many ones and a zero.
abbrev tally : Bytes → Bytes
tally [] = []
tally (n ∷ s) = replicate n b'1' ++ (b'0' ∷ tally s)

abbrev read_tally : ℕ → Bytes → Bytes
read_tally n [] = []
read_tally n (c ∷ s) = elim (nat_beq c b'1') [
  | true ↦ read_tally (suc n) s
  | false ↦ n ∷ read_tally 0 s
]

read_tally-ones :
    (n k : ℕ) (s : Bytes) → read_tally k (replicate n b'1' ++ (b'0' ∷ s)) ≡ (k + n) ∷ read_tally 0 s
read_tally-ones zero k s = ap (λ x. x ∷ read_tally 0 s) (omega arith)
read_tally-ones (suc n) k s =
    read_tally-ones n (suc k) s ∙ ap (λ x. x ∷ read_tally 0 s) (omega arith)

read_tally-tally : (s : Bytes) → read_tally 0 (tally s) ≡ s
read_tally-tally [] = refl
read_tally-tally (n ∷ s) =
    let same : 0 + n ≡ n = omega arith in
    read_tally-ones n 0 (tally s)
    ∙ ap (λ x. x ∷ read_tally 0 (tally s)) same
    ∙ ap (λ x. n ∷ x) (read_tally-tally s)

ones-IsText : (n : ℕ) (s : Bytes) → IsText s → IsText (replicate n b'1' ++ s)
unfolding valid_string
ones-IsText zero s h = h
ones-IsText (suc n) s h = ones-IsText n s h

zero_IsText : (s : Bytes) → IsText s → IsText (b'0' ∷ s)
unfolding valid_string
zero_IsText s h = h

tally-IsText : (s : Bytes) → IsText (tally s)
tally-IsText [] = unfold valid_string in refl
tally-IsText (n ∷ s) = ones-IsText n (b'0' ∷ tally s) (zero_IsText (tally s) (tally-IsText s))

abbrev write_m : Sample → List MacaroonCaveat → Option Bytes
write_m m [] = some (m.format ∷ frames (m.id ∷ m.root_key ∷ []))
write_m m (c ∷ cs) = none

abbrev m_of_frames : ℕ → Option (List Bytes) → Option Sample
m_of_frames format (some (id ∷ key ∷ [])) =
    some (record { id = id; root_key = key; format = format; caveats = [] })
m_of_frames format o = none

abbrev read_m : Bytes → Option Sample
read_m [] = none
read_m (format ∷ s) = m_of_frames format (read_frames 2 s)

abbrev plain_json : JsonLib Sample
plain_json = record {
  marshal_m = λ m. write_m m m.caveats;
  unmarshal_m = read_m;
  marshal_json = λ m. write_json m.version m.macaroon m.caveat_data m.namespace;
  unmarshal_json = read_json;
  to_raw_base64 = tally;
  base64_decode = λ s. some (read_tally 0 s);
}

-- Two entries in the other order.
swapped_unique :
    (a b c d : Bytes) → HasUniqueKeys ((a, b) ∷ (c, d) ∷ []) → HasUniqueKeys ((c, d) ∷ (a, b) ∷ [])
unfolding lookup
swapped_unique a b c d (new, rest) =
    (ground (arith, bytes_beq_iff a c, bytes_beq_iff c a), (refl, tt))

lookup-swapped :
    (a b c d k : Bytes)
    → HasUniqueKeys ((a, b) ∷ (c, d) ∷ [])
    → lookup k ((c, d) ∷ (a, b) ∷ []) ≡ lookup k ((a, b) ∷ (c, d) ∷ [])
unfolding lookup
lookup-swapped a b c d k (new, rest) =
    ground (arith, bytes_beq_iff a k, bytes_beq_iff c k, bytes_beq_iff c a)

-- What is read of a text is what was written, with the entries in some order.
abbrev IsReadBack : Sample → Version → Map Bytes Bytes → Option Bytes → Bytes → Type 0
IsReadBack m version entries ns text =
    (entries' : Map Bytes Bytes) × (read_json text
      ≡ some
          (record { macaroon = some m; version = version; caveat_data = entries'; namespace = ns }))
    × HasUniqueKeys entries'
    × ((key : Bytes) → lookup key entries' ≡ lookup key entries)

some-eq : (a b : Bytes) → some a ≡ some b → a ≡ b
some-eq a b h = ground arith

read-write_sample :
    (v format : ℕ) (id key : Bytes) (caveats : List MacaroonCaveat) (a b c d ns text : Bytes)
    → HasUniqueKeys ((a, b) ∷ (c, d) ∷ [])
    → write_sample v
        (record { id = id; root_key = key; format = format; caveats = caveats })
        caveats
        a
        b
        c
        d
        ns
      ≡ some text
    → IsReadBack
        (record { id = id; root_key = key; format = format; caveats = caveats })
        (at_version v)
        ((a, b) ∷ (c, d) ∷ [])
        (some ns)
        text
read-write_sample v format id key (cav ∷ cavs) a b c d ns text unique h = absurd (cc)
read-write_sample v format id key [] a b c d ns text unique h =
    let fs = c ∷ d ∷ a ∷ b ∷ ns ∷ id ∷ key ∷ [] in
    (
      (c, d) ∷ (a, b) ∷ [],
      ap read_json (sym (some-eq (v ∷ format ∷ frames fs) text h))
          ∙ ap (of_frames v format) (read_frames-frames fs),
      swapped_unique a b c d unique,
      λ k. lookup-swapped a b c d k unique,
    )

read-write_json :
    (version : Version) (m : Sample) (entries : Map Bytes Bytes) (ns : Option Bytes) (text : Bytes)
    → HasUniqueKeys entries
    → write_json version (some m) entries ns ≡ some text
    → IsReadBack m version entries ns text
read-write_json (at_version v) m ((a, b) ∷ (c, d) ∷ []) (some ns) text unique h =
    read-write_sample v m.format m.id m.root_key m.caveats a b c d ns text unique h
read-write_json (at_version v) m ((a, b) ∷ (c, d) ∷ []) none text unique h = absurd (cc)
read-write_json (at_version v) m ((a, b) ∷ (c, d) ∷ e ∷ es) ns text unique h = absurd (cc)
read-write_json (at_version v) m ((a, b) ∷ []) ns text unique h = absurd (cc)
read-write_json (at_version v) m [] ns text unique h = absurd (cc)
read-write_json negative m entries ns text unique h = absurd (cc)

plain_json-JsonLaws : JsonLaws plain_json
plain_json-JsonLaws = record {
  unmarshal-marshal_json = λ m m_text version entries ns text writes reads unique texts ns_text h.
      read-write_json version m entries ns text unique h;
  base64_decode-to_raw_base64 = λ s. ap some (read_tally-tally s);
  to_raw_base64-IsText = tally-IsText;
}

abbrev kept_macaroon : Macaroon Sample
kept_macaroon = record {
  m = record { id = codes "id"; root_key = codes "root"; format = 2; caveats = [] };
  version = at_version 3;
  caveat_data = (1 ∷ [], 2 ∷ 3 ∷ []) ∷ (2 ∷ [], 4 ∷ []) ∷ [];
  namespace = some two_uris;
  caveat_id_prefix = [];
}

abbrev m_text : Bytes
m_text = 2 ∷ frames (codes "id" ∷ codes "root" ∷ [])

abbrev kept_text : Bytes
kept_text =
    3
    ∷ 2
    ∷ frames (
        codes "110"
        ∷ codes "11110"
        ∷ codes "10"
        ∷ codes "1101110"
        ∷ codes "http:h std:s"
        ∷ codes "id"
        ∷ codes "root"
        ∷ [])

kept_run : marshal_macaroon sample_lib plain_json kept_macaroon ≡ ok kept_text
unfolding marshal_macaroon encode_data marshal_text elements element more_elements get_prefix
    uris_of sort_strings lookup bytes_beq
kept_run = refl

format_run : sample_lib.version_of kept_macaroon.m ≡ macaroon_version (at_version version3)
unfolding macaroon_version
format_run = refl

kept_unique : HasUniqueKeys kept_macaroon.caveat_data
unfolding lookup bytes_beq
kept_unique = (refl, (refl, tt))

two_uris-IsWritten : IsWritten (some two_uris)
unfolding valid_string marshal_text elements element more_elements get_prefix uris_of sort_strings
    lookup bytes_beq
two_uris-IsWritten = (two_uris-IsValid, refl)

unmarshal-marshal_macaroon_example :
    (mac' : Macaroon Sample) × (unmarshal_macaroon sample_lib plain_json [] kept_text ≡ ok mac')
    × (mac'.m ≡ kept_macaroon.m)
    × (mac'.version ≡ kept_macaroon.version)
    × ((uri : Bytes) → resolve mac'.namespace uri ≡ resolve kept_macaroon.namespace uri)
    × ((id : Bytes) → lookup id mac'.caveat_data ≡ lookup id kept_macaroon.caveat_data)
unmarshal-marshal_macaroon_example =
    unmarshal-marshal_macaroon sample_lib plain_json plain_json-JsonLaws kept_macaroon m_text []
      kept_text refl format_run refl refl kept_unique two_uris-IsWritten kept_run
