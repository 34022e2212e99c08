-- ===== src/Tests/Codecs.antt =====
-- Third party caveat ids of bakery/codec.go on small inputs.
use macaroon_bakery.Prelude.{
  Bytes, codes, ◌+◌, ◌-◌, ◌^◌, ◌≡◌, refl, some, none, [], ◌∷◌, ◌++◌, arith, ok, err, length, drop,
  replicate,
}
use macaroon_bakery.Checkers.Namespace.{Namespace, marshal_text, resolve}
use macaroon_bakery.Bakery.Uvarint.{IsU64, put_uvarint, append_uvarint, uvarint, uvarint_len}
use macaroon_bakery.Bakery.Uvarint.Laws.{length-append_uvarint}
use macaroon_bakery.Bakery.Crypto.{Box, BoxLaws, KeyPair, IsKeyPair}
use macaroon_bakery.Bakery.Codec.{
  encode_secret_part, decode_secret_part, version2, version3, encode_caveat_v2v3,
  decode_caveat_v2v3, slice_panic,
}
use macaroon_bakery.Bakery.Codec.RoundTrip.{decode-encode_caveat_v3}
use macaroon_bakery.Bakery.Codec.Panics.{decode_secret_part_panics}
use macaroon_bakery.Tests.Namespaces.{two_uris, two_uris-IsValid, namespace_run}

-- A box that puts sixteen zeros before the message.
abbrev pub plain_box : Box
plain_box = record {
  public_of = λ k. k;
  seal = λ message nonce public private. replicate 16 0 ++ message;
  open_box = λ sealed nonce public private. some (drop 16 sealed);
}

plain-length : (m : Bytes) → length (replicate 16 0 ++ m) ≡ length m + 16
plain-length m = omega arith

pub plain_box-BoxLaws : BoxLaws plain_box
plain_box-BoxLaws = record {
  open-seal = λ message nonce first third. refl;
  length-seal = λ message nonce public private. plain-length message;
}

abbrev pub first : KeyPair
first = record { public = replicate 32 1; private = replicate 32 1 }

abbrev pub third : KeyPair
third = record { public = replicate 32 2; private = replicate 32 2 }

pub first-IsKeyPair : IsKeyPair plain_box first
first-IsKeyPair = record { belongs = refl; public_length = refl }

pub third-IsKeyPair : IsKeyPair plain_box third
third-IsKeyPair = record { belongs = refl; public_length = refl }

pub v3_size : IsU64 (
    length
      (encode_secret_part version3 (codes "is-ok") (codes "key") (marshal_text (some two_uris))))
unfolding encode_secret_part append_uvarint put_uvarint namespace_run
v3_size = omega arith

pub v2_size : IsU64 (length (encode_secret_part version2 (codes "is-ok") (codes "key") []))
unfolding encode_secret_part append_uvarint put_uvarint
v2_size = omega arith

uvarint_300 : (put_uvarint 300 ≡ 0xAC ∷ 2 ∷ []) × (uvarint (0x80 ∷ []) ≡ none)
unfolding put_uvarint uvarint
uvarint_300 = (refl, refl)

length-append_uvarint_example : length (append_uvarint (codes "ab") 300) ≡ 2 + uvarint_len 300
length-append_uvarint_example = length-append_uvarint (codes "ab") 300 (omega arith)

decode-encode_caveat_v3_example :
    (ns' : Namespace) × (decode_caveat_v2v3 plain_box version3 third (
        encode_caveat_v2v3 plain_box version3
          (codes "is-ok")
          (codes "key")
          third.public
          first
          (some two_uris)
          (replicate 24 9))
      ≡ ok (record {
        condition = codes "is-ok";
        first_party_public_key = first.public;
        third_party_key_pair = third;
        root_key = codes "key";
        caveat =
            encode_caveat_v2v3 plain_box version3
              (codes "is-ok")
              (codes "key")
              third.public
              first
              (some two_uris)
              (replicate 24 9);
        version = version3;
        namespace = ns';
      }))
    × ((uri : Bytes) → resolve (some ns') uri ≡ resolve (some two_uris) uri)
decode-encode_caveat_v3_example =
    decode-encode_caveat_v3 plain_box (codes "is-ok") (codes "key") (replicate 24 9) first third
      two_uris plain_box-BoxLaws first-IsKeyPair third-IsKeyPair refl two_uris-IsValid v3_size

decode_secret_part_panics_example :
    decode_secret_part version3 (version3 ∷ (put_uvarint (2 ^ 64 - 1) ++ 0 ∷ [])) ≡ err slice_panic
decode_secret_part_panics_example =
    decode_secret_part_panics version3 (2 ^ 64 - 1) (0 ∷ []) (omega arith) (omega arith)
      (omega arith)
