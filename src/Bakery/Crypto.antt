-- ===== src/Bakery/Crypto.antt =====
-- What the program takes from golang.org/x/crypto/nacl/box and curve25519.
use macaroon_bakery.Prelude.{Bytes, ℕ, ◌+◌, ◌≡◌, Option, some, length}

abbrev pub key_len : ℕ
key_len = 32

abbrev pub nonce_len : ℕ
nonce_len = 24

-- `box.Overhead`
abbrev pub box_overhead : ℕ
box_overhead = 16

-- `curve25519.ScalarBaseMult`, `box.Seal` and `box.Open`. The keys of `seal` and `open` are the
-- peer's public key and the party's own private key.
pub record Box : Type 0 where
  pub public_of : Bytes → Bytes
  pub seal : Bytes → Bytes → Bytes → Bytes → Bytes
  pub open_box : Bytes → Bytes → Bytes → Bytes → Option Bytes

-- A box that was sealed for a party opens with its private key, under the same nonce, and is longer
-- than the message by a fixed number of bytes.
pub record BoxLaws (b : Box) : Type 0 where
  pub open-seal :
      (message nonce first third : Bytes)
      → b.open_box (b.seal message nonce (b.public_of third) first) nonce (b.public_of first) third
        ≡ some message
  pub length-seal :
      (message nonce public private : Bytes)
      → length (b.seal message nonce public private) ≡ length message + box_overhead

-- `KeyPair` of bakery/keys.go.
pub record KeyPair : Type 0 where
  pub public : Bytes
  pub private : Bytes

-- A key pair that `GenerateKey` makes: the public key belongs to the private one and has the
-- length that its Go type fixes.
pub record IsKeyPair (b : Box) (k : KeyPair) : Type 0 where
  pub belongs : k.public ≡ b.public_of k.private
  pub public_length : length k.public ≡ key_len
