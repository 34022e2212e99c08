-- ===== src/Checkers/Macaroons.antt =====
-- The caveat of the package gopkg.in/macaroon.v2: the fields that the program reads.
use macaroon_bakery.Prelude.{Bytes}

pub record MacaroonCaveat : Type 0 where
  pub id : Bytes
  pub verification_id : Bytes
  pub location : Bytes
