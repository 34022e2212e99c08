-- ===== src/Tests/Responses.antt =====
-- Responses to errors on small inputs.
use macaroon_bakery.Prelude.{Bytes, ℕ, ◌≡◌, refl, Option, none, some, [], codes, ok}
use macaroon_bakery.Bakery.Codec.Legacy.{Version, at_version}
use macaroon_bakery.Bakery.Macaroon.{Macaroon, new_macaroon, macaroon_version, capped_version}
use macaroon_bakery.HttpErrors.{
  new_discharge_required_error, new_interaction_required_error, error_to_response, request_version,
}
use macaroon_bakery.HttpErrors.Answered.{answer, outcome, view_of, error_to_response-answers}
use macaroon_bakery.Tests.Platforms.{Sample, sample_lib, sample_platform}

-- What `NewMacaroon` makes for a version that is not known yet.
abbrev latest_macaroon : Macaroon Sample
latest_macaroon = record {
  m = record { id = codes "id"; root_key = codes "root"; format = 2; caveats = [] };
  version = at_version 3;
  caveat_data = [];
  namespace = none;
  caveat_id_prefix = [];
}

latest_run :
    new_macaroon sample_lib (codes "root") (codes "id") [] (at_version 9) none ≡ ok latest_macaroon
unfolding new_macaroon macaroon_version capped_version
latest_run = refl

abbrev read_digit : Bytes → Option Version
read_digit = sample_platform.readers.atoi

error_to_response-answers_example :
    (error_to_response (
        view_of
          (codes "text")
          (new_discharge_required_error latest_macaroon none [] [] (some (codes "/a/b"))))
      ≡ outcome
          (at_version 9)
          (record (new_discharge_required_error latest_macaroon none [] [] (some (codes "/a/b"))) {
            message = codes "text";
          }))
    × ((v : ℕ) × (request_version read_digit (codes "9") ≡ at_version v)
        × (error_to_response (
              view_of
                (codes "text")
                (new_interaction_required_error {M = Sample} read_digit none (codes "9")))
            ≡ ok (
                answer v
                  (record (new_interaction_required_error {M = Sample} read_digit none
                    (codes "9")) { message = codes "text" }))))
error_to_response-answers_example =
    error_to_response-answers sample_lib read_digit (codes "root") (codes "id") [] (at_version 9)
      none latest_macaroon none (codes "text") (codes "9") [] [] (some (codes "/a/b")) latest_run
