-- ===== src/HttpErrors/Answered.antt =====
-- The errors that httpbakery/error.go makes are answered without a panic.
use macaroon_bakery.Prelude.{
  Bytes, ℕ, ◌≤◌, ◌≡◌, ◌⊎◌, ◌∙◌, refl, sym, ap, false, not, Option, none, some, ltb, nat_beq,
  if◌then◌else◌, bytes_eq, bytes_beq, Result, ok, err, >>=-eq-ok, from_option, arith, Bool-cases,
  inl, inr,
}
use macaroon_bakery.Checkers.Caveat.{is_empty}
use macaroon_bakery.Checkers.Namespace.{Namespace}
use macaroon_bakery.Bakery.Codec.Legacy.{Version, negative, at_version}
use macaroon_bakery.Bakery.Macaroon.{
  MacaroonLib, library_failed, Macaroon, latest_version, macaroon_version, capped_version,
  new_macaroon,
}
use macaroon_bakery.Bakery.Macaroon.Added.{ok-injective}
use macaroon_bakery.HttpErrors.{
  err_discharge_required, err_interaction_required, HttpError, HttpFailure, version_panic,
  ErrorView, Response, request_version, known_version, version_response, body_response,
  error_to_response, error_response_body, body_of, new_interaction_required_error,
  new_discharge_required_error,
}

-- A version that is known.
abbrev IsKnown : Version → Type 0
IsKnown version = (v : ℕ) × (version ≡ at_version v) × (v ≤ latest_version)

known_version-IsKnown : (o : Option Version) → IsKnown (known_version o)
unfolding known_version
known_version-IsKnown none = (0, refl, omega arith)
known_version-IsKnown (some negative) = (0, refl, omega arith)
known_version-IsKnown (some (at_version v)) =
    ((if ltb latest_version v then latest_version else v), refl, ground arith)

request_version-IsKnown :
    (atoi : Bytes → Option Version) (header : Bytes) → IsKnown (request_version atoi header)
unfolding request_version
request_version-IsKnown atoi header = elim (Bool-cases (is_empty header)) [
  | inl empty ↦ rw empty (0, refl, omega arith)
  | inr full ↦ rw full (known_version-IsKnown (atoi header))
]

new_macaroon-version :
    {M : Type 0} (lib : MacaroonLib M) (root_key id location : Bytes) (version : Version)
    (ns : Option Namespace) (mac : Macaroon M)
    → new_macaroon lib root_key id location version ns ≡ ok mac
    → mac.version ≡ capped_version version
unfolding new_macaroon
new_macaroon-version lib root_key id location version ns mac h =
    let v = capped_version version in
    let (m, made, done) =
      >>=-eq-ok (from_option library_failed (lib.new_m root_key id location (macaroon_version v))) _
        h in
    ap (λ x. x.version) (sym (ok-injective _ mac done))

module _ {M : Type 0} where
  -- The response in a version of the protocol: 407, or 401 with the header.
  abbrev pub answer : ℕ → HttpError M → Response M
  answer v e = record {
    status = if nat_beq v 0 then 407 else 401;
    body = e;
    authenticate = not (nat_beq v 0);
  }

  -- What comes of an error for a macaroon that was made for a version.
  abbrev pub outcome : Version → HttpError M → Result HttpFailure (Response M)
  outcome negative e = err version_panic
  outcome (at_version v) e = ok (answer v e)

  version_response-known :
      (e : HttpError M) (v : ℕ)
      → v ≤ latest_version
      → version_response e (at_version v) ≡ ok (answer v e)
  unfolding version_response
  version_response-known e v h = elim (Bool-cases (nat_beq v 0)) [
    | inl old ↦ rw old refl
    | inr new ↦ let known : ltb latest_version v ≡ false = ground arith in rw (new, known) refl
  ]

  version_response-capped :
      (e : HttpError M) (version : Version)
      → version_response e (capped_version version) ≡ outcome version e
  unfolding capped_version
  version_response-capped e negative = unfold version_response in refl
  version_response-capped e (at_version v) = elim (Bool-cases (ltb latest_version v)) [
    | inl later ↦
        let new : nat_beq v 0 ≡ false = ground arith in
        rw later (rw new (version_response-known e latest_version (omega arith)))
    | inr known ↦ rw known (version_response-known e v (ground arith))
  ]

  versioned_response :
      (e : HttpError M)
      → (e.code ≡ err_discharge_required) ⊎ (e.code ≡ err_interaction_required)
      → body_response e ≡ version_response e e.version
  unfolding body_response bytes_beq
  versioned_response e (inl h) = rw h refl
  versioned_response e (inr h) = rw h refl

  -- The view of an error whose cause is an `*Error`.
  abbrev pub view_of : Bytes → HttpError M → ErrorView M
  view_of text e = record { text = text; cause = some e; cause_code = none; cause_info = none }

  error_to_response-versioned :
      (text : Bytes) (e : HttpError M)
      → (e.code ≡ err_discharge_required) ⊎ (e.code ≡ err_interaction_required)
      → error_to_response (view_of text e)
        ≡ version_response (record e { message = text }) e.version
  unfolding error_to_response error_response_body body_of
  error_to_response-versioned text e code = versioned_response (record e { message = text }) code

  error_to_response-interaction :
      (atoi : Bytes → Option Version) (original : Option Bytes) (text header : Bytes) (v : ℕ)
      → request_version atoi header ≡ at_version v
      → v ≤ latest_version
      → error_to_response (view_of text (new_interaction_required_error atoi original header))
        ≡ ok (
            answer v (record (new_interaction_required_error {M = M} atoi original header) {
              message = text;
            }))
  unfolding new_interaction_required_error
  error_to_response-interaction atoi none text header v same known =
      let e = new_interaction_required_error {M = M} atoi none header in
      error_to_response-versioned text e (inr refl)
      ∙ ap (version_response (record e { message = text })) same
      ∙ version_response-known (record e { message = text }) v known
  error_to_response-interaction atoi (some t) text header v same known =
      let e = new_interaction_required_error {M = M} atoi (some t) header in
      error_to_response-versioned text e (inr refl)
      ∙ ap (version_response (record e { message = text })) same
      ∙ version_response-known (record e { message = text }) v known

  error_to_response-discharge :
      (mac : Macaroon M) (version : Version) (original : Option Bytes) (text path suffix : Bytes)
      (request_path : Option Bytes)
      → mac.version ≡ capped_version version
      → error_to_response
          (view_of text (new_discharge_required_error mac original path suffix request_path))
        ≡ outcome version
            (record (new_discharge_required_error mac original path suffix request_path) {
              message = text;
            })
  unfolding new_discharge_required_error
  error_to_response-discharge mac version original text path suffix request_path same =
      let e = new_discharge_required_error mac original path suffix request_path in
      error_to_response-versioned text e (inl refl)
      ∙ ap (version_response (record e { message = text })) same
      ∙ version_response-capped (record e { message = text }) version

  -- `ErrorToResponse` does not panic on what `NewDischargeRequiredError` makes for a macaroon
  -- that `NewMacaroon` returned for any version that is not negative, nor on what
  -- `NewInteractionRequiredError` makes for any version in the request: the status is 407 for
  -- version 0, and 401 with the header WWW-Authenticate for the others, and the body is that
  -- error with the text of the error answered. It panics on what `NewDischargeRequiredError`
  -- makes for a macaroon that `NewMacaroon` returned for a negative version.
  pub error_to_response-answers :
      (lib : MacaroonLib M) (atoi : Bytes → Option Version) (root_key id location : Bytes)
      (version : Version) (ns : Option Namespace) (mac : Macaroon M) (original : Option Bytes)
      (text header path suffix : Bytes) (request_path : Option Bytes)
      → new_macaroon lib root_key id location version ns ≡ ok mac
      → (error_to_response
            (view_of text (new_discharge_required_error mac original path suffix request_path))
          ≡ outcome version
              (record (new_discharge_required_error mac original path suffix request_path) {
                message = text;
              }))
        × ((v : ℕ) × (request_version atoi header ≡ at_version v)
            × (error_to_response
                  (view_of text (new_interaction_required_error atoi original header))
                ≡ ok (
                    answer v (record (new_interaction_required_error {M = M} atoi original header) {
                      message = text;
                    }))))
  error_to_response-answers lib atoi root_key id location version ns mac original text header path
        suffix request_path h =
      let (v, same, known) = request_version-IsKnown atoi header in
      (
        error_to_response-discharge mac version original text path suffix request_path
            (new_macaroon-version lib root_key id location version ns mac h),
        (v, same, error_to_response-interaction atoi original text header v same known),
      )
