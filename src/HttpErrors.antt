-- ===== src/HttpErrors.antt =====
-- Errors as responses, and the protocol version of a request: httpbakery/error.go.
pub mod Answered
use macaroon_bakery.Prelude.{
  Bytes, ℕ, Bool, true, false, ◌||◌, Option, none, some, List, [], ◌∷◌, ltb, nat_beq, if◌then◌else◌,
  ◌==◌, bytes_eq, codes, Result, ok, err, ◌>>=◌, from_option, Map, lookup, insert,
}
use macaroon_bakery.Checkers.Caveat.{is_empty}
use macaroon_bakery.Bakery.Codec.Legacy.{Version, negative, at_version}
use macaroon_bakery.Bakery.Macaroon.{Macaroon, latest_version}
use macaroon_bakery.RelativeUrl.{UrlError, relative_url_path}

abbrev pub err_bad_request : Bytes
err_bad_request = codes "bad request"

abbrev pub err_discharge_required : Bytes
err_discharge_required = codes "macaroon discharge required"

abbrev pub err_interaction_required : Bytes
err_interaction_required = codes "interaction required"

abbrev pub err_permission_denied : Bytes
err_permission_denied = codes "permission denied"

-- `ErrorInfo`; a nil map is empty.
pub record ErrorInfo (M : Type 0) : Type 0 where
  pub macaroon : Option (Macaroon M)
  pub macaroon_path : Bytes
  pub cookie_name_suffix : Bytes
  pub interaction_methods : Map Bytes Bytes
  pub visit_url : Bytes
  pub wait_url : Bytes

-- `Error`
pub record HttpError (M : Type 0) : Type 0 where
  pub code : Bytes
  pub message : Bytes
  pub info : Option (ErrorInfo M)
  pub version : Version

-- What `errorResponseBody` sees of an error: its text, and whether its cause is an `*Error`, has an
-- error code, or has information.
pub record ErrorView (M : Type 0) : Type 0 where
  pub text : Bytes
  pub cause : Option (HttpError M)
  pub cause_code : Option Bytes
  pub cause_info : Option (Option (ErrorInfo M))

-- A status and a body; `authenticate` says that the header WWW-Authenticate is set.
pub record Response (M : Type 0) : Type 0 where
  pub status : ℕ
  pub body : HttpError M
  pub authenticate : Bool

pub data HttpFailure : Type 0 where
  version_panic not_interaction_required method_not_found : HttpFailure

abbrev pub code_or_none : Option Bytes → Bytes
code_or_none none = []
code_or_none (some code) = code

-- `RequestVersion`, with `strconv.Atoi`, on the header of the protocol's version.
unfoldable pub known_version : Option Version → Version
known_version none = at_version 0
known_version (some negative) = at_version 0
known_version (some (at_version v)) =
    at_version (if ltb latest_version v then latest_version else v)

unfoldable pub request_version : (Bytes → Option Version) → Bytes → Version
unfolding known_version
request_version atoi header = if is_empty header then at_version 0 else known_version (atoi header)

abbrev pub path_or_root : Result UrlError Bytes → Bytes
path_or_root (ok path) = path
path_or_root (err e) = codes "/"

-- The default cookie path of `NewDischargeRequiredError`, for the path of the request if there is
-- one.
unfoldable pub cookie_path : Bytes → Option Bytes → Bytes
unfolding relative_url_path
cookie_path [] none = codes "/"
cookie_path [] (some request_path) = path_or_root (relative_url_path request_path (codes "/"))
cookie_path (c ∷ path) request = c ∷ path

module _ {M : Type 0} where
  abbrev pub info_or_none : Option (Option (ErrorInfo M)) → Option (ErrorInfo M)
  info_or_none none = none
  info_or_none (some info) = info

  -- `errorResponseBody`
  unfoldable pub body_of : ErrorView M → Option (HttpError M) → HttpError M
  body_of v (some e) = record e { message = v.text }
  body_of v none = record {
    code = code_or_none v.cause_code;
    message = v.text;
    info = info_or_none v.cause_info;
    version = at_version 0;
  }

  unfoldable pub error_response_body : ErrorView M → HttpError M
  unfolding body_of
  error_response_body v = body_of v v.cause

  -- The inner `switch` of `ErrorToResponse`, on the version of the error.
  unfoldable pub version_response : HttpError M → Version → Result HttpFailure (Response M)
  version_response e negative = err version_panic
  version_response e (at_version v) =
      if nat_beq v 0
      then ok (record { status = 407; body = e; authenticate = false })
      else if ltb latest_version v
      then err version_panic
      else ok (record { status = 401; body = e; authenticate = true })

  unfoldable pub body_response : HttpError M → Result HttpFailure (Response M)
  unfolding version_response
  body_response e =
      if e.code == err_bad_request
      then ok (record { status = 400; body = e; authenticate = false })
      else if e.code == err_permission_denied
      then ok (record { status = 401; body = e; authenticate = false })
      else if e.code == err_discharge_required || e.code == err_interaction_required
      then version_response e e.version
      else ok (record { status = 500; body = e; authenticate = false })

  -- `ErrorToResponse`
  unfoldable pub error_to_response : ErrorView M → Result HttpFailure (Response M)
  unfolding body_response error_response_body
  error_to_response v = body_response (error_response_body v)

  -- `NewInteractionRequiredError`, with the text of the original error.
  unfoldable pub new_interaction_required_error :
      (Bytes → Option Version) → Option Bytes → Bytes → HttpError M
  unfolding request_version
  new_interaction_required_error atoi none header = record {
    code = err_interaction_required;
    message = err_interaction_required;
    info = none;
    version = request_version atoi header;
  }
  new_interaction_required_error atoi (some text) header = record {
    code = err_interaction_required;
    message = text;
    info = none;
    version = request_version atoi header;
  }

  -- `NewDischargeRequiredError`, with the text of the original error.
  unfoldable pub new_discharge_required_error :
      Macaroon M → Option Bytes → Bytes → Bytes → Option Bytes → HttpError M
  unfolding cookie_path
  new_discharge_required_error mac text path suffix request = record {
    code = err_discharge_required;
    message = elim text [ none ↦ err_discharge_required | some t ↦ t ];
    info = some (record {
      macaroon = some mac;
      macaroon_path = cookie_path path request;
      cookie_name_suffix = if is_empty suffix then codes "auth" else suffix;
      interaction_methods = [];
      visit_url = [];
      wait_url = [];
    });
    version = mac.version;
  }

  abbrev pub some_info : Option (ErrorInfo M) → ErrorInfo M
  some_info none = record {
    macaroon = none;
    macaroon_path = [];
    cookie_name_suffix = [];
    interaction_methods = [];
    visit_url = [];
    wait_url = [];
  }
  some_info (some info) = info

  -- `Error.SetInteraction`, with the JSON text of the value.
  unfoldable pub set_interaction : Bytes → Bytes → HttpError M → HttpError M
  set_interaction kind text e =
      let info = some_info e.info in
      record e {
        info =
            some (record info { interaction_methods = insert kind text info.interaction_methods });
      }

  -- `Error.InteractionMethod`: the JSON text that it unmarshals.
  unfoldable pub interaction_method : Bytes → HttpError M → Result HttpFailure Bytes
  interaction_method kind e = elim e.info [
    | none ↦ err not_interaction_required
    | some info ↦
        if e.code == err_interaction_required
        then from_option method_not_found (lookup kind info.interaction_methods)
        else err not_interaction_required
  ]
