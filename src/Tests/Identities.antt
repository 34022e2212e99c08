-- ===== src/Tests/Identities.antt =====
-- The identity checker and relative paths on small inputs.
use macaroon_bakery.Prelude.{
  Bytes, ◌≡◌, ◌⊎◌, refl, true, bytes_beq, none, some, List, [], ◌∷◌, codes, ok, lookup, All,
}
use macaroon_bakery.Checkers.Caveat.{is_empty}
use macaroon_bakery.Strings.Split.{split, join}
use macaroon_bakery.Auth.{Op, AuthInfo, indexes_of, ops_of}
use macaroon_bakery.Auth.Allow.{allow}
use macaroon_bakery.Bakery.Ops.{has_op}
use macaroon_bakery.Identity.{no_identities, open_authorizer}
use macaroon_bakery.Identity.Checking.{
  login_op, IdentityParams, LoginInfo, without_login, bakery_params, identity_allow,
}
use macaroon_bakery.Identity.Logins.{identity_allow-IsGranted}
use macaroon_bakery.RelativeUrl.{slash, init_parts, last_part, relative_url_path, strip_common}
use macaroon_bakery.RelativeUrl.Reference.{resolve_path}
use macaroon_bakery.RelativeUrl.Parts.{IsNoDots, IsPlain}
use macaroon_bakery.RelativeUrl.Resolved.{segments_of, resolve_path-relative_url_path}

-- Anyone with an identity may do anything; there are no macaroons.
abbrev open_params : IdentityParams Unit Bytes Unit
open_params = record {
  verify_macaroon = λ ms. ok ([], []);
  check_first_party = λ ms cond. none;
  namespace = none;
  caveats_of = λ m. [];
  ops_authorizer = none;
  identity_client = no_identities tt;
  authorizer = open_authorizer;
}

abbrev read_a : Op
read_a = record { entity = codes "a"; action = codes "read" }

abbrev bob_info : LoginInfo (List Unit) Bytes
bob_info = record {
  info = record { macaroons = []; used = []; op_indexes = [] };
  identity = some (codes "bob");
}

bob_run :
    identity_allow open_params (some (codes "bob")) [] (read_a ∷ [])
    ≡ (ok bob_info, some (codes "bob"))
unfolding identity_allow allow bytes_beq indexes_of lookup open_authorizer ops_of
bob_run = refl

identity_allow-IsGranted_example :
    (has_op (read_a ∷ []) login_op ≡ true → (i : Bytes) × (bob_info.identity ≡ some i))
    × (((without_login (read_a ∷ []) ≡ []) × ((i : Bytes) × (bob_info.identity ≡ some i)))
        ⊎ ((granted : AuthInfo (List Unit)) × (allow
                (bakery_params open_params (some bob_info.identity))
                []
                (without_login (read_a ∷ []))
              ≡ ok granted)))
identity_allow-IsGranted_example =
    identity_allow-IsGranted open_params (some (codes "bob")) (some (codes "bob")) [] (read_a ∷ [])
      bob_info bob_run

base_NoDots : All IsNoDots (segments_of (codes "a/b"))
unfolding split init_parts bytes_beq
base_NoDots = ((refl, refl), tt)

target_Plain : All IsPlain (segments_of (codes "c/d/e"))
unfolding split init_parts is_empty bytes_beq
target_Plain = ((refl, (refl, refl)), ((refl, (refl, refl)), tt))

last_NoDots : IsNoDots (last_part (split slash (codes "c/d/e")))
unfolding split last_part bytes_beq
last_NoDots = (refl, refl)

resolve_path-relative_url_path_example :
    (path : Bytes) × (relative_url_path (codes "/a/b") (codes "/c/d/e") ≡ ok path)
    × (resolve_path (codes "/a/b") path ≡ codes "/c/d/e")
resolve_path-relative_url_path_example =
    resolve_path-relative_url_path (codes "a/b") (codes "c/d/e") base_NoDots target_Plain
      last_NoDots

up_run : relative_url_path (codes "/a/b") (codes "/c/d/e") ≡ ok (codes "../c/d/e")
unfolding relative_url_path split join init_parts last_part strip_common is_empty bytes_beq
up_run = refl
