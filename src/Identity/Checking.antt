-- ===== src/Identity/Checking.antt =====
-- The checker of bakery/identchecker/checker.go, which finds out who asks before it authorizes
-- operations with the checker of bakery/checker.go.
use macaroon_bakery.Prelude.{
  Bytes, ℕ, Bool, true, false, not, Option, none, some, List, [], ◌∷◌, nat_beq, ◌==◌, codes, Result,
  ok, err, Map, lookup, insert, map, replicate, length, if◌then◌else◌,
}
use macaroon_bakery.Checkers.Caveat.{Caveat}
use macaroon_bakery.Checkers.Macaroons.{MacaroonCaveat}
use macaroon_bakery.Checkers.Namespace.{Namespace}
use macaroon_bakery.Checkers.Declared.{infer_declared}
use macaroon_bakery.Auth.{
  Op, op_eq, no_op, get_at, VerifyError, AuthError, discharge_required, index_panic, AuthInfo,
  CheckerParams,
}
use macaroon_bakery.Auth.Allow.{allow}
use macaroon_bakery.Identity.{IdentityClient, Authorizer, no_identities, closed_authorizer}

-- `LoginOp`
abbrev pub login_op : Op
login_op = record { entity = codes "login"; action = codes "login" }

-- `CheckerParams`, less what is optional: see `new_params`. A slice is its macaroons.
pub record IdentityParams (M Identity Failure : Type 0) : Type 0 where
  pub verify_macaroon : List M → Result (VerifyError Failure) (List Op × List Bytes)
  pub check_first_party : List M → Bytes → Option Failure
  pub namespace : Option Namespace
  pub caveats_of : M → List MacaroonCaveat
  pub ops_authorizer :
      Option (Option (List M) → Op → List Op → Result Failure (List Bool × List Caveat))
  pub identity_client : IdentityClient Identity Failure
  pub authorizer : Authorizer Identity Failure

pub data IdentityError (Failure : Type 0) : Type 0 where
  no_identity_inferred : Failure → IdentityError Failure
  no_declared_identity identity_panic : IdentityError Failure
  context_denied : Failure → IdentityError Failure
  login_denied : Option (AuthError Failure) → IdentityError Failure
  needs_discharge : List Op → List Caveat → IdentityError Failure
  needs_login : List Caveat → IdentityError Failure

-- `AuthInfo`, with the identity.
pub record LoginInfo (Slice Identity : Type 0) : Type 0 where
  pub info : AuthInfo Slice
  pub identity : Option Identity

-- `loginInfo`, `identity`, `identityCaveats` and `loginErr` of `Allow`.
pub record Login (M Identity Failure : Type 0) : Type 0 where
  pub info : AuthInfo (List M)
  pub identity : Option Identity
  pub caveats : List Caveat
  pub error : Option (AuthError Failure)

-- The defaults of `NewChecker`: the identity client and the authorizer.
unfoldable pub or_no_identities :
    {Identity Failure : Type 0}
    → Failure
    → Option (IdentityClient Identity Failure)
    → IdentityClient Identity Failure
unfolding no_identities
or_no_identities e none = no_identities e
or_no_identities e (some client) = client

unfoldable pub or_closed :
    {Identity Failure : Type 0} → Option (Authorizer Identity Failure) → Authorizer Identity Failure
unfolding closed_authorizer
or_closed none = closed_authorizer
or_closed (some authorizer) = authorizer

-- The operations other than `LoginOp`.
unfoldable pub without_login : List Op → List Op
without_login [] = []
without_login (op ∷ ops) =
    let rest = without_login ops in if not (op == login_op) then op ∷ rest else rest

-- `loginInfo.OpIndexes[LoginOp]`
unfoldable pub login_index : Map Op ℕ → ℕ
login_index m = elim (lookup login_op m) [ none ↦ 0 | some i ↦ i ]

-- The loop that marks what the login used. An index beyond `opInfo.Used` panics.
unfoldable pub merge_used : List Bool → List Bool → Option (List Bool)
merge_used [] used = some used
merge_used (false ∷ login) [] = merge_used login []
merge_used (true ∷ login) [] = none
merge_used (b ∷ login) (u ∷ used) = elim (merge_used login used) [
  | none ↦ none
  | some rest ↦ some ((if b then true else u) ∷ rest)
]

module _ {M Identity Failure : Type 0} (p : IdentityParams M Identity Failure) where
  -- `identityOpsAuthorizer.AuthorizeOps`, with the identity that the context has if it has one.
  unfoldable pub authorize_ops :
      Option (Option Identity)
      → Option (List M)
      → Op
      → List Op
      → Result Failure (List Bool × List Caveat)
  authorize_ops none ms op query = ok ([], [])
  authorize_ops (some id) ms op query =
      if not (op == no_op)
      then elim p.ops_authorizer [ none ↦ ok ([], []) | some f ↦ f ms op query ]
      else p.authorizer id query

  -- The checker of the package bakery, in a context with or without an identity.
  unfoldable pub bakery_params : Option (Option Identity) → CheckerParams (List M) Failure
  unfolding authorize_ops
  bakery_params ctx = record {
    verify_macaroon = p.verify_macaroon;
    check_first_party = p.check_first_party;
    authorize_ops = some (authorize_ops ctx);
  }

  -- What an inference returns, and `identity_` after it.
  abbrev pub Inferred : Type 0 → Type 0
  Inferred A = Result (IdentityError Failure) A × Option Identity

  unfoldable pub declared_result : Result Failure (Option Identity) → Inferred Identity
  declared_result (err e) = (err (no_identity_inferred e), none)
  declared_result (ok none) = (err no_declared_identity, none)
  declared_result (ok (some id)) = (ok id, some id)

  -- `inferIdentityFromMacaroon`
  unfoldable pub infer_identity_from_macaroon : Option Identity → List M → Inferred Identity
  unfolding declared_result
  infer_identity_from_macaroon (some id) ms = (ok id, some id)
  infer_identity_from_macaroon none ms =
      declared_result
        (p.identity_client.declared_identity (infer_declared p.caveats_of p.namespace ms))

  unfoldable pub context_result :
      Result Failure (Option Identity × List Caveat) → Inferred (Option Identity × List Caveat)
  context_result (err e) = (err (context_denied e), none)
  context_result (ok (id, c ∷ cs)) = (ok (none, c ∷ cs), none)
  context_result (ok (id, [])) = (ok (id, []), id)

  -- `inferIdentityFromContext`
  unfoldable pub infer_identity_from_context :
      Option Identity → Inferred (Option Identity × List Caveat)
  unfolding context_result
  infer_identity_from_context (some id) = (ok (some id, []), some id)
  infer_identity_from_context none = context_result p.identity_client.identity_from_context

  abbrev pub from_macaroon :
      AuthInfo (List M) → Inferred Identity → Inferred (Login M Identity Failure)
  from_macaroon info (err e, s) = (err e, s)
  from_macaroon info (ok id, s) =
      (ok (record { info = info; identity = some id; caveats = []; error = none }), s)

  abbrev pub no_info : List (List M) → AuthInfo (List M)
  no_info mss = record { macaroons = mss; used = replicate (length mss) false; op_indexes = [] }

  abbrev pub from_context :
      List (List M)
      → AuthError Failure
      → Inferred (Option Identity × List Caveat)
      → Inferred (Login M Identity Failure)
  from_context mss e (err e', s) = (err e', s)
  from_context mss e (ok (id, cavs), s) =
      (ok (record { info = no_info mss; identity = id; caveats = cavs; error = some e }), s)

  unfoldable pub login_slice :
      Option Identity → AuthInfo (List M) → Option (List M) → Inferred (Login M Identity Failure)
  unfolding infer_identity_from_macaroon
  login_slice s info none = (err identity_panic, s)
  login_slice s info (some ms) = from_macaroon info (infer_identity_from_macaroon s ms)

  -- The first part of `Allow`, which finds the identity, from the answer for `LoginOp`.
  unfoldable pub find_login :
      Option Identity
      → List (List M)
      → Result (AuthError Failure) (AuthInfo (List M))
      → Inferred (Login M Identity Failure)
  unfolding login_slice infer_identity_from_context
  find_login s mss (ok info) =
      login_slice s info (get_at none (login_index info.op_indexes) (map some info.macaroons))
  find_login s mss (err index_panic) = (err identity_panic, s)
  find_login s mss (err e) = from_context mss e (infer_identity_from_context s)

  -- The end of `Allow`, where the operations are not authorized.
  unfoldable pub refuse :
      Login M Identity Failure → Option Identity → List Caveat → IdentityError Failure
  refuse login (some id) cavs = login_denied login.error
  refuse login none [] = login_denied login.error
  refuse login none (c ∷ cs) = needs_login (c ∷ cs)

  unfoldable pub with_used :
      AuthInfo (List M)
      → ℕ
      → Option Identity
      → Option (List Bool)
      → Result (IdentityError Failure) (LoginInfo (List M) Identity)
  with_used info i id none = err identity_panic
  with_used info i id (some used) = ok (record {
    info = record info { used = used; op_indexes = insert login_op i info.op_indexes };
    identity = id;
  })

  -- What is allowed, with what the login used.
  unfoldable pub merge_login :
      Login M Identity Failure
      → Option (AuthError Failure)
      → AuthInfo (List M)
      → Result (IdentityError Failure) (LoginInfo (List M) Identity)
  unfolding merge_used login_index with_used
  merge_login login none info =
      with_used info (login_index login.info.op_indexes) login.identity
        (merge_used login.info.used info.used)
  merge_login login (some e) info = ok (record { info = info; identity = login.identity })

  unfoldable pub after_allow :
      Login M Identity Failure
      → Result (AuthError Failure) (AuthInfo (List M))
      → Result (IdentityError Failure) (LoginInfo (List M) Identity)
  unfolding merge_login refuse
  after_allow login (ok info) = merge_login login login.error info
  after_allow login (err (discharge_required ops cavs)) = err (needs_discharge ops cavs)
  after_allow login (err index_panic) = err identity_panic
  after_allow login (err e) = err (refuse login login.identity login.caveats)

  -- `Allow` behind the login: for the operations, those other than `LoginOp`, and the identity.
  unfoldable pub allow_as :
      List (List M)
      → List Op
      → List Op
      → Login M Identity Failure
      → Option Identity
      → Result (IdentityError Failure) (LoginInfo (List M) Identity)
  unfolding after_allow bakery_params
  allow_as mss ops [] login (some id) = ok (record { info = login.info; identity = some id })
  allow_as mss ops [] login none = err (refuse login none login.caveats)
  allow_as mss ops (op ∷ need) login (some id) =
      after_allow login (allow (bakery_params (some (some id))) mss (op ∷ need))
  allow_as mss ops (op ∷ need) login none =
      if nat_beq (length (op ∷ need)) (length ops)
      then after_allow login (allow (bakery_params (some none)) mss (op ∷ need))
      else err (refuse login none login.caveats)

  unfoldable pub allowed_by :
      List (List M)
      → List Op
      → Inferred (Login M Identity Failure)
      → Inferred (LoginInfo (List M) Identity)
  unfolding allow_as without_login
  allowed_by mss ops (err e, s) = (err e, s)
  allowed_by mss ops (ok login, s) = (allow_as mss ops (without_login ops) login login.identity, s)

  -- `Allow`, with `identity_`.
  unfoldable pub identity_allow :
      Option Identity → List (List M) → List Op → Inferred (LoginInfo (List M) Identity)
  unfolding find_login allowed_by
  identity_allow s mss ops =
      allowed_by mss ops (find_login s mss (allow (bakery_params none) mss (login_op ∷ [])))
