-- ===== src/Identity.antt =====
-- Identities and the authorizers over them: bakery/identchecker/identity.go and
-- bakery/identchecker/authorizer.go.
pub mod Checking
pub mod Logins
use macaroon_bakery.Prelude.{
  Bytes, Bool, true, false, ◌&&◌, Option, none, some, List, [], ◌∷◌, ◌++◌, ◌==◌, bytes_eq, codes,
  Result, ok, err, ◌>>=◌, Map, replicate, length, if◌then◌else◌,
}
use macaroon_bakery.Checkers.Caveat.{Caveat}
use macaroon_bakery.Auth.{Op}

-- `IdentityClient`, in the context of the request; a nil identity is `none`.
pub record IdentityClient (Identity Failure : Type 0) : Type 0 where
  pub identity_from_context : Result Failure (Option Identity × List Caveat)
  pub declared_identity : Map Bytes Bytes → Result Failure (Option Identity)

-- `Authorizer`
abbrev pub Authorizer : Type 0 → Type 0 → Type 0
Authorizer Identity Failure = Option Identity → List Op → Result Failure (List Bool × List Caveat)

-- `SimpleIdentity.Allow`, and the loop of `isPublicACL`.
unfoldable pub simple_allow : Bytes → List Bytes → Bool
simple_allow id [] = false
simple_allow id (g ∷ acl) = let rest = simple_allow id acl in if id == g then true else rest

abbrev pub everyone : Bytes
everyone = codes "everyone"

unfoldable pub is_public_acl : List Bytes → Bool
is_public_acl [] = false
is_public_acl (g ∷ acl) = let rest = is_public_acl acl in if g == everyone then true else rest

module _ {Identity Failure : Type 0} where
  -- `noIdentities`, with the error that it returns.
  unfoldable pub no_identities : Failure → IdentityClient Identity Failure
  no_identities e = record {
    identity_from_context = ok (none, []);
    declared_identity = λ declared. err e;
  }

  -- `OpenAuthorizer`
  unfoldable pub open_authorizer : Authorizer Identity Failure
  open_authorizer id ops = ok (replicate (length ops) true, [])

  -- `ClosedAuthorizer`
  unfoldable pub closed_authorizer : Authorizer Identity Failure
  closed_authorizer id ops = ok (replicate (length ops) false, [])

  -- `AuthorizerFunc.Authorize`
  unfoldable pub authorize_by :
      (Option Identity → Op → Result Failure (Bool × List Caveat)) → Authorizer Identity Failure
  authorize_by f id [] = ok ([], [])
  authorize_by f id (op ∷ ops) = do
    (allowed, caveats) ← f id op
    (more, others) ← authorize_by f id ops
    ok (allowed ∷ more, caveats ++ others)

  -- `ACLAuthorizer` has what gives the ACL of an operation. `allow_acl` is the method of an
  -- identity that is an `ACLIdentity`.
  module _ (get_acl : Op → Result Failure (List Bytes × Bool))
      (allow_acl : Identity → Option (List Bytes → Result Failure Bool)) where
    -- `ident1`
    unfoldable pub acl_identity : Option Identity → Option (List Bytes → Result Failure Bool)
    acl_identity none = none
    acl_identity (some id) = allow_acl id

    unfoldable pub allow_entry :
        Option (List Bytes → Result Failure Bool) → List Bytes × Bool → Result Failure Bool
    unfolding is_public_acl
    allow_entry (some allow) (acl, allow_public) = allow acl
    allow_entry none (acl, allow_public) = ok (allow_public && is_public_acl acl)

    unfoldable pub acl_loop :
        Option (List Bytes → Result Failure Bool) → List Op → Result Failure (List Bool)
    unfolding allow_entry
    acl_loop id [] = ok []
    acl_loop id (op ∷ ops) = do
      entry ← get_acl op
      allowed ← allow_entry id entry
      more ← acl_loop id ops
      ok (allowed ∷ more)

    -- `ACLAuthorizer.Authorize`
    unfoldable pub acl_authorizer : Authorizer Identity Failure
    unfolding acl_loop acl_identity
    acl_authorizer id ops = do allowed ← acl_loop (acl_identity id) ops; ok (allowed, [])
