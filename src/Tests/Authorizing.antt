-- ===== src/Tests/Authorizing.antt =====
-- The authorization checker of bakery/checker.go on small inputs.
use macaroon_bakery.Prelude.{
  Bytes, codes, zero, suc, ◌≡◌, ◌↔◌, refl, true, Option, none, some, List, [], ◌∷◌, All, ok, err,
  Result, lookup, insert, bytes_beq,
}
use macaroon_bakery.Auth.{
  Op, no_op, ops_of, add_indexes, indexes_of, VerifyError, verification_error, Verified, AuthInfo,
  CheckerParams, check_direct,
}
use macaroon_bakery.Auth.Allow.{
  allow, init_checker, init_loop, init_step, new_allow_context, check_conditions,
}
use macaroon_bakery.Auth.Granting.{some_grants, grants, includes}
use macaroon_bakery.Auth.Decision.{is_granted, refused, check_direct-refused, allow_iff}

abbrev read_op : Op
read_op = record { entity = codes "path-a"; action = codes "read" }

abbrev write_op : Op
write_op = record { entity = codes "path-a"; action = codes "write" }

-- Three macaroons: one for reading, one for writing whose condition fails, and one that does not
-- verify.
abbrev verify : Bytes → Result (VerifyError Bytes) (List Op × List Bytes)
verify [] = err (verification_error (codes "bad signature"))
verify (zero ∷ ms) = ok (read_op ∷ [], codes "fine" ∷ [])
verify (suc n ∷ ms) = ok (write_op ∷ [], codes "expired" ∷ [])

abbrev check_cond : Bytes → Bytes → Option Bytes
check_cond (zero ∷ ms) cond = none
check_cond ms cond = some cond

abbrev params : CheckerParams Bytes Bytes
params = record { verify_macaroon = verify; check_first_party = check_cond; authorize_ops = none }

abbrev slices : List Bytes
slices = [] ∷ (0 ∷ []) ∷ (1 ∷ []) ∷ []

abbrev verified : Verified Bytes
verified = record {
  conditions = [] ∷ (codes "fine" ∷ []) ∷ (codes "expired" ∷ []) ∷ [];
  init_errors = codes "bad signature" ∷ [];
  auth_indexes = (read_op, 1 ∷ []) ∷ (write_op, 2 ∷ []) ∷ [];
}

slices-verified : init_checker params slices ≡ ok verified
unfolding init_checker init_loop init_step add_indexes indexes_of lookup insert bytes_beq
slices-verified = refl

check_direct-refused_example :
    ops_of
      (check_direct verified.auth_indexes
        (new_allow_context params slices verified (read_op ∷ write_op ∷ no_op ∷ []))).need
    ≡ refused params slices (read_op ∷ write_op ∷ no_op ∷ [])
check_direct-refused_example =
    check_direct-refused params slices (read_op ∷ write_op ∷ no_op ∷ []) verified slices-verified

write_refused : refused params slices (read_op ∷ write_op ∷ no_op ∷ []) ≡ write_op ∷ []
unfolding refused is_granted some_grants grants includes check_conditions bytes_beq
write_refused = refl

allow_iff_example :
    ((info : AuthInfo Bytes) × (allow params slices (read_op ∷ []) ≡ ok info))
    ↔ All (λ op. is_granted params slices op ≡ true) (read_op ∷ [])
allow_iff_example = allow_iff params slices (read_op ∷ []) refl verified slices-verified
