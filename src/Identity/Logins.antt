-- ===== src/Identity/Logins.antt =====
-- What `Allow` of bakery/identchecker/checker.go grants, and to whom.
use macaroon_bakery.Prelude.{
  ℕ, ◌≡◌, refl, ◌∙◌, sym, ap, Bool, true, Option, none, some, List, [], ◌∷◌, nat_beq, ◌≤◌, ◌<◌, ◌⊎◌,
  inl, inr, length, Result, ok, err, arith, Bool-cases,
}
use macaroon_bakery.Auth.{
  Op, op_eq, AuthInfo, AuthError, cannot_retrieve, authorizer_failed, permission_denied,
  discharge_required, index_panic,
}
use macaroon_bakery.Auth.Allow.{allow}
use macaroon_bakery.Bakery.Ops.{has_op}
use macaroon_bakery.Identity.Checking.{
  login_op, IdentityParams, IdentityError, LoginInfo, Login, without_login, bakery_params, allow_as,
  allowed_by, after_allow, merge_login, with_used, identity_allow,
}

length-without_login : (ops : List Op) → length (without_login ops) ≤ length ops
unfolding without_login
length-without_login [] = omega arith
length-without_login (op ∷ ops) = ground (arith, length-without_login ops)

without_login-shorter :
    (ops : List Op) → has_op ops login_op ≡ true → length (without_login ops) < length ops
unfolding without_login has_op
without_login-shorter [] h = absurd (cc)
without_login-shorter (op ∷ ops) h =
    ground (arith, without_login-shorter ops, length-without_login ops)

module _ {M Identity Failure : Type 0} (p : IdentityParams M Identity Failure) where
  -- What a success of `Allow` rests on.
  abbrev IsGranted : List (List M) → List Op → Option Identity → Type 0
  IsGranted mss ops id =
      (has_op ops login_op ≡ true → (i : Identity) × (id ≡ some i))
      × (((without_login ops ≡ []) × ((i : Identity) × (id ≡ some i)))
          ⊎ ((granted : AuthInfo (List M)) × (allow (bakery_params p (some id)) mss
                  (without_login ops)
                ≡ ok granted)))

  ok-inj :
      (a b : LoginInfo (List M) Identity)
      → ◌≡◌ {A = Result (IdentityError Failure) (LoginInfo (List M) Identity)} (ok a) (ok b)
      → a ≡ b
  ok-inj a b h = ground arith

  with_used-ok :
      (granted : AuthInfo (List M)) (i : ℕ) (id : Option Identity) (o : Option (List Bool))
      (info : LoginInfo (List M) Identity)
      → with_used p granted i id o ≡ ok info
      → info.identity ≡ id
  unfolding with_used
  with_used-ok granted i id none info h = absurd (cc)
  with_used-ok granted i id (some used) info h =
      ap (λ (x : LoginInfo (List M) Identity). x.identity) (sym (ok-inj _ info h))

  merge_login-ok :
      (login : Login M Identity Failure) (e : Option (AuthError Failure))
      (granted : AuthInfo (List M)) (info : LoginInfo (List M) Identity)
      → merge_login p login e granted ≡ ok info
      → info.identity ≡ login.identity
  unfolding merge_login
  merge_login-ok login none granted info h = with_used-ok granted _ login.identity _ info h
  merge_login-ok login (some e) granted info h =
      ap (λ (x : LoginInfo (List M) Identity). x.identity) (sym (ok-inj _ info h))

  after_allow-ok :
      (login : Login M Identity Failure) (r : Result (AuthError Failure) (AuthInfo (List M)))
      (info : LoginInfo (List M) Identity)
      → after_allow p login r ≡ ok info
      → ((granted : AuthInfo (List M)) × (r ≡ ok granted)) × (info.identity ≡ login.identity)
  unfolding after_allow
  after_allow-ok login (ok granted) info h =
      ((granted, refl), merge_login-ok login login.error granted info h)
  after_allow-ok login (err (discharge_required ops cavs)) info h = absurd (cc)
  after_allow-ok login (err (cannot_retrieve e)) info h = absurd (cc)
  after_allow-ok login (err (authorizer_failed e)) info h = absurd (cc)
  after_allow-ok login (err (permission_denied e)) info h = absurd (cc)
  after_allow-ok login (err index_panic) info h = absurd (cc)

  -- The operations asked for, those other than `LoginOp`, and the identity.
  allow_as-IsGranted :
      (mss : List (List M)) (ops need : List Op) (login : Login M Identity Failure)
      (id : Option Identity) (info : LoginInfo (List M) Identity)
      → login.identity ≡ id
      → (has_op ops login_op ≡ true → length need < length ops)
      → allow_as p mss ops need login id ≡ ok info
      → (has_op ops login_op ≡ true → (i : Identity) × (info.identity ≡ some i))
        × (((need ≡ []) × ((i : Identity) × (info.identity ≡ some i)))
            ⊎ ((granted : AuthInfo (List M)) × (allow
                    (bakery_params p (some info.identity))
                    mss
                    need
                  ≡ ok granted)))
  unfolding allow_as
  allow_as-IsGranted mss ops [] login none info e shorter h = absurd (cc)
  allow_as-IsGranted mss ops [] login (some id) info e shorter h =
      let known : info.identity ≡ some id =
        ap (λ (x : LoginInfo (List M) Identity). x.identity) (sym (ok-inj _ info h)) in
      (λ asks. (id, known), inl (refl, (id, known)))
  allow_as-IsGranted mss ops (op ∷ need) login (some id) info e shorter h =
      let ((granted, allowed), same) = after_allow-ok login _ info h in
      let known : info.identity ≡ some id = same ∙ e in
      (
        λ asks. (id, known),
        inr (granted, ap (λ x. allow (bakery_params p (some x)) mss (op ∷ need)) known ∙ allowed),
      )
  allow_as-IsGranted mss ops (op ∷ need) login none info e shorter h =
      elim (Bool-cases (nat_beq (length (op ∷ need)) (length ops))) [
        | inr fewer ↦ absurd (ground arith)
        | inl as_many ↦
            let ((granted, allowed), same) = after_allow-ok login _ info (rw as_many at h) in
            let known : info.identity ≡ none = same ∙ e in
            (
              λ asks. absurd (ground (arith, shorter asks)),
              inr (
                granted,
                ap (λ x. allow (bakery_params p (some x)) mss (op ∷ need)) known ∙ allowed,
              ),
            )
      ]

  allowed_by-IsGranted :
      (mss : List (List M)) (ops : List Op)
      (r : Result (IdentityError Failure) (Login M Identity Failure) × Option Identity)
      (info : LoginInfo (List M) Identity) (s' : Option Identity)
      → allowed_by p mss ops r ≡ (ok info, s')
      → IsGranted mss ops info.identity
  unfolding allowed_by
  allowed_by-IsGranted mss ops (err e, s) info s' h = absurd (cc)
  allowed_by-IsGranted mss ops (ok login, s) info s' h =
      allow_as-IsGranted mss ops (without_login ops) login login.identity info refl
        (without_login-shorter ops) (ap (λ x. x.0) h)

  -- Where `Allow` of the identity checker succeeds, an identity was found if `LoginOp` is among
  -- the operations, and either no other operation was asked for and an identity was found, or the
  -- checker of the package bakery allowed the other operations, in the context of the identity
  -- that is returned.
  pub identity_allow-IsGranted :
      (s s' : Option Identity) (mss : List (List M)) (ops : List Op)
      (info : LoginInfo (List M) Identity)
      → identity_allow p s mss ops ≡ (ok info, s')
      → (has_op ops login_op ≡ true → (i : Identity) × (info.identity ≡ some i))
        × (((without_login ops ≡ []) × ((i : Identity) × (info.identity ≡ some i)))
            ⊎ ((granted : AuthInfo (List M)) × (allow
                    (bakery_params p (some info.identity))
                    mss
                    (without_login ops)
                  ≡ ok granted)))
  unfolding identity_allow
  identity_allow-IsGranted s s' mss ops info h = allowed_by-IsGranted mss ops _ info s' h
