-- ===== src/Auth/Login/Tenantless.antt =====
-- Sign-ins of accounts without a tenant in their metadata (apps/api/src/modules/auth/auth.service.ts).
use mathlib.Core.Path.{subst}
use edu_lanka.Prelude.{
  String, ◌≡◌, ◌≢◌, refl, ap, ◌∙◌, inl, inr, Bool, true, false, not, ◌||◌, Option, none, some, [],
  ◌∷◌, All, All-In, In, In-append, str_eq, if◌then◌else◌,
}
use edu_lanka.Http.{Result, ok, err, HttpError}
use edu_lanka.Http.Cases.{require-cases}
use edu_lanka.Postgrest.{found}
use edu_lanka.Text.{codes, includes}
use edu_lanka.User.{UserRole, role_eq}
use edu_lanka.Redis.{Redis}
use edu_lanka.Accounts.{Account, AccountStores, People}
use edu_lanka.Auth.Registration.{Issuer, SignedIn, SignupDto, Schools, self_register}
use edu_lanka.Auth.Registration.Settled.{
  registered_tenant, IsSettled, DeletesAccounts, account_for, self_register-IsSettled,
}
use edu_lanka.Auth.Login.{
  Lookups, Outcome, signed, by_email, attempts_key, has_used_up, resolved_tenant, candidates,
  authenticate, concluded, attempted, login,
}

module _ (R : Redis) (L : Lookups) (i : Issuer) where
  concluded-refused :
      (identifier : String) (resolved : Option String) (a : Account) (db : R.Db) (r : SignedIn)
      → a.tenant_id ≡ none
      → L.admin_of a.id ≡ found none
      → (x : Outcome) → x ≡ signed a
      → (concluded L R i identifier resolved x db).0 ≢ ok r
  concluded-refused identifier resolved a db r t n x e h =
      let h' : (concluded L R i identifier resolved (signed a) db).0 ≡ ok r = rw e at h in
      let bad : err HttpError.unauthorized ≡ ok r = rw (n, t) at h' in cc

  attempted-refused :
      (identifier password : String) (a : Account) (db : R.Db) (r : SignedIn)
      → a.tenant_id ≡ none
      → L.admin_of a.id ≡ found none
      → ((resolved : Option String) → authenticate L identifier password resolved ≡ signed a)
      → (known : Result (Option String)) → (attempted L R i identifier password known db).0 ≢ ok r
  attempted-refused identifier password a db r t n s (err e) h = cc
  attempted-refused identifier password a db r t n s (ok resolved) h =
      answered (has_used_up (R.read i.now (attempts_key identifier) db)) h
    where
      answered :
          (used : Bool)
          → (if used
              then (err HttpError.too_many_requests, db)
              else concluded L R i identifier resolved
                  (authenticate L identifier password resolved)
                  db).0
            ≢ ok r
      answered true k = cc
      answered false k = concluded-refused identifier resolved a db r t n _ (s resolved) k

  -- No sign-in with an account of no tenant succeeds, unless the account is the platform's.
  pub login-tenantless_refused :
      (identifier password tenant : String) (a : Account) (db : R.Db) (r : SignedIn)
      → a.tenant_id ≡ none
      → L.admin_of a.id ≡ found none
      → ((resolved : Option String) → authenticate L identifier password resolved ≡ signed a)
      → (login L R i identifier password tenant db).0 ≢ ok r
  unfolding login
  login-tenantless_refused identifier password tenant a db r t n s =
      require-cases (λ x. x.0 ≢ ok r) (not (str_eq identifier "" || str_eq password ""))
        HttpError.bad_request (attempted L R i identifier password (resolved_tenant L tenant)) db
        (λ h. cc) (attempted-refused identifier password a db r t n s (resolved_tenant L tenant))

  pub authenticate-email :
      (email password : String) (a : Account) (resolved : Option String)
      → includes (codes email) (codes "@") ≡ true
      → L.sign_in (by_email email) password ≡ some a
      → authenticate L email password resolved ≡ signed a
  unfolding authenticate candidates
  authenticate-email email password a resolved e s = rw (e, s) refl

module _ (D : AccountStores) (schools : Schools) (R : Redis) (L : Lookups) where
  -- The only account with the email of a learner who has registered has no tenant.
  registered-tenantless :
      (j : Issuer) (dto : SignupDto) (s s' : People D) (r : SignedIn) (a : Account)
      → role_eq dto.role UserRole.independent_learner ≡ true
      → IsSettled D schools j dto (registered_tenant dto) s (ok r, s')
      → All (λ b. b.email ≢ some dto.email) (D.Auth.accounts s.auth)
      → In a (D.Auth.accounts s'.auth)
      → a.email ≡ some dto.email
      → a.tenant_id ≡ none
  registered-tenantless j dto s s' r a learner (uid, (accounts, _, _, _), _) new there email =
      elim (In-append a (D.Auth.accounts s.auth)
        (account_for D schools dto (registered_tenant dto) uid ∷ [])
        (subst (In a) accounts there)) [
          | inl old ↦
              absurd
                (All-In (λ b. b.email ≢ some dto.email) (D.Auth.accounts s.auth) a new old email)
          | inr (inl e) ↦ ap (λ b. b.tenant_id) e ∙ rw learner refl
          | inr (inr bad) ↦ absurd bad
        ]

  -- When `selfRegister` has given tokens to an independent learner, under the conditions under which it
  -- adds one account, for an email with an `@` that no account had, then `login` never lets in the account
  -- that Supabase Auth signs in, if it is one of those after the registration, with that email, and not of
  -- the platform's administrators: whatever the state of Redis and the tenant that the request names.
  pub learner-login_refused :
      (j : Issuer) (dto : SignupDto) (admission_no : String) (s s' : People D) (r : SignedIn)
      → DeletesAccounts D schools
      → D.Profiles.key ≡ (λ x. x.id)
      → ((user : String) (db : D.Profiles.Db)
          → (D.Profiles.remove (λ x. str_eq x.id user) db).0 ≡ found tt)
      → role_eq dto.role UserRole.independent_learner ≡ true
      → All (λ b. b.email ≢ some dto.email) (D.Auth.accounts s.auth)
      → self_register D schools j dto admission_no s ≡ (ok r, s')
      → (i : Issuer) (a : Account) (password tenant : String) (db : R.Db) (answer : SignedIn)
      → includes (codes dto.email) (codes "@") ≡ true
      → L.sign_in (by_email dto.email) password ≡ some a
      → In a (D.Auth.accounts s'.auth)
      → a.email ≡ some dto.email
      → L.admin_of a.id ≡ found none
      → (login L R i dto.email password tenant db).0 ≢ ok answer
  learner-login_refused j dto admission_no s s' r deletes keyed removes learner new h i a password
        tenant db answer at signs there email no_admin =
      let settled =
        subst (IsSettled D schools j dto (registered_tenant dto) s) h
          (self_register-IsSettled D schools j dto admission_no s deletes keyed removes) in
      let no_tenant = registered-tenantless j dto s s' r a learner settled new there email in
      login-tenantless_refused R L i dto.email password tenant a db answer no_tenant no_admin
        (λ resolved. authenticate-email R L i dto.email password a resolved at signs)
