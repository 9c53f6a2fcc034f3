-- ===== src/Auth/Registration/Settled.antt =====
-- What a registration leaves behind, whatever it answers (apps/api/src/modules/auth/auth.service.ts).
use mathlib.Core.Path.{subst}
use edu_lanka.Prelude.{
  String, ◌≡◌, ◌≢◌, refl, sym, ap, ◌∙◌, ◌⊎◌, inl, inr, Bool, true, false, not, ◌||◌, Option, none,
  some, select, All, Bool-cases, str_eq, if◌then◌else◌,
}
use edu_lanka.Http.{Result, ok, err, HttpError, Action, resume, ◌>>◌, return, require}
use edu_lanka.Http.Cases.{require-cases, resume-cases}
use edu_lanka.Postgrest.{Reply, found, failed}
use edu_lanka.User.{UserRole, role_eq, JwtPayload, is_super_admin}
use edu_lanka.Auth.{Claims, access, refresh, stored_or_throw, signed_pair, issue_token_pair}
use edu_lanka.Auth.Duration.{parse_duration_to_seconds}
use edu_lanka.Accounts.{Account, Profile, AccountStores, People, delete_account}
use edu_lanka.Accounts.Undone.{select-new, HasSameUsers, HasAdded, IsWhole, add_user-IsWhole}
use edu_lanka.Auth.Registration.{
  SignupDto, TenantRow, Schools, Issuer, SignedIn, may_provision, account_of, profile_of,
  active_tenant, conflict_or_internal, add_signup, creation_error, signup, kept_tokens, issue_new,
  learner_added, add_learner, signed_up, new_claims, register_learner, add_role_profile,
  register_in_school, self_register, may_register, internal, is_closed, is_over_cap,
}

module _ (D : AccountStores) (schools : Schools) where
  -- `deleteUser` leaves no account with the id.
  abbrev pub DeletesAccounts : Type 0
  DeletesAccounts =
      (uid : String) (db : D.Auth.Db)
      → D.Auth.accounts (D.Auth.delete_user uid db)
        ≡ select (λ a. not (str_eq a.id uid)) (D.Auth.accounts db)

  -- The account and the row that a registration is to leave.
  abbrev pub account_for : SignupDto → Option String → String → Account
  account_for dto tenant uid = record {
    id = uid;
    email = some dto.email;
    phone = none;
    tenant_id = tenant;
  }

  abbrev pub row_for : SignupDto → Option String → String → String → Profile
  row_for dto tenant uid id = record {
    id = id;
    user_id = uid;
    tenant_id = tenant;
    email = some dto.email;
    phone_number = none;
    full_name = dto.full_name;
    role = dto.role;
    is_active = true;
  }

  pub add_signup-IsWhole :
      (dto : SignupDto) (tenant : Option String) (error : D.Profiles.Db → HttpError)
      → DeletesAccounts
      → (s : People D)
      → IsWhole D
          (account_of dto tenant)
          (profile_of dto tenant)
          s
          (add_signup D schools dto tenant error s)
  add_signup-IsWhole dto tenant error deletes s =
      add_user-IsWhole D (account_of dto tenant) (λ id. refl) (delete_account D)
        (λ uid t. (deletes uid t.auth, refl)) (profile_of dto tenant) error dto.password
        creation_error s

  pub active_tenant-cases :
      {A : Type 0} (P : Result A × People D → Type 0) (r : Reply (Option TenantRow))
      (k : Action (People D) A) (s : People D)
      → ((e : HttpError) → P (err e, s))
      → P (k s)
      → P ((active_tenant D schools r >> k) s)
  active_tenant-cases P failed k s refused passed = refused HttpError.not_found
  active_tenant-cases P (found none) k s refused passed = refused HttpError.not_found
  active_tenant-cases P (found (some t)) k s refused passed =
      require-cases P (str_eq t.status "ACTIVE") HttpError.unauthorized k s
        (refused HttpError.unauthorized) passed

  -- If `deleteUser` leaves no account with the id that it is given, then whatever `signup` answers: when
  -- it gives the ids of an account and of a user, it has added one account and one row of `users`, of
  -- these ids, which are new, for the email, the role and the tenant of the request; when it throws,
  -- accounts and users are as before.
  pub signup-IsWhole :
      (dto : SignupDto) (caller : JwtPayload) (s : People D)
      → DeletesAccounts
      → IsWhole D
          (account_for dto (some dto.tenant_id))
          (row_for dto (some dto.tenant_id))
          s
          (signup D schools dto caller s)
  unfolding signup
  signup-IsWhole dto caller s deletes =
      let P =
        IsWhole D (account_for dto (some dto.tenant_id)) (row_for dto (some dto.tenant_id)) s in
      let add = add_signup D schools dto (some dto.tenant_id) (conflict_or_internal D schools) in
      let checked = active_tenant D schools (schools.tenant_of dto.tenant_id) >> add in
      require-cases P (is_super_admin caller.role || str_eq caller.tenant_id dto.tenant_id)
        HttpError.forbidden
        (require (may_provision caller.role dto.role) HttpError.forbidden >> checked) s (refl, refl)
        (require-cases P (may_provision caller.role dto.role) HttpError.forbidden checked s
          (refl, refl)
          (active_tenant-cases P (schools.tenant_of dto.tenant_id) add s (λ e. (refl, refl))
            (add_signup-IsWhole dto (some dto.tenant_id) (conflict_or_internal D schools) deletes
              s)))

-- The tenant of a registration: an independent learner has none.
abbrev pub registered_tenant : SignupDto → Option String
registered_tenant dto =
    if role_eq dto.role UserRole.independent_learner then none else some dto.tenant_id

module _ (D : AccountStores) (schools : Schools) (i : Issuer) (dto : SignupDto) where
  module _ (tenant : Option String) where
    abbrev pub HasRegistered : People D → People D → String × String → Type 0
    HasRegistered = HasAdded D (account_for D schools dto tenant) (row_for D schools dto tenant)

    -- The tokens are signed for the user of the answer, with the role of the request.
    abbrev pub HasTokens : SignedIn → Type 0
    HasTokens r =
        (c : Claims) × (c.sub ≡ r.user_id)
        × (c.role ≡ dto.role)
        × (c.tenant_id ≡ r.tenant_id)
        × (r.tokens.access_token
            ≡ i.jwt.sign (record c { token_type = some access; jti = some i.ids.access_jti })
                (parse_duration_to_seconds i.config.expires_in) i.now)
        × (r.tokens.refresh_token
            ≡ i.jwt.sign (record c { token_type = some refresh; jti = some i.ids.refresh_jti })
                (parse_duration_to_seconds i.config.refresh_expires_in) i.now)

    -- Accounts and users after a registration, by its answer.
    abbrev pub IsSettled : People D → Result SignedIn × People D → Type 0
    IsSettled s (ok r, s') = (uid : String) × HasRegistered s s' (uid, r.user_id) × HasTokens r
    IsSettled s (err e, s') =
        HasSameUsers D s s'
        ⊎ ((uid id : String) × (e ≡ HttpError.thrown) × HasRegistered s s' (uid, id))

    issued-IsSettled :
        (s t : People D) (uid : String) (c : Claims) (x : Bool × D.Tokens.Db)
        → c.role ≡ dto.role
        → HasRegistered s t (uid, c.sub)
        → IsSettled s (
            resume
              (λ p. return (signed_up c p))
              (kept_tokens D schools t
                (stored_or_throw D.Tokens (signed_pair i.jwt i.config i.ids i.now c) x)))
    issued-IsSettled s t uid c (true, db) e h = (uid, h, (c, refl, e, refl, refl, refl))
    issued-IsSettled s t uid c (false, db) e h = inr (uid, c.sub, refl, h)

    issue_new-IsSettled :
        (s t : People D) (uid : String) (c : Claims)
        → c.role ≡ dto.role
        → HasRegistered s t (uid, c.sub)
        → IsSettled s (issue_new D schools i c t)
    unfolding issue_token_pair
    issue_new-IsSettled s t uid c e h = issued-IsSettled s t uid c _ e h

  learner_added-IsSettled :
      (s t : People D) (uid id : String) (c : Claims) (x : Reply String × D.Learners.Db)
      → DeletesAccounts D schools
      → D.Profiles.key ≡ (λ r. r.id)
      → ((user : String) (db : D.Profiles.Db)
          → (D.Profiles.remove (λ r. str_eq r.id user) db).0 ≡ found tt)
      → c.sub ≡ id
      → c.role ≡ dto.role
      → HasRegistered none s t (uid, id)
      → IsSettled none s
          (resume (λ u. issue_new D schools i c) (learner_added D schools uid id t x))
  learner_added-IsSettled s t uid id c (found l, db) deletes keyed removes e k h =
      issue_new-IsSettled none s (record t { learners = db }) uid c k
        (subst (λ z. HasRegistered none s t (uid, z)) (sym e) h)
  learner_added-IsSettled s t uid id c (failed, db) deletes keyed removes e k
        (accounts, rows, a, b) =
      let fresh = subst (λ k. All (λ r. k r ≢ id) (D.Profiles.rows s.users)) keyed b in
      inl (
        deletes uid t.auth
            ∙ ap (select (λ x. not (str_eq x.id uid))) accounts
            ∙ select-new (λ x. x.id) uid (D.Auth.accounts s.auth) (account_of dto none uid) a refl,
        D.Profiles.remove_found (λ r. str_eq r.id id) t.users (removes id t.users)
            ∙ ap (select (λ r. not (str_eq r.id id))) rows
            ∙ select-new (λ r. r.id) id (D.Profiles.rows s.users) (profile_of dto none uid id) fresh
                refl,
      )

  register_learner-IsSettled :
      (s : People D)
      → DeletesAccounts D schools
      → D.Profiles.key ≡ (λ r. r.id)
      → ((user : String) (db : D.Profiles.Db)
          → (D.Profiles.remove (λ r. str_eq r.id user) db).0 ≡ found tt)
      → IsSettled none s (register_learner D schools i dto s)
  register_learner-IsSettled s deletes keyed removes =
      resume-cases (IsSettled none s) (IsWhole D (account_of dto none) (profile_of dto none) s)
        (λ (uid, id).
          add_learner D schools uid id
          >> issue_new D schools i
              (new_claims dto "" (some "FREE_INDIVIDUAL") (some "independent") id))
        (add_signup D schools dto none (internal D schools) s)
        (add_signup-IsWhole D schools dto none (internal D schools) deletes s)
        (λ (uid, id) t h. learner_added-IsSettled s t uid id _ _ deletes keyed removes refl refl h)
        (λ e t h. inl h)

  add_role_profile-same :
      (admission_no uid : String) (s t : People D) (ids : String × String)
      → HasRegistered (some dto.tenant_id) s t ids
      → HasRegistered (some dto.tenant_id) s (add_role_profile D schools dto admission_no uid t) ids
  add_role_profile-same admission_no uid s t ids h =
      elim (Bool-cases (role_eq dto.role UserRole.student)) [
        | inl e ↦ rw e h
        | inr e ↦ elim (Bool-cases (role_eq dto.role UserRole.parent)) [
          | inl k ↦ rw (e, k) h
          | inr k ↦ rw (e, k) h
        ]
      ]

  register_in_school-IsSettled :
      (admission_no : String) (s : People D)
      → DeletesAccounts D schools
      → IsSettled (some dto.tenant_id) s (register_in_school D schools i dto admission_no s)
  register_in_school-IsSettled admission_no s deletes =
      let tenant = some dto.tenant_id in
      let P = IsSettled tenant s in
      let row = schools.tenant_of dto.tenant_id in
      let unchanged : (e : HttpError) → P (err e, s) = λ e. inl (refl, refl) in
      active_tenant-cases D schools P row _ s unchanged (
        require-cases P (not (is_closed (schools.self_enrollment_of dto.tenant_id)))
          HttpError.forbidden _ s (unchanged HttpError.forbidden)
          (require-cases P (not (is_over_cap D schools dto)) HttpError.forbidden _ s
            (unchanged HttpError.forbidden)
            (resume-cases P (IsWhole D (account_of dto tenant) (profile_of dto tenant) s) _ _
              (add_signup-IsWhole D schools dto tenant (internal D schools) deletes s)
              (λ (uid, id) t h.
                issue_new-IsSettled tenant s (add_role_profile D schools dto admission_no uid t) uid
                  _ refl (add_role_profile-same admission_no uid s t (uid, id) h))
              (λ e t h. inl h))))

  -- If `deleteUser` leaves no account with the id that it is given, rows of `users` are keyed by their
  -- id and the deletion of a row by its id is answered, then whatever `selfRegister` answers: when it
  -- gives tokens, it has added one account and one row of `users`, with new ids, for the email, the role
  -- and the tenant of the request (none for an independent learner), and the tokens are signed for the
  -- id of that row and its role;
  -- when it throws, accounts and users are as before, but for the failure of Redis in the issue of the
  -- tokens, which leaves the account and the row.
  pub self_register-IsSettled :
      (admission_no : String) (s : People D)
      → DeletesAccounts D schools
      → D.Profiles.key ≡ (λ r. r.id)
      → ((user : String) (db : D.Profiles.Db)
          → (D.Profiles.remove (λ r. str_eq r.id user) db).0 ≡ found tt)
      → IsSettled (registered_tenant dto) s (self_register D schools i dto admission_no s)
  unfolding self_register
  self_register-IsSettled admission_no s deletes keyed removes =
      require-cases (IsSettled (registered_tenant dto) s) (may_register dto.role)
        HttpError.forbidden _ s (inl (refl, refl))
        (elim (Bool-cases (role_eq dto.role UserRole.independent_learner)) [
          | inl e ↦ rw e (register_learner-IsSettled s deletes keyed removes)
          | inr e ↦ rw e (register_in_school-IsSettled admission_no s deletes)
        ])
