-- ===== src/Auth/Registration/Profiles.antt =====
-- The row of `students` that a registration writes (apps/api/src/modules/auth/auth.service.ts).
use mathlib.Core.Path.{subst}
use edu_lanka.Prelude.{
  String, ◌≡◌, refl, sym, ap, ◌∙◌, ◌⊎◌, inl, inr, Bool, true, false, not, none, some, [], ◌∷◌, ◌++◌,
}
use edu_lanka.Http.{Result, ok, err, HttpError, resume, return}
use edu_lanka.Http.Cases.{require-cases, resume-cases}
use edu_lanka.Postgrest.{Reply, found, failed}
use edu_lanka.User.{UserRole, role_eq, role_eq_iff}
use edu_lanka.Auth.{Claims, TokenPair, stored_or_throw, issue_token_pair}
use edu_lanka.Accounts.{StudentRow, AccountStores, People}
use edu_lanka.Accounts.Undone.{IsWhole, HasSameStudents, add_user-HasSameStudents, HasAdded}
use edu_lanka.Auth.Registration.{
  SignupDto, Schools, Issuer, SignedIn, account_of, profile_of, creation_error, signed_up,
  kept_tokens, issue_new, add_role_profile, self_register, may_register, internal, is_closed,
  is_over_cap,
}
use edu_lanka.Auth.Registration.Settled.{DeletesAccounts, add_signup-IsWhole, active_tenant-cases}

module _ (D : AccountStores) (schools : Schools) (i : Issuer) (dto : SignupDto)
    (admission_no : String) where
  -- The row is the student's of the account, not of the row of `users`.
  abbrev pub student_row : String → String → StudentRow
  student_row uid id = record {
    id = id;
    tenant_id = dto.tenant_id;
    user_id = uid;
    admission_no = admission_no;
    class_id = none;
  }

  abbrev pub HasStudent : String → D.Students.Db → D.Students.Db → Type 0
  HasStudent uid db db' =
      (D.Students.rows db' ≡ D.Students.rows db)
      ⊎ ((id : String) × (D.Students.rows db' ≡ D.Students.rows db ++ student_row uid id ∷ []))

  abbrev pub IsEnrolled : People D → Result SignedIn × People D → Type 0
  IsEnrolled s (ok r, s') =
      (uid : String) × HasAdded D (account_of dto (some dto.tenant_id))
        (profile_of dto (some dto.tenant_id)) s s' (uid, r.user_id)
      × HasStudent uid s.students s'.students
  IsEnrolled s (err e, s') = Unit

  inserted-HasStudent :
      (uid : String) (db : D.Students.Db) (x : Reply String × D.Students.Db)
      → D.Students.insert (student_row uid) db ≡ x
      → HasStudent uid db x.1
  inserted-HasStudent uid db (found id, db') e = inr (
    id,
    ap (λ z. D.Students.rows z.1) (sym e)
        ∙ D.Students.insert_found (student_row uid) db id (ap (λ z. z.0) e),
  )
  inserted-HasStudent uid db (failed, db') e = inl (
      ap (λ z. D.Students.rows z.1) (sym e)
      ∙ D.Students.insert_failed (student_row uid) db (ap (λ z. z.0) e))

  issued-IsEnrolled :
      (s t : People D) (uid : String) (c : Claims) (q : TokenPair) (x : Bool × D.Tokens.Db)
      → HasAdded D
          (account_of dto (some dto.tenant_id))
          (profile_of dto (some dto.tenant_id))
          s
          t
          (uid, c.sub)
      → HasStudent uid s.students t.students
      → IsEnrolled s (
          resume
            (λ p. return (signed_up c p))
            (kept_tokens D schools t (stored_or_throw D.Tokens q x)))
  issued-IsEnrolled s t uid c q (true, db) h k = (uid, h, k)
  issued-IsEnrolled s t uid c q (false, db) h k = tt

  issue_new-IsEnrolled :
      (s t : People D) (uid : String) (c : Claims)
      → HasAdded D
          (account_of dto (some dto.tenant_id))
          (profile_of dto (some dto.tenant_id))
          s
          t
          (uid, c.sub)
      → HasStudent uid s.students t.students
      → IsEnrolled s (issue_new D schools i c t)
  unfolding issue_token_pair
  issue_new-IsEnrolled s t uid c h k = issued-IsEnrolled s t uid c _ _ h k

  role_profile-IsEnrolled :
      (s t : People D) (uid : String) (c : Claims)
      → role_eq dto.role UserRole.student ≡ true
      → HasAdded D
          (account_of dto (some dto.tenant_id))
          (profile_of dto (some dto.tenant_id))
          s
          t
          (uid, c.sub)
      → t.students ≡ s.students
      → IsEnrolled s (issue_new D schools i c (add_role_profile D schools dto admission_no uid t))
  role_profile-IsEnrolled s t uid c e h same =
      let db = (D.Students.insert (student_row uid) t.students).1 in
      rw e (
        issue_new-IsEnrolled s (record t { students = db }) uid c h
          (subst (λ z. HasStudent uid z db) same (inserted-HasStudent uid t.students _ refl)))

  not_learner :
      role_eq dto.role UserRole.student ≡ true
      → role_eq dto.role UserRole.independent_learner ≡ false
  unfolding role_eq
  not_learner e =
      ap (λ r. role_eq r UserRole.independent_learner) ((role_eq_iff dto.role UserRole.student).0 e)

  -- If `deleteUser` leaves no account with the id that it is given, then when `selfRegister` gives tokens
  -- to a student, it has added an account and a row of `users`, and either `students` is unchanged, or
  -- one row has been added there, whose `user_id` is the id of the account.
  pub self_register-IsEnrolled :
      (s : People D)
      → DeletesAccounts D schools
      → role_eq dto.role UserRole.student ≡ true
      → IsEnrolled s (self_register D schools i dto admission_no s)
  unfolding self_register
  self_register-IsEnrolled s deletes e =
      let P = IsEnrolled s in
      let tenant = some dto.tenant_id in
      require-cases P (may_register dto.role) HttpError.forbidden _ s tt (
        rw (not_learner e) (
          active_tenant-cases D schools P (schools.tenant_of dto.tenant_id) _ s (λ x. tt)
            (require-cases P (not (is_closed (schools.self_enrollment_of dto.tenant_id)))
              HttpError.forbidden _ s tt
              (require-cases P (not (is_over_cap D schools dto)) HttpError.forbidden _ s tt (
                resume-cases P
                  (λ x.
                    IsWhole D (account_of dto tenant) (profile_of dto tenant) s x
                    × HasSameStudents D s x)
                  _ _
                  (
                    add_signup-IsWhole D schools dto tenant (internal D schools) deletes s,
                    add_user-HasSameStudents D (account_of dto tenant) dto.password creation_error
                        (profile_of dto tenant) (internal D schools) s,
                  )
                  (λ (uid, id) t (h, same). role_profile-IsEnrolled s t uid _ e h same)
                  (λ x t h. tt))))))
