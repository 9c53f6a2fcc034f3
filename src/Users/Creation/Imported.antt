-- ===== src/Users/Creation/Imported.antt =====
-- What the creation and the import of users leave behind
-- (apps/api/src/modules/users/users.service.ts).
use mathlib.Core.Path.{subst}
use edu_lanka.Prelude.{
  ℕ, suc, ◌+◌, String, ◌≡◌, refl, sym, ap, ◌∙◌, inl, inr, Bool, not, ◌||◌, Option, none, some, List,
  [], ◌∷◌, ◌++◌, length, length-append, select, ◌==◌, str_eq, Bool-cases, arith,
}
use edu_lanka.Http.{Result, ok, err, HttpError}
use edu_lanka.Http.Cases.{require-cases}
use edu_lanka.Text.{Text}
use edu_lanka.Uuid.{is_uuid}
use edu_lanka.User.{UserRole, role_eq, JwtPayload, is_admin, is_super_admin}
use edu_lanka.Accounts.{AccountStores, People}
use edu_lanka.Accounts.Undone.{IsWhole, add_user-IsWhole}
use edu_lanka.Users.Creation.{
  CreateUserDto, ImportRow, ImportReport, ValidRow, Tenants, created_account, created_profile,
  already_registered, checked_role, add_checked, validated, new_students,
  conflict_or_internal_error, delete_twice, create, dto_of, add_student, noted, with_student,
  import_rows, is_within_cap, reported, bulk_import_users,
}

select-twice : {A : Type 0} (p : A → Bool) (xs : List A) → select p (select p xs) ≡ select p xs
select-twice p [] = refl
select-twice p (x ∷ xs) = elim (Bool-cases (p x)) [
  | inl e ↦ rw (e, e, select-twice p xs) refl
  | inr e ↦ rw (e, select-twice p xs) refl
]

add_checked-length :
    (r : ImportRow) (n : ℕ) (o : Option UserRole) (x : List ValidRow × List ℕ)
    → length (add_checked r n o x).0 + length (add_checked r n o x).1
      ≡ suc (length x.0 + length x.1)
add_checked-length r n none (valid, errors) = omega arith
add_checked-length r n (some role) (valid, errors) = omega arith

-- Every row passes or is noted.
validated-length :
    (custom : Text → Option Text) (n : ℕ) (rs : List ImportRow)
    → length (validated custom n rs).0 + length (validated custom n rs).1 ≡ length rs
unfolding validated
validated-length custom n [] = omega arith
validated-length custom n (r ∷ rs) =
    add_checked-length r n (checked_role custom r) (validated custom (suc n) rs)
    ∙ ap suc (validated-length custom (suc n) rs)

module _ (D : AccountStores)
    (deletes : (uid : String) (db : D.Auth.Db)
      → D.Auth.accounts (D.Auth.delete_user uid db)
        ≡ select (λ a. not (str_eq a.id uid)) (D.Auth.accounts db)) where
  -- If `deleteUser` leaves no account with the id that it is given, then whatever `create` answers: when
  -- it gives the ids of an account and of a user, it has added one account, which has no tenant, and one
  -- row of `users`, in the caller's tenant, with new ids; when it throws, accounts and users are as
  -- before.
  pub create-IsWhole :
      (dto : CreateUserDto) (caller : JwtPayload) (s : People D)
      → IsWhole D
          (created_account dto)
          (created_profile dto caller.tenant_id)
          s
          (create D dto caller s)
  unfolding create
  create-IsWhole dto caller s =
      let P = IsWhole D (created_account dto) (created_profile dto caller.tenant_id) s in
      require-cases P (is_admin caller.role) HttpError.forbidden _ s (refl, refl)
        (require-cases P (is_uuid caller.tenant_id) HttpError.bad_request _ s (refl, refl)
          (require-cases P (not (is_super_admin dto.role)) HttpError.forbidden _ s (refl, refl)
            (add_user-IsWhole D (created_account dto) (λ id. refl) (delete_twice D)
              (λ uid t. (
                deletes uid (D.Auth.delete_user uid t.auth)
                    ∙ ap (select (λ a. not (str_eq a.id uid))) (deletes uid t.auth)
                    ∙ select-twice (λ a. not (str_eq a.id uid)) (D.Auth.accounts t.auth),
                refl,
              ))
              (created_profile dto caller.tenant_id) (conflict_or_internal_error D) dto.password
              already_registered s)))

  -- So many accounts and users more.
  abbrev pub HasGrown : ℕ → People D → People D → Type 0
  HasGrown n s s' =
      (length (D.Auth.accounts s'.auth) ≡ length (D.Auth.accounts s.auth) + n)
      × (length (D.Profiles.rows s'.users) ≡ length (D.Profiles.rows s.users) + n)

  -- The rows noted so far, and the growth since the start.
  abbrev IsNoted : People D → ℕ → (List (String × String) × List ℕ) × People D → Type 0
  IsNoted s n ((imported, errors), s') =
      (length imported + length errors ≡ n) × HasGrown (length imported) s s'

  add_student-HasGrown :
      (n : ℕ) (s t : People D) (tenant : String) (v : ValidRow) (uid : String)
      → HasGrown n s t
      → HasGrown n s (add_student D tenant v uid t)
  add_student-HasGrown n s t tenant v uid h = elim (Bool-cases (role_eq v.role UserRole.student)) [
    | inl e ↦ rw e h
    | inr e ↦ rw e h
  ]

  noted-IsNoted :
      (s t : People D) (n : ℕ) (tenant : String) (v : ValidRow)
      (x : Result (String × String) × People D) (done : List (String × String) × List ℕ)
      → IsNoted s n (done, t)
      → IsWhole D (created_account (dto_of v)) (created_profile (dto_of v) tenant) t x
      → IsNoted s (suc n) (noted D tenant v (with_student D tenant v x) done)
  noted-IsNoted s t n tenant v (ok (uid, id), t') (imported, errors) (h, (a, u))
        (accounts, rows, _, _) =
      let grown : HasGrown (length imported + 1) s t' = (
        omega (
          arith,
          ap length accounts,
          length-append (D.Auth.accounts t.auth) (created_account (dto_of v) uid ∷ []),
          a,
        ),
        omega (
          arith,
          ap length rows,
          length-append (D.Profiles.rows t.users) (created_profile (dto_of v) tenant uid id ∷ []),
          u,
        ),
      ) in
      let one : length (imported ++ (uid, id) ∷ []) ≡ length imported + 1 =
        length-append imported ((uid, id) ∷ []) in
      (
        omega (arith, one, h),
        subst (λ z. HasGrown z s (add_student D tenant v uid t')) (sym one)
            (add_student-HasGrown (length imported + 1) s t' tenant v uid grown),
      )
  noted-IsNoted s t n tenant v (err e, t') (imported, errors) (h, (a, u)) (accounts, rows) = (
    omega (arith, length-append errors (suc v.index ∷ []), h),
    (ap length accounts ∙ a, ap length rows ∙ u),
  )

  import_rows-IsNoted :
      (s t : People D) (n : ℕ) (caller : JwtPayload) (vs : List ValidRow)
      (done : List (String × String) × List ℕ)
      → IsNoted s n (done, t)
      → IsNoted s (n + length vs) (import_rows D caller vs done t)
  unfolding import_rows
  import_rows-IsNoted s t n caller [] done h =
      let e : n ≡ n + 0 = omega arith in subst (λ z. IsNoted s z (done, t)) e h
  import_rows-IsNoted s t n caller (v ∷ vs) done h =
      let x = with_student D caller.tenant_id v (create D (dto_of v) caller t) in
      let (done', t') = noted D caller.tenant_id v x done in
      let e : suc n + length vs ≡ n + suc (length vs) = omega arith in
      subst (λ z. IsNoted s z (import_rows D caller vs done' t')) e
        (import_rows-IsNoted s t' (suc n) caller vs done' (
          noted-IsNoted s t n caller.tenant_id v (create D (dto_of v) caller t) done h
            (create-IsWhole (dto_of v) caller t)))

  -- What an import answers and leaves.
  abbrev pub IsImported : List ImportRow → People D → Result ImportReport × People D → Type 0
  IsImported rows s (ok report, s') =
      (report.total_rows ≡ length rows)
      × (length report.imported + length report.errors ≡ report.total_rows)
      × HasGrown (length report.imported) s s'
  IsImported rows s (err e, s') = s' ≡ s

  reported-IsImported :
      (rows : List ImportRow) (s : People D) (errors : List ℕ) (n : ℕ)
      (x : (List (String × String) × List ℕ) × People D)
      → IsNoted s n x
      → n + length errors ≡ length rows
      → IsImported rows s (reported D (length rows) errors x)
  reported-IsImported rows s errors n ((imported, failures), t) (h, grown) e =
      (refl, omega (arith, length-append errors failures, h, e), grown)

  -- If `deleteUser` leaves no account with the id that it is given, then whatever `bulkImportUsers`
  -- answers: when it gives a report, every row is counted once, as imported or as failed, and accounts
  -- and `users` have grown by as many as were imported; when it throws, nothing has changed.
  pub bulk_import_users-IsImported :
      (T : Tenants) (custom : Text → Option Text) (rows : List ImportRow) (caller : JwtPayload)
      (s : People D)
      → IsImported rows s (bulk_import_users D T custom rows caller s)
  unfolding bulk_import_users
  bulk_import_users-IsImported T custom rows caller s =
      let P = IsImported rows s in
      let (valid, errors) = validated custom 0 rows in
      require-cases P (is_admin caller.role) HttpError.forbidden _ s refl (
        require-cases P (is_uuid caller.tenant_id) HttpError.bad_request _ s refl (
          require-cases P (not (length rows == 0)) HttpError.bad_request _ s refl (
            require-cases P (length errors == 0 || not (length valid == 0)) HttpError.bad_request _
              s refl
              (require-cases P (is_within_cap T caller.tenant_id (new_students valid))
                HttpError.forbidden _ s refl
                (reported-IsImported rows s errors (length valid)
                  (import_rows D caller valid ([], []) s)
                  (subst (λ z. IsNoted s z (import_rows D caller valid ([], []) s))
                    (let e : 0 + length valid ≡ length valid = omega arith in e)
                    (import_rows-IsNoted s s 0 caller valid ([], [])
                      (omega arith, (omega arith, omega arith))))
                  (validated-length custom 0 rows))))))
