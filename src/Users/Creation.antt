-- ===== src/Users/Creation.antt =====
-- `UsersService.create` and `bulkImportUsers`
-- (apps/api/src/modules/users/users.service.ts). The caller's tenant id is a UUID. A password that a row
-- leaves out, which the code makes up, and the admission number are given.
pub mod Imported
pub mod SigningIn
mod Tests
use edu_lanka.Prelude.{
  ℕ, suc, ◌+◌, ◌≤◌, String, Bool, true, false, not, ◌&&◌, ◌||◌, Option, none, some, List, [], ◌∷◌,
  ◌++◌, map, length, select, any, leb, ◌==◌, str_eq, if◌then◌else◌,
}
use edu_lanka.Http.{Result, ok, err, HttpError, Action, ◌>>=◌, ◌>>◌, return, throw, require}
use edu_lanka.Postgrest.{Reply, found, failed}
use edu_lanka.Text.{Text, codes, to_lower, to_upper, trim, includes, same}
use edu_lanka.Uuid.{get_tenant_client}
use edu_lanka.User.{UserRole, role_eq, JwtPayload, is_admin, is_super_admin}
use edu_lanka.Auth.{given_id}
use edu_lanka.Users.Roles.{is_blank_text, resolve_role}
use edu_lanka.Accounts.{Account, Profile, AccountStores, People, add_user, delete_account}
use edu_lanka.Auth.Registration.{is_community_plan}

pub record CreateUserDto : Type 0 where
  pub email : Option String
  pub phone_number : Option String
  pub full_name : String
  pub role : UserRole
  pub password : String

pub record ImportRow : Type 0 where
  pub full_name : String
  pub email : Option String
  pub phone_number : Option String
  pub role : Option String
  pub custom_role : Option String
  pub password : String
  pub admission_no : String
  pub class_id : Option String

-- The numbers of the rows that failed, and the ids of the users that were made.
pub record ImportReport : Type 0 where
  pub total_rows : ℕ
  pub imported : List (String × String)
  pub errors : List ℕ

-- A row that passed, with its role and number.
pub record ValidRow : Type 0 where
  pub row : ImportRow
  pub role : UserRole
  pub index : ℕ

abbrev pub created_account : CreateUserDto → String → Account
created_account dto id = record {
  id = id;
  email = given_id dto.email;
  phone = given_id dto.phone_number;
  tenant_id = none;
}

abbrev pub created_profile : CreateUserDto → String → String → String → Profile
created_profile dto tenant uid id = record {
  id = id;
  user_id = uid;
  tenant_id = some tenant;
  email = dto.email;
  phone_number = dto.phone_number;
  full_name = dto.full_name;
  role = dto.role;
  is_active = true;
}

abbrev pub already_registered : Text → HttpError
already_registered message =
    if includes message (codes "already registered")
    then HttpError.conflict
    else HttpError.internal_error

abbrev pub text_or : Option String → Option String → Text
text_or first second = or_second (given_id first) second
  where
    or_second : Option String → Option String → Text
    or_second (some t) other = codes t
    or_second none (some t) = codes t
    or_second none none = []

abbrev pub is_not_given : Option String → Bool
is_not_given none = true
is_not_given (some s) = str_eq s ""

abbrev pub allowed : Option UserRole → Option UserRole
allowed none = none
allowed (some r) = if is_super_admin r then none else some r

-- The role of a row that passes the checks.
abbrev pub checked_role : (Text → Option Text) → ImportRow → Option UserRole
checked_role custom r =
    if is_blank_text (trim (codes r.full_name))
    then none
    else if is_not_given r.email && is_not_given r.phone_number
    then none
    else allowed (resolve_role custom (text_or r.role r.custom_role))

abbrev pub add_checked :
    ImportRow → ℕ → Option UserRole → List ValidRow × List ℕ → List ValidRow × List ℕ
add_checked r n none (valid, errors) = (valid, suc n ∷ errors)
add_checked r n (some role) (valid, errors) =
    (record { row = r; role = role; index = n } ∷ valid, errors)

-- The rows that pass, and the numbers, from 1, of those that do not.
unfoldable pub validated : (Text → Option Text) → ℕ → List ImportRow → List ValidRow × List ℕ
unfolding resolve_role
validated custom n [] = ([], [])
validated custom n (r ∷ rs) = add_checked r n (checked_role custom r) (validated custom (suc n) rs)

abbrev pub new_students : List ValidRow → ℕ
new_students rows = length (select (λ v. role_eq v.role UserRole.student) rows)

abbrev pub count_or_zero : Reply ℕ → ℕ
count_or_zero failed = 0
count_or_zero (found n) = n

-- The plan of a tenant, and how many of its students are active; a failed query gives none and 0.
pub record Tenants : Type 0 where
  pub plan_of : String → Option String
  pub active_students : String → Reply ℕ

abbrev pub dto_of : ValidRow → CreateUserDto
dto_of v = record {
  email = v.row.email;
  phone_number = v.row.phone_number;
  full_name = v.row.full_name;
  role = v.role;
  password = v.row.password;
}

abbrev pub is_within_cap : Tenants → String → ℕ → Bool
is_within_cap T tenant n =
    n == 0
    || not (is_community_plan (T.plan_of tenant))
    || leb (count_or_zero (T.active_students tenant) + n) 75

module _ (D : AccountStores) where
  abbrev pub conflict_or_internal_error : D.Profiles.Db → HttpError
  conflict_or_internal_error db =
      if str_eq (D.error_code db) "23505" then HttpError.conflict else HttpError.internal_error

  -- The account is deleted where the insert fails, and again in the handler of the exception.
  abbrev pub delete_twice : String → People D → People D
  delete_twice uid s = delete_account D uid (delete_account D uid s)

  unfoldable pub create : CreateUserDto → JwtPayload → Action (People D) (String × String)
  create dto caller =
      require (is_admin caller.role) HttpError.forbidden
      >> (get_tenant_client caller.tenant_id
          >> (require (not (is_super_admin dto.role)) HttpError.forbidden
              >> add_user D (created_account dto) dto.password already_registered delete_twice
                  (created_profile dto caller.tenant_id) conflict_or_internal_error))

  -- A student's row, whose insert may fail and is dropped.
  abbrev pub add_student : String → ValidRow → String → People D → People D
  add_student tenant v uid s =
      let enrolled : People D = record s {
        students =
            (D.Students.insert
              (λ r. record {
                id = r;
                tenant_id = tenant;
                user_id = uid;
                admission_no = v.row.admission_no;
                class_id = v.row.class_id;
              })
              s.students).1;
      } in
      if role_eq v.role UserRole.student then enrolled else s

  abbrev pub noted :
      String
      → ValidRow
      → Result (String × String) × People D
      → List (String × String) × List ℕ
      → (List (String × String) × List ℕ) × People D
  noted tenant v (ok ids, s) (imported, errors) = ((imported ++ ids ∷ [], errors), s)
  noted tenant v (err e, s) (imported, errors) = ((imported, errors ++ suc v.index ∷ []), s)

  abbrev pub with_student :
      String → ValidRow → Result (String × String) × People D → Result (String × String) × People D
  with_student tenant v (ok (uid, id), s) = (ok (uid, id), add_student tenant v uid s)
  with_student tenant v (err e, s) = (err e, s)

  -- One after the other; an exception is noted, and the next row follows.
  unfoldable pub import_rows :
      JwtPayload
      → List ValidRow
      → List (String × String) × List ℕ
      → People D
      → (List (String × String) × List ℕ) × People D
  import_rows caller [] done s = (done, s)
  import_rows caller (v ∷ vs) done s =
      let (done', s') =
        noted caller.tenant_id v (with_student caller.tenant_id v (create (dto_of v) caller s))
          done in
      import_rows caller vs done' s'

  abbrev pub reported :
      ℕ → List ℕ → (List (String × String) × List ℕ) × People D → Result ImportReport × People D
  reported total errors ((imported, failures), s) =
      (ok (record { total_rows = total; imported = imported; errors = errors ++ failures }), s)

  unfoldable pub bulk_import_users :
      Tenants → (Text → Option Text) → List ImportRow → JwtPayload → Action (People D) ImportReport
  bulk_import_users T custom rows caller s =
      let (valid, errors) = validated custom 0 rows in
      (require (is_admin caller.role) HttpError.forbidden
          >> (get_tenant_client caller.tenant_id
              >> (require (not (length rows == 0)) HttpError.bad_request
                  >> (require (length errors == 0 || not (length valid == 0)) HttpError.bad_request
                      >> (require (is_within_cap T caller.tenant_id (new_students valid))
                            HttpError.forbidden
                          >> λ t.
                              reported (length rows) errors
                                (import_rows caller valid ([], []) t))))))
        s
