-- ===== src/Auth/Registration.antt =====
-- `signup` and `selfRegister` (apps/api/src/modules/auth/auth.service.ts).
pub mod Settled
pub mod Profiles
mod Tests
use edu_lanka.Prelude.{
  ℕ, String, Bool, true, false, not, ◌&&◌, ◌||◌, Option, none, some, leb, str_eq, if◌then◌else◌,
}
use edu_lanka.Http.{Result, ok, err, HttpError, Action, ◌>>=◌, ◌>>◌, return, throw, require}
use edu_lanka.Postgrest.{Reply, found, failed}
use edu_lanka.Text.{Text, codes, to_lower, includes}
use edu_lanka.User.{UserRole, role_eq, JwtPayload, is_super_admin}
use edu_lanka.Auth.{
  Claims, Jwt, AuthConfig, FreshIds, TokenPair, issue_token_pair, plan_or_community,
}
use edu_lanka.Accounts.{Account, Profile, AccountStores, People, add_user, delete_account}

-- `SignupDto`; a missing tenant is the empty text.
pub record SignupDto : Type 0 where
  pub email : String
  pub password : String
  pub full_name : String
  pub tenant_id : String
  pub role : UserRole

pub record TenantRow : Type 0 where
  pub status : String
  pub plan : Option String
  pub slug : Option String

-- The replies of `tenants` by id, of the policy of a school on self-enrollment, and how many of its
-- students are active.
pub record Schools : Type 0 where
  pub tenant_of : String → Reply (Option TenantRow)
  pub self_enrollment_of : String → Reply (Option (Option Bool))
  pub active_students : String → Reply ℕ

-- The signing of tokens, the ids and the time of one call.
pub record Issuer : Type 0 where
  pub jwt : Jwt
  pub config : AuthConfig
  pub ids : FreshIds
  pub now : ℕ

-- What a sign-in answers: the tokens, and the user.
pub record SignedIn : Type 0 where
  pub tokens : TokenPair
  pub user_id : String
  pub role : UserRole
  pub tenant_id : String
  pub tenant_plan : Option String
  pub tenant_slug : Option String

abbrev pub is_school_admin : UserRole → Bool
is_school_admin r = role_eq r UserRole.school_admin

-- The roles that an administrator of a school may give.
abbrev pub is_of_school : UserRole → Bool
is_of_school r =
    role_eq r UserRole.teacher
    || role_eq r UserRole.student
    || role_eq r UserRole.parent
    || role_eq r UserRole.school_admin

abbrev pub may_provision : UserRole → UserRole → Bool
may_provision caller role =
    (is_super_admin caller || not (is_super_admin role))
    && (not (is_school_admin caller) || is_of_school role)

-- The texts of the two exceptions for an account that could not be made.
abbrev pub creation_error : Text → HttpError
creation_error message =
    if includes (to_lower message) (codes "already")
    then HttpError.bad_request
    else HttpError.internal_error

abbrev pub account_of : SignupDto → Option String → String → Account
account_of dto tenant id = record {
  id = id;
  email = some dto.email;
  phone = none;
  tenant_id = tenant;
}

abbrev pub profile_of : SignupDto → Option String → String → String → Profile
profile_of dto tenant uid id = record {
  id = id;
  user_id = uid;
  tenant_id = tenant;
  email = some dto.email;
  phone_number = none;
  full_name = dto.full_name;
  role = dto.role;
  is_active = true;
}

abbrev pub plan_row : Reply (Option TenantRow) → Option String
plan_row (found (some t)) = t.plan
plan_row _ = none

abbrev pub slug_row : Reply (Option TenantRow) → Option String
slug_row (found (some t)) = t.slug
slug_row _ = none

abbrev pub is_community_plan : Option String → Bool
is_community_plan none = false
is_community_plan (some p) = str_eq p "COMMUNITY"

abbrev pub has_75 : Reply ℕ → Bool
has_75 failed = false
has_75 (found n) = leb 75 n

abbrev pub is_closed : Reply (Option (Option Bool)) → Bool
is_closed (found (some (some b))) = not b
is_closed _ = false

abbrev pub new_claims : SignupDto → String → Option String → Option String → String → Claims
new_claims dto tenant plan slug id = record {
  sub = id;
  tenant_id = tenant;
  tenant_slug = slug;
  tenant_plan = plan;
  role = dto.role;
  email = dto.email;
  token_type = none;
  jti = none;
  iat = none;
}

abbrev pub signed_up : Claims → TokenPair → SignedIn
signed_up c p = record {
  tokens = p;
  user_id = c.sub;
  role = c.role;
  tenant_id = c.tenant_id;
  tenant_plan = c.tenant_plan;
  tenant_slug = c.tenant_slug;
}

abbrev pub may_register : UserRole → Bool
may_register r =
    role_eq r UserRole.student
    || role_eq r UserRole.parent
    || role_eq r UserRole.independent_learner

module _ (D : AccountStores) (schools : Schools) where
  abbrev pub active_tenant : Reply (Option TenantRow) → Action (People D) (Unit {0})
  active_tenant (found (some t)) = require (str_eq t.status "ACTIVE") HttpError.unauthorized
  active_tenant _ = throw HttpError.not_found

  -- 23505: the email exists in the tenant.
  abbrev pub conflict_or_internal : D.Profiles.Db → HttpError
  conflict_or_internal db =
      if str_eq (D.error_code db) "23505" then HttpError.conflict else HttpError.internal_error

  abbrev pub add_signup :
      SignupDto → Option String → (D.Profiles.Db → HttpError) → Action (People D) (String × String)
  add_signup dto tenant error =
      add_user D (account_of dto tenant) dto.password creation_error (delete_account D)
        (profile_of dto tenant) error

  unfoldable pub signup : SignupDto → JwtPayload → Action (People D) (String × String)
  signup dto caller =
      require (is_super_admin caller.role || str_eq caller.tenant_id dto.tenant_id)
        HttpError.forbidden
      >> (require (may_provision caller.role dto.role) HttpError.forbidden
          >> (active_tenant (schools.tenant_of dto.tenant_id)
              >> add_signup dto (some dto.tenant_id) conflict_or_internal))

  abbrev pub kept_tokens : People D → Result TokenPair × D.Tokens.Db → Result TokenPair × People D
  kept_tokens s (r, db) = (r, record s { redis = db })

  abbrev pub issue_tokens : Issuer → Claims → Action (People D) TokenPair
  issue_tokens i c s =
      kept_tokens s (issue_token_pair D.Tokens i.jwt i.config i.ids i.now c s.redis)

  abbrev pub issue_new : Issuer → Claims → Action (People D) SignedIn
  issue_new i c = issue_tokens i c >>= λ p. return (signed_up c p)

  -- The profile of an independent learner; without it, the row and the account are taken back.
  abbrev pub learner_added :
      String → String → People D → Reply String × D.Learners.Db → Result (Unit {0}) × People D
  learner_added uid id s (found l, db) = (ok tt, record s { learners = db })
  learner_added uid id s (failed, db) = (
    err HttpError.internal_error,
    delete_account D uid
        (record s { learners = db; users = (D.Profiles.remove (λ r. str_eq r.id id) s.users).1 }),
  )

  abbrev pub add_learner : String → String → Action (People D) (Unit {0})
  add_learner uid id s = learner_added uid id s (
      D.Learners.insert
        (λ l. record { id = l; user_id = id; plan = "FREE_INDIVIDUAL"; is_active = true })
        s.learners)

  abbrev pub internal : D.Profiles.Db → HttpError
  internal db = HttpError.internal_error

  abbrev pub register_learner : Issuer → SignupDto → Action (People D) SignedIn
  register_learner i dto = add_signup dto none internal >>= λ (uid, id).
      add_learner uid id
      >> issue_new i (new_claims dto "" (some "FREE_INDIVIDUAL") (some "independent") id)

  -- The row of `students` or `parents`; a refused insert is not an exception, and is dropped.
  abbrev pub add_role_profile : SignupDto → String → String → People D → People D
  add_role_profile dto admission_no uid s =
      let as_student : People D = record s {
        students =
            (D.Students.insert
              (λ r. record {
                id = r;
                tenant_id = dto.tenant_id;
                user_id = uid;
                admission_no = admission_no;
                class_id = none;
              })
              s.students).1;
      } in
      let as_parent : People D = record s {
        parents =
            (D.Parents.insert (λ r. record { id = r; tenant_id = dto.tenant_id; user_id = uid })
              s.parents).1;
      } in
      if role_eq dto.role UserRole.student
      then as_student
      else if role_eq dto.role UserRole.parent
      then as_parent
      else s

  -- A community school that is full takes no more students.
  abbrev pub is_over_cap : SignupDto → Bool
  is_over_cap dto =
      role_eq dto.role UserRole.student
      && (is_community_plan (plan_row (schools.tenant_of dto.tenant_id))
          && has_75 (schools.active_students dto.tenant_id))

  abbrev pub register_in_school : Issuer → SignupDto → String → Action (People D) SignedIn
  register_in_school i dto admission_no =
      active_tenant (schools.tenant_of dto.tenant_id)
      >> (require (not (is_closed (schools.self_enrollment_of dto.tenant_id))) HttpError.forbidden
          >> (require (not (is_over_cap dto)) HttpError.forbidden
              >> (add_signup dto (some dto.tenant_id) internal >>= λ (uid, id) s.
                  issue_new i
                    (new_claims dto dto.tenant_id
                      (some (plan_or_community (plan_row (schools.tenant_of dto.tenant_id))))
                      (slug_row (schools.tenant_of dto.tenant_id)) id)
                    (add_role_profile dto admission_no uid s))))

  unfoldable pub self_register : Issuer → SignupDto → String → Action (People D) SignedIn
  self_register i dto admission_no =
      require (may_register dto.role) HttpError.forbidden
      >> (if role_eq dto.role UserRole.independent_learner
          then register_learner i dto
          else register_in_school i dto admission_no)
