-- ===== src/Auth/Login.antt =====
-- `login` and `resolveTenantUser` (apps/api/src/modules/auth/auth.service.ts). Supabase Auth's answer to
-- a sign-in, and the replies of the tables, which are only read, are parameters; the tenant of a request
-- is given without white space around it, and a missing one is the empty text.
pub mod Attempts
pub mod Limit
pub mod Tenantless
mod Tests
use edu_lanka.Prelude.{
  ℕ, String, Bool, true, false, not, ◌&&◌, ◌||◌, Option, none, some, List, [], ◌∷◌, leb, ◌==◌,
  str_eq, if◌then◌else◌,
}
use edu_lanka.Http.{Result, ok, err, HttpError, Action, resume, ◌>>=◌, ◌>>◌, return, throw, require}
use edu_lanka.Postgrest.{Reply, found, failed}
use edu_lanka.Text.{Text, codes, to_lower, trim, includes}
use edu_lanka.Uuid.{is_uuid}
use edu_lanka.User.{UserRole}
use edu_lanka.Redis.{Redis, Value, number, expire, del, Key, login_attempts}
use edu_lanka.Auth.{Claims, TokenPair, given_id, plan_or_community, issue_token_pair}
use edu_lanka.Accounts.{Account}
use edu_lanka.Auth.Registration.{Issuer, SignedIn, TenantRow, signed_up}

-- What `signInWithPassword` is given beside the password.
pub data Credential : Type 0 where
  by_email : String → Credential
  by_phone : Option String → Credential

-- The email and the phone number of a user that an identifier names.
pub record Match : Type 0 where
  pub email : Option String
  pub phone_number : Option String

pub record Member : Type 0 where
  pub id : String
  pub role : UserRole
  pub is_active : Bool

pub record Administrator : Type 0 where
  pub id : String
  pub role : UserRole

-- The replies to the queries: `tenants` by slug and by id, `users` by phone number and `students` by
-- admission number (in a tenant, if one is given), `platform_admins` and `users` by account. A student
-- may come without a user.
pub record Lookups : Type 0 where
  pub sign_in : Credential → String → Option Account
  pub tenant_by_slug : String → Reply (Option String)
  pub phone_matches : String → Option String → Reply (List Match)
  pub student_matches : String → Option String → Reply (List (Option Match))
  pub admin_of : String → Reply (Option Administrator)
  pub tenant_of : String → Reply (Option TenantRow)
  pub member_of : String → String → Reply (Option Member)
  pub system_tenant : String

-- Whom to sign in: one credential, or all of several users that the identifier names.
pub data Candidates : Type 0 where
  one_credential : Credential → Candidates
  each_of : List Match → Candidates

-- How a sign-in ends.
pub data Outcome : Type 0 where
  denied ambiguous : Outcome
  signed : Account → Outcome

abbrev pub credential_of : Match → Credential
credential_of m = by_given m.phone_number (given_id m.email)
  where
    by_given : Option String → Option String → Credential
    by_given phone none = by_phone phone
    by_given phone (some e) = by_email e

-- A student's user, or else the identifier as a phone number.
abbrev pub student_credential : String → Option Match → Credential
student_credential identifier none = by_phone (some identifier)
student_credential identifier (some m) = by_known (given_id m.email) (given_id m.phone_number)
  where
    by_known : Option String → Option String → Credential
    by_known (some e) phone = by_email e
    by_known none (some p) = by_phone (some p)
    by_known none none = by_phone (some identifier)

abbrev pub known_users : List (Option Match) → List Match
known_users [] = []
known_users (none ∷ ms) = known_users ms
known_users (some m ∷ ms) = m ∷ known_users ms

abbrev pub of_students : String → Option String → Reply (List (Option Match)) → Candidates
of_students identifier tenant (found (m ∷ [])) = one_credential (student_credential identifier m)
of_students identifier (some t) (found (m ∷ _ ∷ _)) =
    one_credential (student_credential identifier m)
of_students identifier none (found (m ∷ n ∷ ms)) = each_of (known_users (m ∷ n ∷ ms))
of_students identifier tenant _ = one_credential (by_phone (some identifier))

abbrev pub of_phones : Option String → Reply (List Match) → Candidates → Candidates
of_phones tenant (found (m ∷ [])) other = one_credential (credential_of m)
of_phones (some t) (found (m ∷ _ ∷ _)) other = one_credential (credential_of m)
of_phones none (found (m ∷ n ∷ ms)) other = each_of (m ∷ n ∷ ms)
of_phones tenant _ other = other

-- The accounts among the candidates that the password opens.
abbrev pub opened_by : (Credential → String → Option Account) → String → List Match → List Account
opened_by sign_in password [] = []
opened_by sign_in password (m ∷ ms) =
    with_opened (sign_in (credential_of m) password) (opened_by sign_in password ms)
  where
    with_opened : Option Account → List Account → List Account
    with_opened none rest = rest
    with_opened (some a) rest = a ∷ rest

abbrev pub outcome_of : List Account → Outcome
outcome_of [] = denied
outcome_of (a ∷ []) = signed a
outcome_of (_ ∷ _ ∷ _) = ambiguous

abbrev pub outcome_of_one : Option Account → Outcome
outcome_of_one none = denied
outcome_of_one (some a) = signed a

abbrev pub attempts_key : String → Key
attempts_key identifier = login_attempts (trim (to_lower (codes identifier)))

abbrev pub has_used_up : Reply (Option Value) → Bool
has_used_up (found (some (number n))) = leb 5 n
has_used_up _ = false

-- `authUser.email ?? authUser.phone ?? identifier`.
abbrev pub contact : Option String → Option String → String → String
contact (some e) phone identifier = e
contact none (some p) identifier = p
contact none none identifier = identifier

module _ (L : Lookups) where
  abbrev pub by_slug : Reply (Option String) → Result (Option String)
  by_slug (found (some id)) = if str_eq id "" then err HttpError.not_found else ok (some id)
  by_slug _ = err HttpError.not_found

  -- The id of the tenant that the request names, if it names one.
  unfoldable pub resolved_tenant : String → Result (Option String)
  resolved_tenant tenant =
      if str_eq tenant ""
      then ok none
      else if is_uuid tenant
      then ok (some tenant)
      else by_slug (L.tenant_by_slug tenant)

  unfoldable pub candidates : String → Option String → Candidates
  candidates identifier tenant =
      if includes (codes identifier) (codes "@")
      then one_credential (by_email identifier)
      else of_phones tenant (L.phone_matches identifier tenant)
          (of_students identifier tenant (L.student_matches identifier tenant))

  abbrev pub tried : String → Candidates → Outcome
  tried password (one_credential c) = outcome_of_one (L.sign_in c password)
  tried password (each_of ms) = outcome_of (opened_by L.sign_in password ms)

  unfoldable pub authenticate : String → String → Option String → Outcome
  unfolding candidates
  authenticate identifier password tenant = tried password (candidates identifier tenant)

  abbrev pub member_in : TenantRow → Reply (Option Member) → Result (Member × TenantRow)
  member_in t (found (some m)) = if m.is_active then ok (m, t) else err HttpError.unauthorized
  member_in t _ = err HttpError.unauthorized

  abbrev pub in_tenant : String → String → Reply (Option TenantRow) → Result (Member × TenantRow)
  in_tenant tenant uid (found (some t)) =
      if str_eq t.status "ACTIVE"
      then member_in t (L.member_of tenant uid)
      else err HttpError.unauthorized
  in_tenant tenant uid _ = err HttpError.not_found

  unfoldable pub resolve_tenant_user : String → String → Result (Member × TenantRow)
  resolve_tenant_user tenant uid = in_tenant tenant uid (L.tenant_of tenant)

  abbrev pub is_other : Option String → String → Bool
  is_other none tenant = false
  is_other (some t) tenant = not (str_eq tenant t)

  abbrev pub member_claims : String → Account → String → Result (Member × TenantRow) → Result Claims
  member_claims identifier a tenant (ok (m, t)) = ok (record {
    sub = m.id;
    tenant_id = tenant;
    tenant_slug = t.slug;
    tenant_plan = some (plan_or_community t.plan);
    role = m.role;
    email = contact a.email a.phone identifier;
    token_type = none;
    jti = none;
    iat = none;
  })
  member_claims identifier a tenant (err e) = err e

  -- The tenant of an account is that of its metadata.
  abbrev pub claims_in : String → Option String → Account → Option String → Result Claims
  claims_in identifier tenant a none = err HttpError.unauthorized
  claims_in identifier tenant a (some own) =
      if is_other tenant own
      then err HttpError.unauthorized
      else member_claims identifier a own (resolve_tenant_user own a.id)

  abbrev pub claims_for :
      String → Option String → Account → Reply (Option Administrator) → Result Claims
  claims_for identifier tenant a (found (some admin)) = ok (record {
    sub = admin.id;
    tenant_id = L.system_tenant;
    tenant_slug = none;
    tenant_plan = some "INSTITUTIONAL";
    role = admin.role;
    email = contact a.email a.phone identifier;
    token_type = none;
    jti = none;
    iat = none;
  })
  claims_for identifier tenant a _ = claims_in identifier tenant a (given_id a.tenant_id)

  module _ (R : Redis) where
    -- The first failure starts the minute; what Redis refuses is dropped.
    abbrev pub failure_counted : Key → ℕ → Reply ℕ × R.Db → R.Db
    failure_counted key now (found n, db) = if n == 1 then (R.exec now (expire key 60) db).1 else db
    failure_counted key now (failed, db) = db

    unfoldable pub record_failure : Key → ℕ → R.Db → R.Db
    record_failure key now db = failure_counted key now (R.incr now key db)

    abbrev pub issued : Issuer → Result Claims → Action R.Db SignedIn
    issued i (ok c) =
        issue_token_pair R i.jwt i.config i.ids i.now c >>= λ p. return (signed_up c p)
    issued i (err e) = throw e

    abbrev pub concluded : Issuer → String → Option String → Outcome → Action R.Db SignedIn
    concluded i identifier tenant denied db =
        (err HttpError.unauthorized, record_failure (attempts_key identifier) i.now db)
    concluded i identifier tenant ambiguous db = (err HttpError.bad_request, db)
    concluded i identifier tenant (signed a) db =
        issued i (claims_for identifier tenant a (L.admin_of a.id))
          (R.exec i.now (del (attempts_key identifier ∷ [])) db).1

    abbrev pub attempted : Issuer → String → String → Result (Option String) → Action R.Db SignedIn
    attempted i identifier password (err e) db = (err e, db)
    attempted i identifier password (ok tenant) db =
        if has_used_up (R.read i.now (attempts_key identifier) db)
        then (err HttpError.too_many_requests, db)
        else concluded i identifier tenant (authenticate identifier password tenant) db

    unfoldable pub login : Issuer → String → String → String → Action R.Db SignedIn
    login i identifier password tenant =
        require (not (str_eq identifier "" || str_eq password "")) HttpError.bad_request
        >> attempted i identifier password (resolved_tenant tenant)
