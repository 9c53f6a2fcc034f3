-- ===== src/Auth.antt =====
-- The token pairs of `AuthService` (apps/api/src/modules/auth/auth.service.ts) and the check of access
-- tokens by `JwtStrategy` (apps/api/src/modules/auth/strategies/jwt.strategy.ts). The signing of tokens
-- (@nestjs/jwt), the random ids and the replies of the tables that are only read are parameters.
pub mod Duration
pub mod Strategy
pub mod Rotation
pub mod SingleUse
pub mod Passwords
pub mod Registration
pub mod Login
mod Tests
use edu_lanka.Prelude.{ℕ, ◌≡◌, String, Bool, true, false, Option, none, some, str_eq, if◌then◌else◌}
use edu_lanka.Http.{Result, ok, err, HttpError, Action, ◌>>=◌, ◌>>◌, return, throw, require}
use edu_lanka.Postgrest.{Reply, found, failed}
use edu_lanka.User.{UserRole, is_super_admin}
use edu_lanka.Text.{Text}
use edu_lanka.Redis.{Redis}
use edu_lanka.Sessions.{
  is_refresh_token_valid, store_refresh_token, revoke_refresh_token, is_token_revoked,
  get_cached_user_active, cache_user_active,
}
use edu_lanka.Auth.Duration.{parse_duration_to_seconds}

pub data TokenType : Type 0 where
  access refresh : TokenType

-- `JwtPayload`; the role of a token is always given.
pub record Claims : Type 0 where
  pub sub : String
  pub tenant_id : String
  pub tenant_slug : Option String
  pub tenant_plan : Option String
  pub role : UserRole
  pub email : String
  pub token_type : Option TokenType
  pub jti : Option String
  pub iat : Option ℕ

-- `verifyAsync` at a time, or nothing if it throws, and `signAsync` with a lifetime, at a time. What a
-- token says does not change.
pub record Jwt : Type 0 where
  pub verify : String → ℕ → Option Claims
  pub verify_same :
      (token : String) (t u : ℕ) (c d : Claims)
      → verify token t ≡ some c
      → verify token u ≡ some d
      → d ≡ c
  pub sign : Claims → ℕ → ℕ → String

pub record TokenPair : Type 0 where
  pub access_token : String
  pub refresh_token : String
  pub expires_in : Text
  pub tenant_plan : Option String

-- `jwt.expiresIn` and `jwt.refreshExpiresIn`.
pub record AuthConfig : Type 0 where
  pub expires_in : Text
  pub refresh_expires_in : Text

-- `randomUUID()`, for the two tokens of a pair.
pub record FreshIds : Type 0 where
  pub access_jti : String
  pub refresh_jti : String

-- The columns `plan` and `slug` of a tenant.
pub record TenantPlan : Type 0 where
  pub plan : Option String
  pub slug : Option String

-- The replies of `platform_admins`, `users` and `tenants` by id. A missing `is_active` is none.
pub record Directory : Type 0 where
  pub admin_of : String → Reply (Option String)
  pub active_of : String → Reply (Option (Option Bool))
  pub plan_of : String → Reply (Option TenantPlan)

abbrev is_given : {A : Type 0} → Option A → Bool
is_given none = false
is_given (some a) = true

-- `Boolean(data?.is_active)`.
abbrev pub is_true : Option (Option Bool) → Bool
is_true (some (some b)) = b
is_true _ = false

-- `jti` that is missing or empty.
abbrev pub given_id : Option String → Option String
given_id none = none
given_id (some j) = if str_eq j "" then none else some j

-- `tenantPlan || 'COMMUNITY'`.
abbrev pub plan_or_community : Option String → String
plan_or_community none = "COMMUNITY"
plan_or_community (some p) = if str_eq p "" then "COMMUNITY" else p

abbrev pub is_refresh : Option TokenType → Bool
is_refresh (some refresh) = true
is_refresh _ = false

-- The tenant's plan and slug now, or those of the token.
abbrev with_plan : Claims → Reply (Option TenantPlan) → Claims
with_plan c (found (some p)) = record c { tenant_plan = p.plan; tenant_slug = p.slug }
with_plan c _ = c

unfoldable pub current_plan : Directory → Claims → Claims
current_plan D c = if str_eq c.tenant_id "" then c else with_plan c (D.plan_of c.tenant_id)

abbrev pub refresh_claims : FreshIds → Claims → Claims
refresh_claims ids c = record c { token_type = some refresh; jti = some ids.refresh_jti }

abbrev pub signed_pair : Jwt → AuthConfig → FreshIds → ℕ → Claims → TokenPair
signed_pair J conf ids now c =
    let access_ex = parse_duration_to_seconds conf.expires_in in
    let refresh_ex = parse_duration_to_seconds conf.refresh_expires_in in
    let access_claims = record c { token_type = some access; jti = some ids.access_jti } in
    record {
      access_token = J.sign access_claims access_ex now;
      refresh_token = J.sign (refresh_claims ids c) refresh_ex now;
      expires_in = conf.expires_in;
      tenant_plan = none;
    }

-- The claims of the pair that replaces a token.
abbrev pub renewed : Claims → Claims
renewed c = record c {
  tenant_plan = some (plan_or_community c.tenant_plan);
  token_type = none;
  jti = none;
  iat = none;
}

module _ (R : Redis) where
  abbrev pub stored_or_throw : TokenPair → Bool × R.Db → Result TokenPair × R.Db
  stored_or_throw p (true, db) = (ok p, db)
  stored_or_throw p (false, db) = (err HttpError.thrown, db)

  unfoldable pub issue_token_pair : Jwt → AuthConfig → FreshIds → ℕ → Claims → Action R.Db TokenPair
  issue_token_pair J conf ids now c db = stored_or_throw (signed_pair J conf ids now c) (
      store_refresh_token R ids.refresh_jti c.sub
        (parse_duration_to_seconds conf.refresh_expires_in) now db)

  abbrev cached_after : String → ℕ → Bool → Action R.Db Bool
  cached_after user now active db = (ok active, cache_user_active R user active 60 now db)

  abbrev pub admin_active : String → ℕ → Reply (Option String) → Action R.Db Bool
  admin_active user now failed = throw HttpError.service_unavailable
  admin_active user now (found o) = cached_after user now (is_given o)

  abbrev pub user_active : String → ℕ → Reply (Option (Option Bool)) → Action R.Db Bool
  user_active user now failed = throw HttpError.service_unavailable
  user_active user now (found o) = cached_after user now (is_true o)

  abbrev pub looked_up : Directory → String → UserRole → ℕ → Option Bool → Action R.Db Bool
  looked_up D user role now (some b) = return b
  looked_up D user role now none =
      if is_super_admin role
      then admin_active user now (D.admin_of user)
      else user_active user now (D.active_of user)

  unfoldable pub is_user_active : Directory → String → UserRole → ℕ → Action R.Db Bool
  is_user_active D user role now db =
      looked_up D user role now (get_cached_user_active R user now db) db

  -- The new pair, once the old token is revoked.
  abbrev pub with_pair_plan : Claims → TokenPair → TokenPair
  with_pair_plan c p = record p { tenant_plan = some (plan_or_community c.tenant_plan) }

  unfoldable pub issue_again : Jwt → AuthConfig → FreshIds → ℕ → Claims → Action R.Db TokenPair
  issue_again J conf ids now c =
      issue_token_pair J conf ids now (renewed c) >>= λ p. return (with_pair_plan c p)

  abbrev pub rotate :
      Jwt → AuthConfig → Directory → FreshIds → ℕ → Claims → String → Bool → Action R.Db TokenPair
  rotate J conf D ids now c jti true db =
      issue_again J conf ids now (current_plan D c) (revoke_refresh_token R jti now db)
  rotate J conf D ids now c jti false db =
      (err HttpError.unauthorized, revoke_refresh_token R jti now db)

  unfoldable pub refresh_verified :
      Jwt → AuthConfig → Directory → FreshIds → ℕ → Claims → Option String → Action R.Db TokenPair
  refresh_verified J conf D ids now c none db = (err HttpError.unauthorized, db)
  refresh_verified J conf D ids now c (some jti) db =
      (require (is_refresh_token_valid R jti now db) HttpError.unauthorized
          >> is_user_active D c.sub c.role now
          >>= rotate J conf D ids now c jti)
        db

  abbrev pub refresh_decoded :
      Jwt → AuthConfig → Directory → FreshIds → ℕ → Option Claims → Action R.Db TokenPair
  refresh_decoded J conf D ids now none = throw HttpError.unauthorized
  refresh_decoded J conf D ids now (some c) =
      require (is_refresh c.token_type) HttpError.unauthorized
      >> refresh_verified J conf D ids now c (given_id c.jti)

  unfoldable pub refresh_tokens :
      Jwt → AuthConfig → Directory → FreshIds → ℕ → String → Action R.Db TokenPair
  refresh_tokens J conf D ids now token = refresh_decoded J conf D ids now (J.verify token now)

  abbrev revoke_claimed : ℕ → Option String → R.Db → R.Db
  revoke_claimed now none db = db
  revoke_claimed now (some jti) db = revoke_refresh_token R jti now db

  abbrev claimed_id : Option Claims → Option String
  claimed_id none = none
  claimed_id (some c) = given_id c.jti

  unfoldable pub logout : Jwt → ℕ → String → R.Db → R.Db
  logout J now token db =
      if str_eq token "" then db else revoke_claimed now (claimed_id (J.verify token now)) db
