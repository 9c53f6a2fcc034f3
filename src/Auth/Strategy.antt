-- ===== src/Auth/Strategy.antt =====
-- `JwtStrategy.validate` (apps/api/src/modules/auth/strategies/jwt.strategy.ts): the check of every
-- request's access token, after that of its signature.
use edu_lanka.Prelude.{ℕ, ◌+◌, ◌*◌, Bool, true, false, Option, none, some, leb, if◌then◌else◌}
use edu_lanka.Http.{HttpError, Action, ◌>>=◌, ◌>>◌, return, require}
use edu_lanka.Redis.{Redis}
use edu_lanka.Sessions.{is_token_revoked}
use edu_lanka.Auth.{TokenType, access, refresh, Claims, Directory, is_user_active}

abbrev pub one_week : ℕ
one_week = 7 * 24 * 60 * 60

-- The type of a token that the strategy lets pass.
abbrev pub passes_type : ℕ → ℕ → Option TokenType → Bool
passes_type deployed now none = if leb (deployed + one_week) now then false else true
passes_type deployed now (some access) = true
passes_type deployed now (some refresh) = false

module _ (R : Redis) where
  unfoldable pub validate : Directory → ℕ → ℕ → Claims → Action R.Db Claims
  validate D deployed now c db =
      (require (passes_type deployed now c.token_type) HttpError.unauthorized
          >> require (if is_token_revoked R c.sub c.iat now db then false else true)
              HttpError.unauthorized
          >> is_user_active R D c.sub c.role now
          >>= λ active. require active HttpError.unauthorized >> return c)
        db
