-- ===== src/Sessions.antt =====
-- The refresh tokens of apps/api/src/modules/redis/redis.service.ts. A method that catches what Redis
-- throws has an attempt, whose first component says whether all its commands were answered; the method
-- itself keeps the database only. All steps of one call see one time.
pub mod Keyspaces
pub mod Listing
pub mod Revoking
pub mod Owners
pub mod Refinement
pub mod ResetTokens
pub mod Races
pub mod Spared
pub mod Steps
mod Tests
use edu_lanka.Prelude.{
  ℕ, ◌+◌, ◌*◌, String, Bool, true, false, Option, none, some, List, [], ◌∷◌, map, ltb, ◌==◌, str_eq,
  if◌then◌else◌,
}
use edu_lanka.Http.{Result, ok, err, HttpError}
use edu_lanka.Postgrest.{Reply, found, failed}
use edu_lanka.Redis.{
  Redis, Value, text, number, members, Command, set_ex, sadd, srem, expire, del, Key, rt, user_rts,
  user_revoked_at, user_active, pwd_reset_user, pwd_reset_nonce, revoked_token,
}

-- `if (userId)`: a missing text and the empty one are not there.
abbrev pub given_text : Option Value → Option String
given_text none = none
given_text (some (text s)) = if str_eq s "" then none else some s
given_text (some _) = none

abbrev pub members_of : Option Value → List String
members_of (some (members ms)) = ms
members_of _ = []

abbrev pub is_there : {A : Type 0} → Option A → Bool
is_there none = false
is_there (some a) = true

module _ (R : Redis) where
  -- Awaited one after the other; the first that is refused ends it.
  abbrev pub try_next : (R.Db → Bool × R.Db) → Bool × R.Db → Bool × R.Db
  try_next k (true, db) = k db
  try_next k (false, db) = (false, db)

  abbrev pub try_all : ℕ → List Command → R.Db → Bool × R.Db
  try_all now [] db = (true, db)
  try_all now (c ∷ cs) db = try_next (try_all now cs) (R.exec now c db)

  -- A read, and what follows it.
  abbrev pub try_read :
      (Option Value → R.Db → Bool × R.Db) → Reply (Option Value) → R.Db → Bool × R.Db
  try_read k failed db = (false, db)
  try_read k (found v) db = k v db

abbrev pub store_commands : String → String → ℕ → List Command
store_commands jti user ttl =
    set_ex (rt jti) (text user) ttl ∷ sadd (user_rts user) jti ∷ expire (user_rts user) ttl ∷ []

abbrev pub revoke_commands : String → Option String → List Command
revoke_commands jti none = del (rt jti ∷ []) ∷ []
revoke_commands jti (some user) = srem (user_rts user) jti ∷ del (rt jti ∷ []) ∷ []

abbrev pub seven_days : ℕ
seven_days = 7 * 86400

abbrev pub revocation_marked : String → ℕ → List Command
revocation_marked user now =
    del (user_rts user ∷ []) ∷ set_ex (user_revoked_at user) (number now) seven_days ∷ []

abbrev pub revoke_all_commands : String → ℕ → List String → List Command
revoke_all_commands user now [] = revocation_marked user now
revoke_all_commands user now (j ∷ js) = del (map rt (j ∷ js)) ∷ revocation_marked user now

module _ (R : Redis) where
  unfoldable pub store_refresh_token : String → String → ℕ → ℕ → R.Db → Bool × R.Db
  store_refresh_token jti user ttl now db = try_all R now (store_commands jti user ttl) db

  abbrev pub exists_reply : Reply (Option Value) → Bool
  exists_reply failed = false
  exists_reply (found v) = is_there v

  unfoldable pub is_refresh_token_valid : String → ℕ → R.Db → Bool
  is_refresh_token_valid jti now db = exists_reply (R.read now (rt jti) db)

  abbrev pub revoke_found : String → ℕ → Option Value → R.Db → Bool × R.Db
  revoke_found jti now v db = try_all R now (revoke_commands jti (given_text v)) db

  unfoldable pub revoke_attempt : String → ℕ → R.Db → Bool × R.Db
  revoke_attempt jti now db = try_read R (revoke_found jti now) (R.read now (rt jti) db) db

  unfoldable pub revoke_refresh_token : String → ℕ → R.Db → R.Db
  unfolding revoke_attempt
  revoke_refresh_token jti now db = (revoke_attempt jti now db).1

  abbrev pub revoke_all_found : String → ℕ → Option Value → R.Db → Bool × R.Db
  revoke_all_found user now v db = try_all R now (revoke_all_commands user now (members_of v)) db

  unfoldable pub revoke_all_attempt : String → ℕ → R.Db → Bool × R.Db
  revoke_all_attempt user now db =
      try_read R (revoke_all_found user now) (R.read now (user_rts user) db) db

  unfoldable pub revoke_all_user_refresh_tokens : String → ℕ → R.Db → R.Db
  unfolding revoke_all_attempt
  revoke_all_user_refresh_tokens user now db = (revoke_all_attempt user now db).1

  -- `iat` is missing or 0: the token is not revoked. The key holds a number of seconds.
  abbrev pub revoked_after : ℕ → Reply (Option Value) → Bool
  revoked_after iat (found (some (number at))) = ltb iat at
  revoked_after iat _ = false

  unfoldable pub is_token_revoked : String → Option ℕ → ℕ → R.Db → Bool
  is_token_revoked user none now db = false
  is_token_revoked user (some iat) now db =
      if iat == 0 then false else revoked_after iat (R.read now (user_revoked_at user) db)

  unfoldable pub cache_user_active : String → Bool → ℕ → ℕ → R.Db → R.Db
  cache_user_active user active ttl now db =
      (R.exec now (set_ex (user_active user) (text (if active then "1" else "0")) ttl) db).1

  abbrev pub cached_active : Reply (Option Value) → Option Bool
  cached_active (found (some (text s))) = some (str_eq s "1")
  cached_active (found (some _)) = some false
  cached_active _ = none

  unfoldable pub get_cached_user_active : String → ℕ → R.Db → Option Bool
  get_cached_user_active user now db = cached_active (R.read now (user_active user) db)

  unfoldable pub invalidate_user_active_cache : String → ℕ → R.Db → R.Db
  invalidate_user_active_cache user now db = (R.exec now (del (user_active user ∷ [])) db).1
