-- ===== src/Redis/Keys.antt =====
-- The keys that the API uses in Redis: one constructor for each prefix.
use edu_lanka.Prelude.{ℕ, ◌≡◌, refl, String, Bool, true, ◌&&◌, ◌==◌, str_eq, str_eq_refl}
use edu_lanka.Text.{Text, same, same_iff}

pub data Key : Type 0 where
  rt user_rts user_revoked_at user_active pwd_reset_user pwd_reset_nonce revoked_token :
      String → Key
  -- edulanka:ai:daily:{user}:{day} and edulanka:ai:monthly_tokens:{user}:{month}
  ai_daily ai_monthly_tokens : String → String → Key
  -- edulanka:ratelimit:login:{identifier}
  login_attempts : Text → Key

abbrev kind : Key → ℕ
kind (rt s) = 0
kind (user_rts s) = 1
kind (user_revoked_at s) = 2
kind (user_active s) = 3
kind (pwd_reset_user s) = 4
kind (pwd_reset_nonce s) = 5
kind (revoked_token s) = 6
kind (ai_daily s d) = 7
kind (ai_monthly_tokens s m) = 8
kind (login_attempts t) = 9

abbrev name : Key → String
name (rt s) = s
name (user_rts s) = s
name (user_revoked_at s) = s
name (user_active s) = s
name (pwd_reset_user s) = s
name (pwd_reset_nonce s) = s
name (revoked_token s) = s
name (ai_daily s d) = s
name (ai_monthly_tokens s m) = s
name (login_attempts t) = ""

abbrev period : Key → String
period (ai_daily s d) = d
period (ai_monthly_tokens s m) = m
period _ = ""

abbrev pub key_eq : Key → Key → Bool
key_eq (login_attempts t) (login_attempts u) = same t u
key_eq j k = kind j == kind k && (str_eq (period j) (period k) && str_eq (name j) (name k))

pub key_eq_refl : (k : Key) → key_eq k k ≡ true
key_eq_refl (rt s) = str_eq_refl s
key_eq_refl (user_rts s) = str_eq_refl s
key_eq_refl (user_revoked_at s) = str_eq_refl s
key_eq_refl (user_active s) = str_eq_refl s
key_eq_refl (pwd_reset_user s) = str_eq_refl s
key_eq_refl (pwd_reset_nonce s) = str_eq_refl s
key_eq_refl (revoked_token s) = str_eq_refl s
key_eq_refl (ai_daily s d) = rw (str_eq_refl d) (str_eq_refl s)
key_eq_refl (ai_monthly_tokens s m) = rw (str_eq_refl m) (str_eq_refl s)
key_eq_refl (login_attempts t) = (same_iff t t).1 refl
