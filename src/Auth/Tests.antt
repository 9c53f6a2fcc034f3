-- ===== src/Auth/Tests.antt =====
-- Sign-ins, refreshes and resets on a Redis held in memory
-- (apps/api/src/modules/auth/auth.service.ts).
use edu_lanka.Prelude.{
  String, ◌≡◌, ◌≢◌, refl, sym, ◌∙◌, true, false, Option, none, some, List, [], ◌∷◌, str_eq,
  str_eq_iff, if◌then◌else◌, arith,
}
use edu_lanka.Text.{codes}
use edu_lanka.User.{UserRole}
use edu_lanka.Http.{Result, ok, err, HttpError}
use edu_lanka.Postgrest.{found}
use edu_lanka.PostgrestMemory.{found-ne-failed}
use edu_lanka.Redis.{text, members, entry, Keyspace, applied_all, set_ex, del, rt}
use edu_lanka.Sessions.Steps.{Step, command, after_steps}
use edu_lanka.RedisMemory.{memory_redis, empty_redis}
use edu_lanka.Sessions.{
  store_commands, store_refresh_token, revoke_attempt, revoke_refresh_token, revoke_all_attempt,
  is_refresh_token_valid, revoke_all_user_refresh_tokens, get_cached_user_active, cache_user_active,
}
use edu_lanka.Sessions.Listing.{IsFresh}
use edu_lanka.Sessions.Owners.{Owners, store, specified}
use edu_lanka.Sessions.Refinement.{Reached, empty, next}
use edu_lanka.Sessions.ResetTokens.{
  is_token_string_revoked, mark_token_revoked, revoke_password_reset_tokens,
}
use edu_lanka.Auth.{
  refresh, Claims, Jwt, TokenPair, AuthConfig, FreshIds, Directory, current_plan, issue_token_pair,
  issue_again, is_user_active, rotate, refresh_verified, refresh_tokens,
}
use edu_lanka.Auth.Duration.{parse_duration_to_seconds}
use edu_lanka.Auth.Rotation.{refresh_tokens-passed, HasPassed}
use edu_lanka.Auth.SingleUse.{refresh_tokens-once, revoke_all-refuses}
use edu_lanka.Auth.Passwords.{SupabaseAuth, reset_password}
use edu_lanka.Auth.Passwords.Sessions.{reset_password-revokes}

durations : parse_duration_to_seconds (codes "15m") ≡ 900
unfolding parse_duration_to_seconds
durations = refl

days : parse_duration_to_seconds (codes "12d") ≡ 1036800
unfolding parse_duration_to_seconds
days = refl

no_duration : parse_duration_to_seconds (codes "1.5h") ≡ 604800
unfolding parse_duration_to_seconds
no_duration = refl

abbrev nimal : Claims
nimal = record {
  sub = "nimal";
  tenant_id = "royal";
  tenant_slug = none;
  tenant_plan = none;
  role = UserRole.teacher;
  email = "nimal@royal.lk";
  token_type = some refresh;
  jti = some "a";
  iat = some 0;
}

some_injective : {A : Type 0} {a b : A} → some a ≡ some b → a ≡ b
some_injective h = cc

abbrev claims_of : String → Option Claims
claims_of token = if str_eq token "token a" then some nimal else none

-- One token is known.
abbrev jwt : Jwt
jwt = record {
  verify = λ token now. claims_of token;
  verify_same = λ token t u c d h k. same_claims token c d h k;
  sign = λ c lifetime now. "token b";
}
  where
    same_claims :
        (token : String) (c d : Claims)
        → claims_of token ≡ some c
        → claims_of token ≡ some d
        → d ≡ c
    same_claims token c d h k = some_injective (sym k ∙ h)

abbrev config : AuthConfig
config = record { expires_in = codes "15m"; refresh_expires_in = codes "7d" }

abbrev ids : FreshIds
ids = record { access_jti = "b-access"; refresh_jti = "b" }

abbrev directory : Directory
directory = record {
  admin_of = λ id. found none;
  active_of = λ id. found (some (some true));
  plan_of = λ id. found (some (record { plan = some "GROWTH"; slug = some "royal-college" }));
}

abbrev signed_in : Keyspace
signed_in = applied_all 0 (store_commands "a" "nimal" 604800) empty_redis

abbrev refreshed : Result TokenPair × Keyspace
refreshed = refresh_tokens memory_redis jwt config directory ids 10 "token a" signed_in

abbrev new_pair : TokenPair
new_pair = record {
  access_token = "token b";
  refresh_token = "token b";
  expires_in = codes "15m";
  tenant_plan = some "GROWTH";
}

nimal_passes :
    (c : Claims) × (jti : String) × HasPassed memory_redis jwt config directory 10 "token a"
      signed_in c jti
    × (rotate memory_redis jwt config directory ids 10 c jti true
          (is_user_active memory_redis directory c.sub c.role 10 signed_in).1
        ≡ (ok new_pair, refreshed.1))
unfolding refresh_tokens refresh_verified is_user_active issue_again issue_token_pair current_plan
    is_refresh_token_valid get_cached_user_active cache_user_active store_refresh_token
    revoke_refresh_token revoke_attempt parse_duration_to_seconds
nimal_passes =
    refresh_tokens-passed memory_redis jwt config directory ids 10 "token a" signed_in new_pair
      refreshed.1 refl

b_ne_a : ◌≢◌ {A = String} "b" "a"
b_ne_a e = absurd (let bad : false ≡ true = (str_eq_iff "b" "a").1 e in cc)

abbrev steps : List Step
steps = command 15 (set_ex (rt "c") (text "kamala") 604800) ∷ command 16 (del (rt "b" ∷ [])) ∷ []

refresh_tokens-once_example :
    refresh_tokens memory_redis jwt config directory ids 20 "token a"
      (after_steps memory_redis steps refreshed.1)
    ≡ (err HttpError.unauthorized, after_steps memory_redis steps refreshed.1)
unfolding refresh_tokens refresh_verified is_user_active issue_again issue_token_pair current_plan
    is_refresh_token_valid get_cached_user_active cache_user_active store_refresh_token
    revoke_refresh_token revoke_attempt parse_duration_to_seconds
refresh_tokens-once_example =
    refresh_tokens-once memory_redis jwt config directory ids 10 "token a" signed_in new_pair
      refreshed.1 nimal "a" refl refl b_ne_a refl refl steps (refl, (refl, tt)) directory ids 20

empty-IsFresh : IsFresh empty_redis "a"
empty-IsFresh =
    (refl, λ u ms e h. absurd (let bad : none ≡ some (entry (members ms) (some e)) = h in cc))

abbrev owners : Owners
owners = specified 604800 0 (store "a" "nimal") (λ j. none)

signed_in-Reached : Reached memory_redis 604800 0 signed_in owners
unfolding store_refresh_token
signed_in-Reached =
    next 0 0 empty_redis (λ j. none) (store "a" "nimal")
      (empty 0 empty_redis (λ j. refl) (λ u. refl)) (omega arith) empty-IsFresh refl

revoke_all-refuses_example :
    refresh_tokens memory_redis jwt config directory ids 20 "token a"
      (after_steps memory_redis steps (revoke_all_attempt memory_redis "nimal" 10 signed_in).1)
    ≡ (
      err HttpError.unauthorized,
      after_steps memory_redis steps (revoke_all_attempt memory_redis "nimal" 10 signed_in).1,
    )
unfolding revoke_all_attempt
revoke_all-refuses_example =
    revoke_all-refuses memory_redis jwt config 604800 0 10 signed_in owners "nimal"
      signed_in-Reached (omega arith) refl "token a" 5 nimal "a" 604800 refl refl refl steps
      (refl, (refl, tt)) directory ids 20 (omega arith)

abbrev auth : SupabaseAuth
auth = record {
  Db = Unit {0};
  get_user = λ token d. some "auth-1";
  email_of = λ id d. none;
  sign_in = λ email password d. true;
  update_password = λ id password d. (true, d);
  sign_out = λ token d. d;
}

abbrev after_reset : Keyspace
after_reset = (reset_password memory_redis auth "reset token" "new" 10 signed_in tt).1.0

-- The account of `nimal` has another id in Supabase Auth, so that the token stays.
reset_password-revokes_example : is_refresh_token_valid memory_redis "a" 20 after_reset ≡ true
unfolding reset_password is_token_string_revoked revoke_all_attempt revoke_all_user_refresh_tokens
    revoke_password_reset_tokens mark_token_revoked
reset_password-revokes_example =
    reset_password-revokes memory_redis auth 604800 0 10 "reset token" "new" signed_in tt owners
      "auth-1" after_reset tt signed_in-Reached (omega arith) refl refl refl 20 "a" (omega arith)
      (λ h. found-ne-failed h)
