-- ===== src/Users/Tests.antt =====
-- Activations on tables and a Redis held in memory (apps/api/src/modules/users/users.service.ts).
use edu_lanka.Prelude.{ℕ, ◌≡◌, ◌≢◌, refl, sym, ◌∙◌, true, false, none, some, List, [], ◌∷◌, arith}
use edu_lanka.Text.{codes, trim}
use edu_lanka.Uuid.{is_uuid}
use edu_lanka.Http.{Result, ok, err, HttpError}
use edu_lanka.Postgrest.{found}
use edu_lanka.PostgrestMemory.{memory_table, at_most_one, update_at_most_one}
use edu_lanka.User.{UserRole, JwtPayload, role_eq}
use edu_lanka.Redis.{text, members, entry, Keyspace, applied_all, set_ex, del, rt, login_attempts}
use edu_lanka.Sessions.Steps.{Step, command, increment, after_steps}
use edu_lanka.Users.Requests.{Event, request, other, after_events}
use edu_lanka.RedisMemory.{memory_redis, empty_redis}
use edu_lanka.Sessions.{
  store_commands, store_refresh_token, revoke_all_attempt, cache_user_active,
  get_cached_user_active, is_token_revoked,
}
use edu_lanka.Sessions.Listing.{IsFresh}
use edu_lanka.Sessions.Owners.{Owners, store, specified}
use edu_lanka.Sessions.Refinement.{Reached, empty, next}
use edu_lanka.Auth.{
  refresh, access, Claims, Jwt, AuthConfig, FreshIds, Directory, is_user_active, refresh_tokens,
}
use edu_lanka.Auth.Strategy.{validate}
use edu_lanka.Users.{UserRow, UserStores, Caps, School, activated, set_activation_status}
use edu_lanka.Users.Deactivation.{deactivated-validate_refused, deactivated-refresh_refused}

abbrev nimal : UserRow
nimal = record {
  id = "nimal";
  tenant_id = "aaaaaaaa-0000-4000-8000-000000000001";
  role = UserRole.student;
  is_active = true;
  deactivation_reason = none;
}

abbrev principal : JwtPayload
principal = record {
  sub = "kamala";
  tenant_id = "aaaaaaaa-0000-4000-8000-000000000001";
  role = UserRole.school_admin;
}

abbrev stores : UserStores
stores = record {
  Users = memory_table (λ r. r.id);
  Devices = memory_table (λ d. d.id);
  Inquiries = memory_table (λ q. q.id);
  Cache = memory_redis;
  Stream = Unit {0};
  append_sync_event = λ e t. (found tt, t);
  message = λ db. codes "Limit exceeded: 75 students";
}

-- A community school with a number of active students.
abbrev registry : ℕ → Caps
registry n = record { plan_of = λ t. found (some "COMMUNITY"); active_students = λ t. found n }

abbrev signed_in : Keyspace
signed_in = applied_all 0 (store_commands "a" "nimal" 604800) empty_redis

abbrev school : School stores
school = record {
  users = record { stored = nimal ∷ []; ids = [] };
  device_tokens = record {
    stored = (record { id = "d"; user_id = "nimal"; is_active = true; updated_at = 0 }) ∷ [];
    ids = [];
  };
  inquiries = record { stored = []; ids = [] };
  redis = signed_in;
  sync_events = tt;
}

abbrev deactivated : Result UserRow × School stores
deactivated =
    set_activation_status stores (registry 3) "nimal" false principal (some "left") 10 school

abbrev inactive : UserRow
inactive = activated false (some "left") nimal

abbrev claims : Claims
claims = record {
  sub = "nimal";
  tenant_id = "aaaaaaaa-0000-4000-8000-000000000001";
  tenant_slug = none;
  tenant_plan = none;
  role = UserRole.student;
  email = "nimal@royal.lk";
  token_type = some refresh;
  jti = some "a";
  iat = some 0;
}

abbrev access_claims : Claims
access_claims = record claims { token_type = some access }

some_injective : {A : Type 0} {a b : A} → some a ≡ some b → a ≡ b
some_injective h = cc

abbrev jwt : Jwt
jwt = record {
  verify = λ token now. some claims;
  verify_same = λ token t u c d h k. some_injective (sym k ∙ h);
  sign = λ c lifetime now. "token b";
}

abbrev config : AuthConfig
config = record { expires_in = codes "15m"; refresh_expires_in = codes "7d" }

abbrev ids : FreshIds
ids = record { access_jti = "b-access"; refresh_jti = "b" }

abbrev directory : Directory
directory = record {
  admin_of = λ id. found none;
  active_of = λ id. found (some (some false));
  plan_of = λ id. found none;
}

-- Before the deactivation the token of a request passes.
before_passes :
    (validate memory_redis
      (record directory { active_of = λ id. found (some (some true)) })
      0
      5
      access_claims
      signed_in).0
    ≡ ok access_claims
unfolding validate is_user_active get_cached_user_active is_token_revoked
before_passes = refl

-- The cap keeps an inactive student out of a full school.
full_school :
    (set_activation_status stores
      (registry 75)
      "nimal"
      true
      principal
      none
      20
      (record school { users = record { stored = inactive ∷ []; ids = [] } })).0
    ≡ err HttpError.forbidden
unfolding set_activation_status is_uuid trim at_most_one role_eq
full_school = refl

-- Two requests of the user, within the minute and after it, a sign-in and a counted attempt.
abbrev events : List Event
events =
    request 0 30 access_claims
    ∷ other (command 40 (set_ex (rt "c") (text "kamala") 604800))
    ∷ other (increment 50 (login_attempts (codes "kamala")))
    ∷ request 0 100 access_claims
    ∷ []

deactivated-validate_refused_example :
    (validate memory_redis directory 0 500 access_claims
      (after_events memory_redis directory "nimal" events deactivated.1.redis)).0
    ≢ ok access_claims
unfolding set_activation_status is_uuid trim update_at_most_one at_most_one
deactivated-validate_refused_example =
    deactivated-validate_refused stores (registry 3) "nimal" principal (some "left") 10 school
      inactive deactivated.1 refl refl directory refl events
      (λ e. refl, (refl, (refl, (λ e. refl, tt)))) access_claims access_claims 0 500 refl refl

empty-IsFresh : IsFresh empty_redis "a"
empty-IsFresh =
    (refl, λ u ms e h. absurd (let bad : none ≡ some (entry (members ms) (some e)) = h in cc))

abbrev owners : Owners
owners = specified 604800 0 (store "a" "nimal") (λ j. none)

signed_in-Reached : Reached memory_redis 604800 0 signed_in owners
unfolding store_refresh_token
signed_in-Reached =
    next 0 0 empty_redis (λ j. none) (store "a" "nimal")
      (empty 0 empty_redis (λ j. refl) (λ u. refl)) (omega arith) empty-IsFresh refl

abbrev steps : List Step
steps = command 15 (set_ex (rt "c") (text "kamala") 604800) ∷ command 16 (del (rt "a" ∷ [])) ∷ []

deactivated-refresh_refused_example :
    refresh_tokens memory_redis jwt config directory ids 20 "token a"
      (after_steps memory_redis steps deactivated.1.redis)
    ≡ (err HttpError.unauthorized, after_steps memory_redis steps deactivated.1.redis)
unfolding set_activation_status is_uuid trim update_at_most_one revoke_all_attempt cache_user_active
deactivated-refresh_refused_example =
    deactivated-refresh_refused stores (registry 3) jwt config 604800 0 10 owners "nimal" principal
      (some "left") school inactive deactivated.1 signed_in-Reached (omega arith) refl refl
      "token a" 5 claims "a" 604800 refl refl refl steps (refl, (refl, tt)) directory ids 20
      (omega arith)
