-- ===== src/Auth/Login/Tests.antt =====
-- Sign-ins on a Redis held in memory (apps/api/src/modules/auth/auth.service.ts).
use edu_lanka.Prelude.{
  ℕ, ◌+◌, ◌≤◌, String, ◌≡◌, ◌≢◌, refl, Bool, true, false, none, some, List, [], ◌∷◌, str_eq,
  if◌then◌else◌, arith,
}
use edu_lanka.Text.{codes, includes, starts_with}
use edu_lanka.Http.{Result, ok, err, HttpError}
use edu_lanka.Postgrest.{found}
use edu_lanka.User.{UserRole}
use edu_lanka.Redis.{
  Redis, Keyspace, Command, set_ex, sadd, srem, expire, del, applied, live, count_of,
}
use edu_lanka.RedisMemory.{memory_redis, empty_redis, true-ne-false}
use edu_lanka.Accounts.{Account}
use edu_lanka.Auth.{issue_token_pair}
use edu_lanka.Auth.Duration.{parse_duration_to_seconds}
use edu_lanka.Sessions.{store_refresh_token}
use edu_lanka.Auth.Registration.{Issuer, SignedIn, SignupDto}
use edu_lanka.Auth.Login.{
  Lookups, resolved_tenant, candidates, authenticate, resolve_tenant_user, login,
}
use edu_lanka.Auth.Login.Attempts.{attempts, IsAnswering}
use edu_lanka.Auth.Login.Limit.{attempts-bound, login-locked_out}
use edu_lanka.Users.Creation.{CreateUserDto}
use edu_lanka.Users.Creation.SigningIn.{created-login_refused}

abbrev nimal : Account
nimal = record { id = "a1"; email = some "nimal@royal.lk"; phone = none; tenant_id = some "royal" }

-- One account, with its password.
abbrev lookups : Lookups
lookups = record {
  sign_in = λ c password. if str_eq password "right" then some nimal else none;
  tenant_by_slug = λ slug. found none;
  phone_matches = λ phone tenant. found [];
  student_matches = λ number tenant. found [];
  admin_of = λ uid. found none;
  tenant_of =
      λ t. found (some (record { status = "ACTIVE"; plan = none; slug = some "royal-college" }));
  member_of =
      λ t uid. found (some (record { id = "u1"; role = UserRole.teacher; is_active = true }));
  system_tenant = "root";
}

abbrev at_time : ℕ → Issuer
at_time now = record {
  jwt = record {
    verify = λ token t. none;
    verify_same = λ token t u c d h k. no_claims h;
    sign = λ c lifetime t. "token";
  };
  config = record { expires_in = codes "15m"; refresh_expires_in = codes "7d" };
  ids = record { access_jti = "a"; refresh_jti = "b" };
  now = now;
}
  where
    no_claims : {A P : Type 0} {c : A} → none ≡ some c → P
    no_claims h = cc

abbrev signed_in : Result SignedIn
signed_in = (login lookups memory_redis (at_time 5) "nimal@royal.lk" "right" "" empty_redis).0

abbrev session : SignedIn
session = record {
  tokens = record {
    access_token = "token";
    refresh_token = "token";
    expires_in = codes "15m";
    tenant_plan = none;
  };
  user_id = "u1";
  role = UserRole.teacher;
  tenant_id = "royal";
  tenant_plan = some "COMMUNITY";
  tenant_slug = some "royal-college";
}

-- The right password signs in, for the user and the tenant of the account.
right_password : signed_in ≡ ok session
unfolding login resolved_tenant authenticate candidates includes starts_with resolve_tenant_user
    issue_token_pair store_refresh_token parse_duration_to_seconds
right_password = refl

abbrev wrong : ℕ → Issuer × String
wrong now = (at_time now, "wrong")

abbrev wrongs : List (Issuer × String)
wrongs = wrong 11 ∷ wrong 12 ∷ wrong 13 ∷ wrong 14 ∷ wrong 15 ∷ []

memory-IsAnswering : IsAnswering memory_redis lookups "nimal@royal.lk" ""
memory-IsAnswering = record {
  reads = λ now k db. (live now (db k), refl);
  counts = λ now k db. (count_of (live now (db k)) + 1, refl);
}

attempts-bound_example :
    (attempts memory_redis lookups "nimal@royal.lk" "" (wrong 10 ∷ wrongs) empty_redis).0 ≤ 5
unfolding resolved_tenant authenticate candidates includes starts_with
attempts-bound_example =
    attempts-bound memory_redis lookups "nimal@royal.lk" "" none memory-IsAnswering refl refl
      (at_time 10) "wrong" wrongs empty_redis refl (refl, refl, refl) refl
      (
        (refl, refl, refl),
        ((refl, refl, refl), ((refl, refl, refl), ((refl, refl, refl), ((refl, refl, refl), tt)))),
      )

-- A Redis that refuses to set an expiry.
abbrev without_expire : ℕ → Command → Keyspace → Bool × Keyspace
without_expire now (expire k ttl) E = (false, E)
without_expire now (set_ex k v ttl) E = (true, applied now (set_ex k v ttl) E)
without_expire now (sadd k m) E = (true, applied now (sadd k m) E)
without_expire now (srem k m) E = (true, applied now (srem k m) E)
without_expire now (del ks) E = (true, applied now (del ks) E)

without_expire-true :
    (now : ℕ) (c : Command) (E : Keyspace)
    → (without_expire now c E).0 ≡ true
    → (without_expire now c E).1 ≡ applied now c E
without_expire-true now (expire k ttl) E h = absurd (let bad : false ≡ true = h in cc)
without_expire-true now (set_ex k v ttl) E h = refl
without_expire-true now (sadd k m) E h = refl
without_expire-true now (srem k m) E h = refl
without_expire-true now (del ks) E h = refl

without_expire-false :
    (now : ℕ) (c : Command) (E : Keyspace)
    → (without_expire now c E).0 ≡ false
    → (without_expire now c E).1 ≡ E
without_expire-false now (expire k ttl) E h = refl
without_expire-false now (set_ex k v ttl) E h = true-ne-false h
without_expire-false now (sadd k m) E h = true-ne-false h
without_expire-false now (srem k m) E h = true-ne-false h
without_expire-false now (del ks) E h = true-ne-false h

abbrev hasty_redis : Redis
hasty_redis = record memory_redis {
  exec = without_expire;
  exec_true = without_expire-true;
  exec_false = without_expire-false;
}

hasty-IsAnswering : IsAnswering hasty_redis lookups "nimal@royal.lk" ""
hasty-IsAnswering = record {
  reads = λ now k db. (live now (db k), refl);
  counts = λ now k db. (count_of (live now (db k)) + 1, refl);
}

abbrev locked : Keyspace
locked = (attempts hasty_redis lookups "nimal@royal.lk" "" (wrong 10 ∷ wrongs) empty_redis).1

-- A year later, with the right password.
login-locked_out_example :
    login lookups hasty_redis (at_time 31536000) "nimal@royal.lk" "right" "" locked
    ≡ (err HttpError.too_many_requests, locked)
unfolding resolved_tenant authenticate candidates includes starts_with
login-locked_out_example =
    login-locked_out hasty_redis lookups "nimal@royal.lk" "" none hasty-IsAnswering refl refl
      (at_time 10) "wrong" wrongs empty_redis refl (refl, refl, refl) refl
      (
        (refl, refl, refl),
        ((refl, refl, refl), ((refl, refl, refl), ((refl, refl, refl), ((refl, refl, refl), tt)))),
      )
      (omega arith) (at_time 31536000) "right" refl

abbrev amara : SignupDto
amara = record {
  email = "amara@mail.lk";
  password = "secret 456";
  full_name = "Amara";
  tenant_id = "";
  role = UserRole.independent_learner;
}

abbrev learners : Lookups
learners = record lookups {
  sign_in = λ c password.
      some (record { id = "a2"; email = some "amara@mail.lk"; phone = none; tenant_id = none });
}

abbrev teacher : CreateUserDto
teacher = record {
  email = some "amara@mail.lk";
  phone_number = none;
  full_name = "Amara";
  role = UserRole.teacher;
  password = "secret 456";
}

created-login_refused_example :
    (login learners memory_redis (at_time 5) "amara@mail.lk" "secret 456" "" empty_redis).0
    ≢ ok session
unfolding includes starts_with
created-login_refused_example =
    created-login_refused memory_redis learners (at_time 5) teacher "amara@mail.lk" "a2" ""
      empty_redis session refl refl refl
