-- ===== src/Auth/Registration/Tests.antt =====
-- Registrations on accounts and tables held in memory (apps/api/src/modules/auth/auth.service.ts).
use edu_lanka.Prelude.{◌≡◌, ◌≢◌, refl, inl, none, some, [], ◌∷◌}
use edu_lanka.Text.{codes, includes, starts_with}
use edu_lanka.Http.{Result, ok, err, HttpError}
use edu_lanka.Postgrest.{found}
use edu_lanka.PostgrestMemory.{insert_with}
use edu_lanka.User.{UserRole, JwtPayload, role_eq}
use edu_lanka.RedisMemory.{memory_redis, empty_redis}
use edu_lanka.Sessions.{store_refresh_token}
use edu_lanka.Auth.{issue_token_pair}
use edu_lanka.Auth.Duration.{parse_duration_to_seconds}
use edu_lanka.Auth.Login.{Lookups, login}
use edu_lanka.Auth.Login.Tenantless.{learner-login_refused}
use edu_lanka.Accounts.{Account, People, add_user}
use edu_lanka.Accounts.Undone.{IsWhole}
use edu_lanka.Accounts.Memory.{stores, fresh_ids, people}
use edu_lanka.Auth.Registration.{SignupDto, Schools, Issuer, SignedIn, signup, self_register}
use edu_lanka.Auth.Registration.Settled.{
  signup-IsWhole, self_register-IsSettled, IsSettled, account_for, row_for,
}
use edu_lanka.Auth.Registration.Profiles.{self_register-IsEnrolled, IsEnrolled}

abbrev schools : Schools
schools = record {
  tenant_of = λ t. found (some (record { status = "ACTIVE"; plan = some "GROWTH"; slug = none }));
  self_enrollment_of = λ t. found none;
  active_students = λ t. found 3;
}

abbrev nimal : SignupDto
nimal = record {
  email = "nimal@royal.lk";
  password = "secret 123";
  full_name = "Nimal";
  tenant_id = "royal";
  role = UserRole.student;
}

abbrev amara : SignupDto
amara = record {
  email = "amara@mail.lk";
  password = "secret 456";
  full_name = "Amara";
  tenant_id = "";
  role = UserRole.independent_learner;
}

abbrev principal : JwtPayload
principal = record { sub = "kamala"; tenant_id = "royal"; role = UserRole.school_admin }

abbrev issuer : Issuer
issuer = record {
  jwt = record {
    verify = λ token now. none;
    verify_same = λ token t u c d h k. absurd (let bad : none ≡ some c = h in cc);
    sign = λ c lifetime now. "token";
  };
  config = record { expires_in = codes "15m"; refresh_expires_in = codes "7d" };
  ids = record { access_jti = "a"; refresh_jti = "b" };
  now = 10;
}

-- A refused row takes the account back.
signup_refused :
    signup stores schools nimal principal (people ("a1" ∷ []) [] [])
    ≡ (err HttpError.conflict, record (people [] [] []) { auth = fresh_ids [] })
unfolding signup add_user insert_with role_eq
signup_refused = refl

signup-IsWhole_example :
    IsWhole stores
      (account_for stores schools nimal (some "royal"))
      (row_for stores schools nimal (some "royal"))
      (people ("a1" ∷ []) ("u1" ∷ []) [])
      (signup stores schools nimal principal (people ("a1" ∷ []) ("u1" ∷ []) []))
signup-IsWhole_example =
    signup-IsWhole stores schools nimal principal (people ("a1" ∷ []) ("u1" ∷ []) [])
      (λ uid db. refl)

-- A learner whose profile is refused leaves nothing.
learner_refused :
    (self_register stores schools issuer amara "" (people ("a1" ∷ []) ("u1" ∷ []) [])).0
    ≡ err HttpError.internal_error
unfolding self_register add_user insert_with role_eq
learner_refused = refl

self_register-IsSettled_example :
    IsSettled stores schools issuer amara none
      (people ("a1" ∷ []) ("u1" ∷ []) [])
      (self_register stores schools issuer amara "" (people ("a1" ∷ []) ("u1" ∷ []) []))
unfolding role_eq
self_register-IsSettled_example =
    self_register-IsSettled stores schools issuer amara "" (people ("a1" ∷ []) ("u1" ∷ []) [])
      (λ uid db. refl) refl (λ user db. refl)

self_register-IsEnrolled_example :
    IsEnrolled stores schools issuer nimal "ADM-1"
      (people ("a1" ∷ []) ("u1" ∷ []) [])
      (self_register stores schools issuer nimal "ADM-1" (people ("a1" ∷ []) ("u1" ∷ []) []))
unfolding role_eq
self_register-IsEnrolled_example =
    self_register-IsEnrolled stores schools issuer nimal "ADM-1" (people ("a1" ∷ []) ("u1" ∷ []) [])
      (λ uid db. refl) refl

abbrev registered : Result SignedIn × People stores
registered =
    self_register stores schools issuer amara "" (people ("a1" ∷ []) ("u1" ∷ []) ("l1" ∷ []))

abbrev answer : SignedIn
answer = record {
  tokens = record {
    access_token = "token";
    refresh_token = "token";
    expires_in = codes "15m";
    tenant_plan = none;
  };
  user_id = "u1";
  role = UserRole.independent_learner;
  tenant_id = "";
  tenant_plan = some "FREE_INDIVIDUAL";
  tenant_slug = some "independent";
}

amara_registers : registered ≡ (ok answer, registered.1)
unfolding self_register add_user insert_with role_eq issue_token_pair store_refresh_token
    parse_duration_to_seconds
amara_registers = refl

abbrev account : Account
account = record { id = "a1"; email = some "amara@mail.lk"; phone = none; tenant_id = none }

abbrev lookups : Lookups
lookups = record {
  sign_in = λ c password. some account;
  tenant_by_slug = λ slug. found none;
  phone_matches = λ phone tenant. found [];
  student_matches = λ number tenant. found [];
  admin_of = λ uid. found none;
  tenant_of = λ t. found none;
  member_of = λ t uid. found none;
  system_tenant = "root";
}

learner-login_refused_example :
    (login lookups memory_redis issuer "amara@mail.lk" "secret 456" "" empty_redis).0 ≢ ok answer
unfolding self_register add_user insert_with role_eq issue_token_pair store_refresh_token
    parse_duration_to_seconds includes starts_with
learner-login_refused_example =
    learner-login_refused stores schools memory_redis lookups issuer amara ""
      (people ("a1" ∷ []) ("u1" ∷ []) ("l1" ∷ [])) registered.1 answer (λ uid db. refl) refl
      (λ user db. refl) refl tt amara_registers issuer account "secret 456" "" empty_redis answer
      refl refl (inl refl) refl refl
