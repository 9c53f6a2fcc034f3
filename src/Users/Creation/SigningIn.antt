-- ===== src/Users/Creation/SigningIn.antt =====
-- Sign-ins of the users that `UsersService.create` makes (apps/api/src/modules/users/users.service.ts,
-- with `login` of apps/api/src/modules/auth/auth.service.ts).
use edu_lanka.Prelude.{String, ◌≡◌, ◌≢◌, refl, true, none, some}
use edu_lanka.Http.{ok}
use edu_lanka.Postgrest.{found}
use edu_lanka.Text.{codes, includes}
use edu_lanka.Redis.{Redis}
use edu_lanka.Auth.Registration.{Issuer, SignedIn}
use edu_lanka.Auth.Login.{Lookups, by_email, login}
use edu_lanka.Auth.Login.Tenantless.{login-tenantless_refused, authenticate-email}
use edu_lanka.Users.Creation.{CreateUserDto, created_account}

module _ (R : Redis) (L : Lookups) (i : Issuer) where
  -- A user that an administrator has created with an email that has an `@`, and whom Supabase Auth signs
  -- in with the account that `create` made, which is not of the platform's administrators, is not let
  -- in by `login`, whatever the state of Redis and the tenant that the request names.
  pub created-login_refused :
      (dto : CreateUserDto) (email uid tenant : String) (db : R.Db) (r : SignedIn)
      → includes (codes email) (codes "@") ≡ true
      → L.sign_in (by_email email) dto.password ≡ some (created_account dto uid)
      → L.admin_of uid ≡ found none
      → (login L R i email dto.password tenant db).0 ≢ ok r
  created-login_refused dto email uid tenant db r m s n =
      login-tenantless_refused R L i email dto.password tenant (created_account dto uid) db r refl n
        (λ resolved.
          authenticate-email R L i email dto.password (created_account dto uid) resolved m s)
