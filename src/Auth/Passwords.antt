-- ===== src/Auth/Passwords.antt =====
-- `resetPassword` and `changePassword` (apps/api/src/modules/auth/auth.service.ts). Supabase Auth, which
-- keeps the accounts and their passwords, is a parameter.
pub mod Sessions
use edu_lanka.Prelude.{ℕ, String, Bool, true, false, Option, none, some, str_eq, if◌then◌else◌}
use edu_lanka.Http.{Result, ok, err, HttpError}
use edu_lanka.Redis.{Redis}
use edu_lanka.Sessions.{revoke_all_user_refresh_tokens}
use edu_lanka.Sessions.ResetTokens.{
  is_token_string_revoked, mark_token_revoked, revoke_password_reset_tokens,
}

pub record SupabaseAuth : Type 1 where
  pub Db : Type 0
  -- `auth.getUser(token)`: the id of the account.
  pub get_user : String → Db → Option String
  -- `auth.admin.getUserById(id)`: the account's email.
  pub email_of : String → Db → Option String
  -- `auth.signInWithPassword` on a client of its own: whether the password is right.
  pub sign_in : String → String → Db → Bool
  -- `auth.admin.updateUserById(id, { password })`: whether it was done.
  pub update_password : String → String → Db → Bool × Db
  -- `auth.admin.signOut(token, 'global')`, whose failure is dropped.
  pub sign_out : String → Db → Db

module _ (R : Redis) (A : SupabaseAuth) where
  abbrev pub reset_cleaned : String → String → ℕ → R.Db → R.Db
  reset_cleaned token id now db =
      (revoke_password_reset_tokens R id now (mark_token_revoked R token now db).1).1

  abbrev pub reset_done :
      String → String → ℕ → R.Db → Bool × A.Db → Result (Unit {0}) × (R.Db × A.Db)
  reset_done token id now db (true, auth) = (
    ok tt,
    (
      revoke_all_user_refresh_tokens R id now (reset_cleaned token id now db),
      A.sign_out token auth,
    ),
  )
  reset_done token id now db (false, auth) = (err HttpError.bad_request, (db, auth))

  abbrev pub reset_of :
      String → String → ℕ → R.Db → A.Db → Option String → Result (Unit {0}) × (R.Db × A.Db)
  reset_of token password now db auth none = (err HttpError.unauthorized, (db, auth))
  reset_of token password now db auth (some id) =
      reset_done token id now db (A.update_password id password auth)

  unfoldable pub reset_password :
      String → String → ℕ → R.Db → A.Db → Result (Unit {0}) × (R.Db × A.Db)
  reset_password token password now db auth =
      if is_token_string_revoked R token now db
      then (err HttpError.unauthorized, (db, auth))
      else reset_of token password now db auth (A.get_user token auth)

  -- A missing email, or the empty one, is no account.
  abbrev account : Option String → Option String
  account none = none
  account (some e) = if str_eq e "" then none else some e

  abbrev change_done : String → ℕ → R.Db → Bool × A.Db → Result (Unit {0}) × (R.Db × A.Db)
  change_done user now db (true, auth) =
      (ok tt, (revoke_all_user_refresh_tokens R user now db, auth))
  change_done user now db (false, auth) = (err HttpError.bad_request, (db, auth))

  abbrev change_of :
      String → String → String → ℕ → R.Db → A.Db → Option String → Result (Unit {0}) × (R.Db × A.Db)
  change_of user current password now db auth none = (err HttpError.not_found, (db, auth))
  change_of user current password now db auth (some email) =
      let changed = change_done user now db (A.update_password user password auth) in
      if A.sign_in email current auth then changed else (err HttpError.bad_request, (db, auth))

  unfoldable pub change_password :
      String → String → String → ℕ → R.Db → A.Db → Result (Unit {0}) × (R.Db × A.Db)
  change_password user current password now db auth =
      change_of user current password now db auth (account (A.email_of user auth))
