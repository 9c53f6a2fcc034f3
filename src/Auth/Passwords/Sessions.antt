-- ===== src/Auth/Passwords/Sessions.antt =====
-- Which refresh tokens survive a password reset (apps/api/src/modules/auth/auth.service.ts).
use mathlib.Core.Path.{subst}
use edu_lanka.Prelude.{
  ℕ, ◌≤◌, String, ◌≡◌, ◌≢◌, refl, ap, ◌∙◌, inl, inr, Bool, true, false, Option, none, some, All,
  Bool-cases,
}
use edu_lanka.Http.{ok, err, HttpError}
use edu_lanka.Postgrest.{failed}
use edu_lanka.Redis.{
  Redis, text, set_ex, applied, Keyspace, Key, rt, user_rts, revoked_token, pwd_reset_user,
}
use edu_lanka.Sessions.{
  is_refresh_token_valid, is_there, given_text, revoke_all_attempt, revoke_all_user_refresh_tokens,
}
use edu_lanka.Sessions.Owners.{Owners, revoke_all, held, not_of, specified}
use edu_lanka.Sessions.Spared.{exec-spared, try_read-spared}
use edu_lanka.Sessions.Refinement.{Reached, next, beside, is_refresh_token_valid_refines}
use edu_lanka.Sessions.ResetTokens.{
  mark_token_revoked, revoke_password_reset_tokens, is_token_string_revoked, revoke_reset_commands,
}
use edu_lanka.Auth.Passwords.{SupabaseAuth, reset_cleaned, reset_done, reset_password}

rt-spared :
    (j user : String) (now : ℕ) (o : Option String)
    → All (λ c. (E : Keyspace) → applied now c E (rt j) ≡ E (rt j)) (revoke_reset_commands user o)
rt-spared j user now none = (λ E. refl, tt)
rt-spared j user now (some n) = (λ E. refl, (λ E. refl, tt))

user_rts-spared :
    (u user : String) (now : ℕ) (o : Option String)
    → All
        (λ c. (E : Keyspace) → applied now c E (user_rts u) ≡ E (user_rts u))
        (revoke_reset_commands user o)
user_rts-spared u user now none = (λ E. refl, tt)
user_rts-spared u user now (some n) = (λ E. refl, (λ E. refl, tt))

module _ (R : Redis) (A : SupabaseAuth) where
  reset_cleaned-spared :
      (token id : String) (now : ℕ) (db : R.Db) (k : Key)
      → ((o : Option String)
          → All (λ c. (E : Keyspace) → applied now c E k ≡ E k) (revoke_reset_commands id o))
      → ((E : Keyspace) → applied now (set_ex (revoked_token token) (text "1") 86400) E k ≡ E k)
      → R.entries (reset_cleaned R A token id now db) k ≡ R.entries db k
  unfolding mark_token_revoked revoke_password_reset_tokens
  reset_cleaned-spared token id now db k f g =
      let marked = (mark_token_revoked R token now db).1 in
      try_read-spared R k now (λ v. revoke_reset_commands id (given_text v))
        (R.read now (pwd_reset_user id) marked) marked (λ v. f (given_text v))
      ∙ exec-spared R k now (set_ex (revoked_token token) (text "1") 86400) db g

  reset_done-ok :
      (token id : String) (now : ℕ) (db : R.Db) (x : Bool × A.Db) (db' : R.Db) (auth' : A.Db)
      → reset_done R A token id now db x ≡ (ok tt, (db', auth'))
      → revoke_all_user_refresh_tokens R id now (reset_cleaned R A token id now db) ≡ db'
  reset_done-ok token id now db (true, auth) db' auth' h = ap (λ z. z.1.0) h
  reset_done-ok token id now db (false, auth) db' auth' h =
      absurd (let bad : err HttpError.bad_request ≡ ok tt = ap (λ z. z.0) h in cc)

  reset_password-ok :
      (token password id : String) (now : ℕ) (db : R.Db) (auth : A.Db) (db' : R.Db) (auth' : A.Db)
      → A.get_user token auth ≡ some id
      → reset_password R A token password now db auth ≡ (ok tt, (db', auth'))
      → revoke_all_user_refresh_tokens R id now (reset_cleaned R A token id now db) ≡ db'
  unfolding reset_password
  reset_password-ok token password id now db auth db' auth' u h =
      elim (Bool-cases (is_token_string_revoked R token now db)) [
        | inl e ↦
            absurd (let bad : err HttpError.unauthorized ≡ ok tt = ap (λ z. z.0) (rw e at h) in cc)
        | inr e ↦
            reset_done-ok token id now db (A.update_password id password auth) db' auth'
              (rw (e, u) at h)
      ]

  -- After a reset that succeeds, with the revocation of refresh tokens answered, `isRefreshTokenValid`
  -- finds, when answered, all tokens that were in force before except those stored under the id that
  -- Supabase Auth gives for the reset token; a token stored under any other id stays in force.
  pub reset_password-revokes :
      (ttl now later : ℕ) (token password : String) (db : R.Db) (auth : A.Db) (O : Owners)
      (id : String) (db' : R.Db) (auth' : A.Db)
      → Reached R ttl now db O
      → now ≤ later
      → A.get_user token auth ≡ some id
      → reset_password R A token password later db auth ≡ (ok tt, (db', auth'))
      → (revoke_all_attempt R id later (reset_cleaned R A token id later db)).0 ≡ true
      → (t : ℕ) (jti : String) → later ≤ t
      → R.read t (rt jti) db' ≢ failed
      → is_refresh_token_valid R jti t db' ≡ is_there (held t (not_of id (O jti)))
  unfolding reset_password revoke_all_user_refresh_tokens
  reset_password-revokes ttl now later token password db auth O id db' auth' r l u h a t jti m f =
      let clean = reset_cleaned R A token id later db in
      let same = reset_password-ok token password id later db auth db' auth' u h in
      let cleaned =
        beside now db clean O r
          (λ j. reset_cleaned-spared token id later db (rt j) (rt-spared j id later) (λ E. refl))
          (λ v.
            reset_cleaned-spared token id later db (user_rts v) (user_rts-spared v id later)
              (λ E. refl)) in
      let reached = next now later clean O (revoke_all id) cleaned l tt a in
      is_refresh_token_valid_refines R ttl later db' (specified ttl later (revoke_all id) O)
        (subst (λ d. Reached R ttl later d (specified ttl later (revoke_all id) O)) same reached) t
        m jti f
