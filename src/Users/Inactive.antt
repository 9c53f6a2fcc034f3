-- ===== src/Users/Inactive.antt =====
-- The check of access tokens when a user is cached as inactive
-- (apps/api/src/modules/auth/strategies/jwt.strategy.ts, auth.service.ts).
use edu_lanka.Prelude.{
  ℕ, ◌+◌, String, ◌≡◌, ◌≢◌, refl, sym, ap, ◌∙◌, ◌⊎◌, inl, inr, Bool, true, false, Option, none,
  some, ltb, Bool-cases, str_eq_refl, if◌then◌else◌,
}
use edu_lanka.Http.{Result, ok, err, HttpError, Action, resume, ◌>>=◌, ◌>>◌, return, require}
use edu_lanka.Postgrest.{Reply, found, failed}
use edu_lanka.User.{is_super_admin}
use edu_lanka.Redis.{text, entry, Redis, Value, set_ex, live, Key}
use edu_lanka.Sessions.{
  cached_active, get_cached_user_active, cache_user_active, is_token_revoked,
  revoke_all_user_refresh_tokens,
}
use edu_lanka.Sessions.Spared.{revoke_all-user_active}
use edu_lanka.Auth
use edu_lanka.Auth.{
  Claims, Jwt, AuthConfig, FreshIds, Directory, is_true, given_id, looked_up, is_user_active,
  refresh_tokens,
}
use edu_lanka.Users.Requests.{IsOff}
use edu_lanka.Auth.Strategy.{passes_type, validate}

-- A method that lets pass only if a check says so.
inactive-refused :
    {S : Type 0} (x : Result Bool × S) (c c' : Claims)
    → ((b : Bool) → x.0 ≡ ok b → b ≡ false)
    → (resume (λ active. require active HttpError.unauthorized >> return c) x).0 ≢ ok c'
inactive-refused (ok true, s) c c' f h = absurd (let bad : true ≡ false = f true refl in cc)
inactive-refused (ok false, s) c c' f h = cc
inactive-refused (err e, s) c c' f h = cc

guarded-refused :
    {S : Type 0} (a b : Bool) (m : Action S Bool) (c c' : Claims) (s : S)
    → ((x : Bool) → (m s).0 ≡ ok x → x ≡ false)
    → ((require a HttpError.unauthorized >> require b HttpError.unauthorized >> m >>= λ active.
          require active HttpError.unauthorized >> return c)
        s).0
      ≢ ok c'
guarded-refused true true m c c' s f = inactive-refused (m s) c c' f
guarded-refused true false m c c' s f = λ h. cc
guarded-refused false b m c c' s f = λ h. cc

module _ (R : Redis) where
  -- What a read of the cached activation can find.
  cached_none :
      (r : Reply (Option Value))
      → ((v : Option Value) → r ≡ found v → v ≡ none)
      → cached_active R r ≡ none
  cached_none failed f = refl
  cached_none (found v) f = rw (f v refl) refl

  cached_zero :
      (r : Reply (Option Value)) (t e : ℕ)
      → ((v : Option Value) → r ≡ found v → v ≡ live t (some (entry (text "0") (some e))))
      → (cached_active R r ≡ some false) ⊎ (cached_active R r ≡ none)
  cached_zero failed t e f = inr refl
  cached_zero (found v) t e f = elim (Bool-cases (ltb t e)) [
    | inl l ↦ let k : v ≡ some (text "0") = rw l at (f v refl) in inl (rw k refl)
    | inr l ↦ let k : v ≡ none = rw l at (f v refl) in inr (rw k refl)
  ]

  user_active-inactive :
      (user : String) (t : ℕ) (db : R.Db) (r : Reply (Option (Option Bool))) (x : Bool)
      → ((y : Option (Option Bool)) → r ≡ found y → is_true y ≡ false)
      → (Auth.user_active R user t r db).0 ≡ ok x
      → x ≡ false
  user_active-inactive user t db failed x f h = cc
  user_active-inactive user t db (found y) x f h =
      let known : ok (is_true y) ≡ ok x = h in let same : is_true y ≡ x = cc in sym same ∙ f y refl

  looked_up-inactive :
      (Dir : Directory) (c : Claims) (t : ℕ) (db : R.Db) (o : Option Bool) (x : Bool)
      → is_super_admin c.role ≡ false
      → ((y : Option (Option Bool)) → Dir.active_of c.sub ≡ found y → is_true y ≡ false)
      → (o ≡ some false) ⊎ (o ≡ none)
      → (looked_up R Dir c.sub c.role t o db).0 ≡ ok x
      → x ≡ false
  looked_up-inactive Dir c t db o x s f (inl e) h = let known : ok false ≡ ok x = rw e at h in cc
  looked_up-inactive Dir c t db o x s f (inr e) h =
      user_active-inactive c.sub t db (Dir.active_of c.sub) x f (rw (e, s) at h)

  -- Within the minute the cached answer says no, and afterwards the table.
  is_user_active-inactive :
      (Dir : Directory) (c : Claims) (t : ℕ) (db : R.Db) (x : Bool)
      → IsOff c.sub (R.entries db)
      → is_super_admin c.role ≡ false
      → ((y : Option (Option Bool)) → Dir.active_of c.sub ≡ found y → is_true y ≡ false)
      → (is_user_active R Dir c.sub c.role t db).0 ≡ ok x
      → x ≡ false
  unfolding is_user_active get_cached_user_active
  is_user_active-inactive Dir c t db x k s f h =
      let reply = R.read t (Key.user_active c.sub) db in
      let reads = R.read_found t (Key.user_active c.sub) db in
      looked_up-inactive Dir c t db (cached_active R reply) x s f
        (elim k [
          | inl n ↦ inr (cached_none reply (λ v r. reads v r ∙ ap (live t) n))
          | inr (e, n) ↦ cached_zero reply t e (λ v r. reads v r ∙ ap (live t) n)
        ])
        h

  pub validate-inactive :
      (Dir : Directory) (c c' : Claims) (deployed t : ℕ) (db : R.Db)
      → IsOff c.sub (R.entries db)
      → is_super_admin c.role ≡ false
      → ((y : Option (Option Bool)) → Dir.active_of c.sub ≡ found y → is_true y ≡ false)
      → (validate R Dir deployed t c db).0 ≢ ok c'
  unfolding validate
  validate-inactive Dir c c' deployed t db k s f =
      guarded-refused (passes_type deployed t c.token_type)
        (if is_token_revoked R c.sub c.iat t db then false else true)
        (is_user_active R Dir c.sub c.role t) c c' db
        (λ x h. is_user_active-inactive Dir c t db x k s f h)

  -- The mark that a deactivation leaves.
  pub deactivated-mark :
      (id : String) (now : ℕ) (db : R.Db)
      → (R.exec now (set_ex (Key.user_active id) (text "0") 60) db).0 ≡ true
      → R.entries
          (revoke_all_user_refresh_tokens R id now (cache_user_active R id false 60 now db))
          (Key.user_active id)
        ≡ some (entry (text "0") (some (now + 60)))
  unfolding cache_user_active
  deactivated-mark id now db a =
      revoke_all-user_active R id id now (cache_user_active R id false 60 now db)
      ∙ ap (λ E. E (Key.user_active id))
          (R.exec_true now (set_ex (Key.user_active id) (text "0") 60) db a)
      ∙ rw (str_eq_refl id) refl
