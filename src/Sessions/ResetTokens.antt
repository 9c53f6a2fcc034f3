-- ===== src/Sessions/ResetTokens.antt =====
-- Password reset nonces and used-up token strings
-- (apps/api/src/modules/redis/redis.service.ts).
use edu_lanka.Prelude.{
  ℕ, ◌+◌, String, ◌≡◌, ◌≢◌, refl, sym, ap, ◌∙◌, Bool, true, false, ◌&&◌, Option, none, some, List,
  [], ◌∷◌, ltb, if◌then◌else◌, str_eq, str_eq_refl, Bool-cases, inl, inr,
}
use edu_lanka.Postgrest.{Reply, found, failed}
use edu_lanka.Redis.{
  Redis, Value, text, entry, live, Keyspace, Command, set_ex, del, applied_all, pwd_reset_user,
  pwd_reset_nonce, revoked_token,
}
use edu_lanka.Sessions.{given_text, is_there, try_all, try_read, exists_reply}
use edu_lanka.Sessions.Refinement.{try_read-entries, exists_reply-found}

abbrev forget_nonce : Option String → List Command → List Command
forget_nonce none cs = cs
forget_nonce (some nonce) cs = del (pwd_reset_nonce nonce ∷ []) ∷ cs

abbrev issue_commands : String → String → ℕ → Option String → List Command
issue_commands user nonce ttl old = forget_nonce old (
    set_ex (pwd_reset_user user) (text nonce) ttl
    ∷ set_ex (pwd_reset_nonce nonce) (text user) ttl
    ∷ [])

abbrev pub revoke_reset_commands : String → Option String → List Command
revoke_reset_commands user old = forget_nonce old (del (pwd_reset_user user ∷ []) ∷ [])

-- `activeNonce === nonce`.
abbrev is_nonce : String → Reply (Option Value) → Bool
is_nonce nonce (found (some (text s))) = str_eq s nonce
is_nonce nonce _ = false

abbrev pub one_day : ℕ
one_day = 86400

module _ (R : Redis) where
  -- The nonce is what `randomUUID` gives; it is returned whether Redis answers or not.
  unfoldable pub issue_password_reset_nonce : String → String → ℕ → ℕ → R.Db → Bool × R.Db
  issue_password_reset_nonce user nonce ttl now db =
      try_read R (λ v d. try_all R now (issue_commands user nonce ttl (given_text v)) d)
        (R.read now (pwd_reset_user user) db) db

  unfoldable pub is_password_reset_nonce_valid : String → String → ℕ → R.Db → Bool
  is_password_reset_nonce_valid user nonce now db =
      is_nonce nonce (R.read now (pwd_reset_user user) db)

  unfoldable pub revoke_password_reset_tokens : String → ℕ → R.Db → Bool × R.Db
  revoke_password_reset_tokens user now db =
      try_read R (λ v d. try_all R now (revoke_reset_commands user (given_text v)) d)
        (R.read now (pwd_reset_user user) db) db

  unfoldable pub mark_token_revoked : String → ℕ → R.Db → Bool × R.Db
  mark_token_revoked token now db = R.exec now (set_ex (revoked_token token) (text "1") one_day) db

  unfoldable pub is_token_string_revoked : String → ℕ → R.Db → Bool
  is_token_string_revoked token now db = exists_reply R (R.read now (revoked_token token) db)

issued-pwd_reset_user :
    (now : ℕ) (user nonce : String) (ttl : ℕ) (old : Option String) (E : Keyspace) (u : String)
    → applied_all now (issue_commands user nonce ttl old) E (pwd_reset_user u) ≡ (
        if str_eq user u
        then some (entry (text nonce) (some (now + ttl)))
        else E (pwd_reset_user u))
issued-pwd_reset_user now user nonce ttl none E u = refl
issued-pwd_reset_user now user nonce ttl (some old) E u = refl

is_nonce-found :
    (nonce : String) (r : Reply (Option Value)) (v : Option Value)
    → ((x : Option Value) → r ≡ found x → x ≡ v)
    → r ≢ failed
    → is_nonce nonce r ≡ is_nonce nonce (found v)
is_nonce-found nonce failed v f h = absurd (h refl)
is_nonce-found nonce (found x) v f h = ap (λ z. is_nonce nonce (found z)) (f x refl)

module _ (R : Redis) where
  -- When `issuePasswordResetNonce` has run with all its commands answered, the read of
  -- `isPasswordResetNonceValid` for the same user, if answered, finds the new nonce and no other,
  -- until the ttl has passed.
  pub issue_password_reset_nonce-newest :
      (user nonce : String) (ttl now : ℕ) (db : R.Db)
      → (issue_password_reset_nonce R user nonce ttl now db).0 ≡ true
      → (other : String) (t : ℕ)
      → R.read t (pwd_reset_user user) (issue_password_reset_nonce R user nonce ttl now db).1
        ≢ failed
      → is_password_reset_nonce_valid R user other t
          (issue_password_reset_nonce R user nonce ttl now db).1
        ≡ (ltb t (now + ttl) && str_eq nonce other)
  unfolding issue_password_reset_nonce is_password_reset_nonce_valid
  issue_password_reset_nonce-newest user nonce ttl now db h other t a =
      let db' = (issue_password_reset_nonce R user nonce ttl now db).1 in
      let E = R.entries db in
      let old = given_text (live now (E (pwd_reset_user user))) in
      let after =
        try_read-entries R now (λ v. issue_commands user nonce ttl (given_text v))
          (live now (E (pwd_reset_user user))) db (R.read now (pwd_reset_user user) db)
          (R.read_found now (pwd_reset_user user) db) h in
      let there : R.entries db' (pwd_reset_user user)
          ≡ some (entry (text nonce) (some (now + ttl))) =
        ap (λ F. F (pwd_reset_user user)) after
        ∙ rw (issued-pwd_reset_user now user nonce ttl old E user, str_eq_refl user) refl in
      is_nonce-found other (R.read t (pwd_reset_user user) db')
        (live t (R.entries db' (pwd_reset_user user))) (R.read_found t (pwd_reset_user user) db') a
      ∙ rw there (elim (Bool-cases (ltb t (now + ttl))) [ inl l ↦ rw l | inr l ↦ rw l ])

  -- When the command of `markTokenRevoked` is answered, an answered `isTokenStringRevoked` finds the
  -- token used up for exactly one day, and finds of every other token what it would have found before.
  pub mark_token_revoked-one_day :
      (token : String) (now : ℕ) (db : R.Db)
      → (mark_token_revoked R token now db).0 ≡ true
      → (other : String) (t : ℕ)
      → R.read t (revoked_token other) (mark_token_revoked R token now db).1 ≢ failed
      → R.read t (revoked_token other) db ≢ failed
      → is_token_string_revoked R other t (mark_token_revoked R token now db).1 ≡ (
          if str_eq token other
          then ltb t (now + one_day)
          else is_token_string_revoked R other t db)
  unfolding mark_token_revoked is_token_string_revoked
  mark_token_revoked-one_day token now db h other t a b =
      let db' = (mark_token_revoked R token now db).1 in
      let k = revoked_token other in
      let after = R.exec_true now (set_ex (revoked_token token) (text "1") one_day) db h in
      exists_reply-found R (R.read t k db') (live t (R.entries db' k)) (R.read_found t k db') a
      ∙ ap (λ F. is_there (live t (F k))) after
      ∙ elim (Bool-cases (str_eq token other)) [
        | inl s ↦ elim (Bool-cases (ltb t (now + one_day))) [
          | inl l ↦ rw (s, l)
          | inr l ↦ rw (s, l)
        ]
        | inr s ↦ rw s (
            sym (
              exists_reply-found R (R.read t k db) (live t (R.entries db k)) (R.read_found t k db)
                b))
      ]
