-- ===== src/Sessions/Races.antt =====
-- A sign-in between the two halves of `revokeAllUserRefreshTokens`
-- (apps/api/src/modules/redis/redis.service.ts): the ids are read before, and deleted after.
use edu_lanka.Prelude.{
  ℕ, ◌+◌, ◌<◌, String, ◌≡◌, ◌≢◌, refl, ap, ◌∙◌, inl, inr, true, false, Option, none, some, List, In,
  any, any-In, Bool-cases, ltb, str_eq, str_eq_iff, str_eq_refl, arith,
}
use mathlib.Core.Path.{subst}
use edu_lanka.Postgrest.{failed}
use edu_lanka.Redis.{Redis, Value, text, entry, live, rt, user_rts}
use edu_lanka.Sessions.{
  members_of, is_there, store_refresh_token, revoke_all_found, revoke_all_attempt,
  is_refresh_token_valid, revoke_all_commands,
}
use edu_lanka.Sessions.Keyspaces.{revoke_all-rt, revoke_all-user_rts}
use edu_lanka.Sessions.Owners.{store, revoke_all}
use edu_lanka.Sessions.Refinement.{service-entries, try_all-entries, exists_reply-found}

unread : (jti : String) (ms : List String) → ¬ In jti ms → any (λ m. str_eq m jti) ms ≡ false
unread jti ms h = elim (Bool-cases (any (λ m. str_eq m jti) ms)) [
  | inl e ↦
      let (m, i, k) = (any-In (λ m. str_eq m jti) ms).0 e in
      absurd (h (subst (λ z. In z ms) ((str_eq_iff m jti).0 k) i))
  | inr e ↦ e
]

module _ (R : Redis) where
  -- The token's key after the sign-in and the second half, and after a whole revocation later.
  raced-rt :
      (jti user : String) (ttl now : ℕ) (db : R.Db) (v : Option Value)
      → ¬ In jti (members_of v)
      → (store_refresh_token R jti user ttl now db).0 ≡ true
      → (revoke_all_found R user now v (store_refresh_token R jti user ttl now db).1).0 ≡ true
      → R.entries
          (revoke_all_found R user now v (store_refresh_token R jti user ttl now db).1).1
          (rt jti)
        ≡ some (entry (text user) (some (now + ttl)))
  raced-rt jti user ttl now db v n a b =
      let d = (store_refresh_token R jti user ttl now db).1 in
      let E = R.entries d in
      ap (λ F. F (rt jti)) (try_all-entries R now (revoke_all_commands user now (members_of v)) d b)
      ∙ rw (revoke_all-rt E now user (members_of v) jti, unread jti (members_of v) n)
          (ap (λ F. F (rt jti)) (service-entries R ttl now (store jti user) db a)
            ∙ rw (str_eq_refl jti) refl)

  raced-user_rts :
      (user : String) (now : ℕ) (d : R.Db) (v : Option Value)
      → (revoke_all_found R user now v d).0 ≡ true
      → R.entries (revoke_all_found R user now v d).1 (user_rts user) ≡ none
  raced-user_rts user now d v b =
      ap (λ F. F (user_rts user))
        (try_all-entries R now (revoke_all_commands user now (members_of v)) d b)
      ∙ rw (revoke_all-user_rts (R.entries d) now user (members_of v) user, str_eq_refl user) refl

  -- Revoking all tokens of a user without a set revokes none.
  setless-rt :
      (jti user : String) (ttl now : ℕ) (d : R.Db)
      → R.entries d (user_rts user) ≡ none
      → (revoke_all_attempt R user now d).0 ≡ true
      → R.entries (revoke_all_attempt R user now d).1 (rt jti) ≡ R.entries d (rt jti)
  setless-rt jti user ttl now d n a =
      ap (λ F. F (rt jti)) (service-entries R ttl now (revoke_all user) d a)
      ∙ rw
          (
            revoke_all-rt (R.entries d) now user
                (members_of (live now (R.entries d (user_rts user)))) jti,
            n,
          )
          refl

  -- If the ids of a user's tokens are read, then a token with another id is stored for the user, and
  -- then these ids and the set are deleted, with every command answered, then a second revocation of
  -- all the user's tokens, answered too, leaves the new token valid: until its ttl has passed,
  -- `isRefreshTokenValid`, when answered, accepts it.
  pub revoke_all_user_refresh_tokens-race :
      (jti user : String) (ttl now later : ℕ) (db : R.Db) (v : Option Value)
      → ¬ In jti (members_of v)
      → (store_refresh_token R jti user ttl now db).0 ≡ true
      → (revoke_all_found R user now v (store_refresh_token R jti user ttl now db).1).0 ≡ true
      → (revoke_all_attempt R user later
          (revoke_all_found R user now v (store_refresh_token R jti user ttl now db).1).1).0
        ≡ true
      → (t : ℕ) → t < now + ttl
      → R.read t
          (rt jti)
          (revoke_all_attempt R user later
            (revoke_all_found R user now v (store_refresh_token R jti user ttl now db).1).1).1
        ≢ failed
      → is_refresh_token_valid R jti t
          (revoke_all_attempt R user later
            (revoke_all_found R user now v (store_refresh_token R jti user ttl now db).1).1).1
        ≡ true
  unfolding is_refresh_token_valid
  revoke_all_user_refresh_tokens-race jti user ttl now later db v n a b c t l f =
      let d = (store_refresh_token R jti user ttl now db).1 in
      let raced = (revoke_all_found R user now v d).1 in
      let final = (revoke_all_attempt R user later raced).1 in
      let there =
        setless-rt jti user ttl later raced (raced-user_rts user now d v b) c
        ∙ raced-rt jti user ttl now db v n a b in
      let in_time : ltb t (now + ttl) ≡ true = ground arith in
      exists_reply-found R (R.read t (rt jti) final) (live t (R.entries final (rt jti)))
        (R.read_found t (rt jti) final) f
      ∙ ap (λ z. is_there (live t z)) there
      ∙ rw in_time refl
