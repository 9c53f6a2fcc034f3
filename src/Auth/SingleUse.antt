-- ===== src/Auth/SingleUse.antt =====
-- A refresh token serves once, and not after its user's tokens have been revoked
-- (apps/api/src/modules/auth/auth.service.ts).
use mathlib.Core.Path.{subst}
use edu_lanka.Prelude.{
  ℕ, ◌≤◌, String, ◌≡◌, ◌≢◌, refl, sym, ap, ◌∙◌, inl, inr, Bool, true, false, Option, none, some,
  Bool-cases, List, All, str_eq, str_eq_iff, str_eq_refl, arith,
}
use edu_lanka.Http.{ok, err, HttpError, resume, return}
use edu_lanka.Redis.{Redis, live, rt}
use edu_lanka.Sessions.{
  revoke_refresh_token, revoke_attempt, revoke_all_attempt, store_refresh_token, given_text,
  is_there,
}
use edu_lanka.Sessions.Keyspaces.{revoke-rt}
use edu_lanka.Sessions.Owners.{Owners, revoke, revoke_all, store, held, specified}
use edu_lanka.Sessions.Refinement.{
  Reached, next, service-entries, Reached-owner, Reached-IsWellFormed, there-owner,
}
use edu_lanka.Sessions.Steps.{Step, DoesNotWrite, IsGone, after_steps, after_steps-IsGone}
use edu_lanka.Auth.{
  Claims, Jwt, TokenPair, AuthConfig, FreshIds, Directory, given_id, current_plan, signed_pair,
  renewed, stored_or_throw, with_pair_plan, issue_token_pair, issue_again, is_user_active, rotate,
  refresh_tokens,
}
use edu_lanka.Auth.Duration.{parse_duration_to_seconds}
use edu_lanka.Auth.Rotation.{no_entry-invalid, refresh_tokens-passed, decoded-refused}

some_injective : {A : Type 0} {a b : A} → some a ≡ some b → a ≡ b
some_injective h = cc

not_there : {A : Type 0} (o : Option A) → is_there o ≡ false → o ≡ none
not_there none h = refl
not_there (some a) h = absurd (let bad : true ≡ false = h in cc)

module _ (R : Redis) (J : Jwt) (conf : AuthConfig) where
  stored-ok :
      (c : Claims) (q p : TokenPair) (x : Bool × R.Db) (db' : R.Db)
      → resume (λ r. return (with_pair_plan R c r)) (stored_or_throw R q x) ≡ (ok p, db')
      → (x.0 ≡ true) × (x.1 ≡ db')
  stored-ok c q p (true, d) db' h = (refl, ap (λ z. z.1) h)
  stored-ok c q p (false, d) db' h =
      absurd (let bad : err HttpError.thrown ≡ ok p = ap (λ z. z.0) h in cc)

  -- The id of a revoked token has no entry, and the new pair's id is another.
  rotated-gone :
      (D : Directory) (ids : FreshIds) (now : ℕ) (c : Claims) (jti : String) (s : R.Db)
      (p : TokenPair) (db' : R.Db)
      → ids.refresh_jti ≢ jti
      → (revoke_attempt R jti now s).0 ≡ true
      → rotate R J conf D ids now c jti true s ≡ (ok p, db')
      → R.entries db' (rt jti) ≡ none
  unfolding issue_again issue_token_pair revoke_refresh_token
  rotated-gone D ids now c jti s p db' d h r =
      let ttl = parse_duration_to_seconds conf.refresh_expires_in in
      let user = (current_plan D c).sub in
      let s' = (revoke_attempt R jti now s).1 in
      let new = ids.refresh_jti in
      let pair = signed_pair J conf ids now (renewed (current_plan D c)) in
      let (a, e) =
        stored-ok (current_plan D c) pair p (store_refresh_token R new user ttl now s') db' r in
      let other : str_eq new jti ≡ false = elim (Bool-cases (str_eq new jti)) [
        | inl k ↦ absurd (d ((str_eq_iff new jti).0 k))
        | inr k ↦ k
      ] in
      let revoked = ap (λ E. E (rt jti)) (service-entries R ttl now (revoke jti) s h) in
      let gone : R.entries s' (rt jti) ≡ none =
        revoked
        ∙ rw
            (
              revoke-rt (R.entries s) now jti (given_text (live now (R.entries s (rt jti)))) jti,
              str_eq_refl jti,
            )
            refl in
      let stored = ap (λ E. E (rt jti)) (service-entries R ttl now (store new user) s' a) in
      ap (λ z. R.entries z (rt jti)) (sym e) ∙ stored ∙ rw other gone

  -- A token whose id has no live entry is refused, and so after any steps that write no entry for it.
  gone-refused :
      (since : ℕ) (jti token : String) (db : R.Db)
      → IsGone since (rt jti) (R.entries db)
      → ((t : ℕ) (c : Claims) → J.verify token t ≡ some c → given_id c.jti ≡ some jti)
      → (ss : List Step) → All (DoesNotWrite (rt jti)) ss
      → (D : Directory) (ids : FreshIds) (t : ℕ) → since ≤ t
      → refresh_tokens R J conf D ids t token (after_steps R ss db)
        ≡ (err HttpError.unauthorized, after_steps R ss db)
  unfolding refresh_tokens
  gone-refused since jti token db gone named ss w D ids t l =
      let db' = after_steps R ss db in
      decoded-refused R J conf D ids t db' (J.verify token t) (λ c v. inr (
        jti,
        named t c v,
        no_entry-invalid R jti t db' (after_steps-IsGone R since (rt jti) ss db w gone t l),
      ))

  named_by :
      (token : String) (u : ℕ) (c : Claims) (jti : String)
      → J.verify token u ≡ some c
      → given_id c.jti ≡ some jti
      → (t : ℕ) (d : Claims) → J.verify token t ≡ some d
      → given_id d.jti ≡ some jti
  named_by token u c jti v g t d w = ap (λ z. given_id z.jti) (J.verify_same token u t c d v w) ∙ g

  -- If a refresh gives a pair, with a new id other than the old one, and Redis answered its revocation
  -- of the old id, then, whatever Redis executes afterwards but for commands that write an entry for the
  -- old id, the same token is refused at any time: as unauthorized, with nothing changed.
  pub refresh_tokens-once :
      (D : Directory) (ids : FreshIds) (now : ℕ) (token : String) (db : R.Db) (p : TokenPair)
      (db' : R.Db) (c : Claims) (jti : String)
      → J.verify token now ≡ some c
      → given_id c.jti ≡ some jti
      → ids.refresh_jti ≢ jti
      → (revoke_attempt R jti now (is_user_active R D c.sub c.role now db).1).0 ≡ true
      → refresh_tokens R J conf D ids now token db ≡ (ok p, db')
      → (ss : List Step) → All (DoesNotWrite (rt jti)) ss
      → (D' : Directory) (ids' : FreshIds) (t : ℕ)
      → refresh_tokens R J conf D' ids' t token (after_steps R ss db')
        ≡ (err HttpError.unauthorized, after_steps R ss db')
  refresh_tokens-once D ids now token db p db' c jti v g d a h ss w D' ids' t =
      let (c', jti', (v', _, g', _, _), rotated) =
        refresh_tokens-passed R J conf D ids now token db p db' h in
      let same : c ≡ c' = J.verify_same token now now c' c v' v in
      let same_id : jti ≡ jti' = some_injective (sym g ∙ ap (λ z. given_id z.jti) same ∙ g') in
      let rotated' =
        subst
          (λ z.
            rotate R J conf D ids now z jti true (is_user_active R D z.sub z.role now db).1
            ≡ (ok p, db'))
          (sym same)
          (subst
            (λ j.
              rotate R J conf D ids now c' j true (is_user_active R D c'.sub c'.role now db).1
              ≡ (ok p, db'))
            (sym same_id) rotated) in
      let gone =
        rotated-gone D ids now c jti (is_user_active R D c.sub c.role now db).1 p db' d a
          rotated' in
      gone-refused 0 jti token db' (λ u l. ap (live u) gone) (named_by token now c jti v g) ss w D'
        ids' t (omega arith)

  -- When `revokeAllUserRefreshTokens` has been answered, then, whatever Redis executes afterwards but for
  -- commands that write an entry for the token's id, a token that belonged to the user is refused at any
  -- later time.
  pub revoke_all-refuses :
      (ttl now later : ℕ) (db : R.Db) (O : Owners) (user : String)
      → Reached R ttl now db O
      → now ≤ later
      → (revoke_all_attempt R user later db).0 ≡ true
      → (token : String) (u : ℕ) (c : Claims) (jti : String) (e : ℕ) → J.verify token u ≡ some c
      → given_id c.jti ≡ some jti
      → O jti ≡ some (user, e)
      → (ss : List Step) → All (DoesNotWrite (rt jti)) ss
      → (D : Directory) (ids : FreshIds) (t : ℕ) → later ≤ t
      → let db' = after_steps R ss (revoke_all_attempt R user later db).1 in
        refresh_tokens R J conf D ids t token db' ≡ (err HttpError.unauthorized, db')
  revoke_all-refuses ttl now later db O user r l a token u c jti e v g o ss w D ids t m =
      let db' = (revoke_all_attempt R user later db).1 in
      let reached = next now later db O (revoke_all user) r l tt a in
      let O' = specified ttl later (revoke_all user) O in
      let not_held : (z : ℕ) → held z (O' jti) ≡ none = λ z. rw (o, str_eq_refl user) refl in
      let gone : IsGone later (rt jti) (R.entries db') = λ z k.
        not_there (live z (R.entries db' (rt jti))) (
          there-owner R ttl later z (R.entries db') jti
            (Reached-IsWellFormed R ttl later db' O' reached)
          ∙ ap is_there (Reached-owner R ttl later db' O' reached z k jti ∙ not_held z)) in
      gone-refused later jti token db' gone (named_by token u c jti v g) ss w D ids t m
