-- ===== src/Users/Deactivation.antt =====
-- What a deactivated user can still do (apps/api/src/modules/users/users.service.ts, with the tokens of
-- apps/api/src/modules/auth/auth.service.ts and strategies/jwt.strategy.ts).
use mathlib.Core.Path.{subst}
use edu_lanka.Prelude.{
  ℕ, ◌+◌, ◌≤◌, String, ◌≡◌, ◌≢◌, refl, sym, ap, ◌∙◌, inl, inr, Bool, true, false, Option, none,
  some, List, All, [], ◌∷◌, select, modify, In, In-select, select-In, modify-In_changed, &&-true,
}
use edu_lanka.Http.{ok, err, HttpError, resume, ◌>>=◌, ◌>>◌, return, require}
use edu_lanka.Postgrest.{Reply, found, failed}
use edu_lanka.Uuid.{is_uuid, get_tenant_client}
use edu_lanka.User.{JwtPayload, is_admin, is_super_admin}
use edu_lanka.Redis.{text, set_ex, rt, user_rts, Key}
use edu_lanka.Sessions.{cache_user_active, revoke_all_attempt, revoke_all_user_refresh_tokens}
use edu_lanka.Sessions.Owners.{Owners}
use edu_lanka.Sessions.Refinement.{Reached, beside}
use edu_lanka.Sessions.Spared.{exec-spared}
use edu_lanka.Auth.{Claims, Jwt, AuthConfig, FreshIds, Directory, is_true, given_id, refresh_tokens}
use edu_lanka.Auth.Strategy.{validate}
use edu_lanka.Auth.SingleUse.{revoke_all-refuses}
use edu_lanka.Sessions.Steps.{Step, DoesNotWrite, after_steps}
use edu_lanka.Users.Requests.{Event, LeavesOff, IsOff, after_events, after_events-IsOff}
use edu_lanka.Users.Inactive.{validate-inactive, deactivated-mark}
use edu_lanka.Marks.Entering.{step-ok, require-state, require-ok}
use edu_lanka.Users.{
  UserRow, UserStores, School, Caps, is_user, sees, visible_user, activated, active_reply,
  activation_updated, write_activation, activation_concluded, set_activation_status,
}

module _ (D : UserStores) (reg : Caps) where
  -- The row that was written, and the state after it.
  abbrev HasWritten :
      String → Bool → JwtPayload → Option String → ℕ → School D → UserRow → School D → Type 0
  HasWritten id active caller reason now s r s' =
      (old : UserRow) × (db : D.Users.Db) × (select (visible_user id caller) (D.Users.rows s.users)
        ≡ old ∷ [])
      × (r ≡ activated active reason old)
      × (D.Users.rows db
          ≡ modify (visible_user id caller) (activated active reason) (D.Users.rows s.users))
      × (s' ≡ activation_concluded D reg id active reason now r (record s { users = db }))

  written-ok :
      (id : String) (active : Bool) (caller : JwtPayload) (reason : Option String) (now : ℕ)
      (s : School D) (x : Reply (Option UserRow) × D.Users.Db) (r : UserRow) (s' : School D)
      → resume
          (λ u t. (ok u, activation_concluded D reg id active reason now u t))
          (activation_updated D reg s x)
        ≡ (ok r, s')
      → (x.0 ≡ found (some r))
        × (s' ≡ activation_concluded D reg id active reason now r (record s { users = x.1 }))
  written-ok id active caller reason now s (found (some u), db) r s' h =
      let same : ok u ≡ ok r = ap (λ z. z.0) h in
      let e : u ≡ r = cc in
      (
        ap (λ z. found (some z)) e,
        sym (ap (λ z. z.1) h)
            ∙ ap (λ z. activation_concluded D reg id active reason now z (record s { users = db }))
                e,
      )
  written-ok id active caller reason now s (found none, db) r s' h =
      absurd (let bad : err HttpError.not_found ≡ ok r = ap (λ z. z.0) h in cc)
  written-ok id active caller reason now s (failed, db) r s' h =
      absurd (let bad = ap (λ z. z.0) h in cc)

  conclude-ok :
      (id : String) (active : Bool) (caller : JwtPayload) (reason : Option String) (now : ℕ)
      (s : School D) (r : UserRow) (s' : School D)
      → resume
          (λ u t. (ok u, activation_concluded D reg id active reason now u t))
          (write_activation D reg id active caller reason s)
        ≡ (ok r, s')
      → HasWritten id active caller reason now s r s'
  conclude-ok id active caller reason now s r s' h =
      let f = activated active reason in
      let x = D.Users.update_maybe (visible_user id caller) f s.users in
      let (written, after) = written-ok id active caller reason now s x r s' h in
      let (old, one, e, rows) =
        D.Users.update_maybe_some (visible_user id caller) f s.users r written in
      (old, x.1, one, e, rows, after)

  pub set_activation_status-HasWritten :
      (id : String) (caller : JwtPayload) (reason : Option String) (now : ℕ) (s : School D)
      (r : UserRow) (s' : School D)
      → set_activation_status D reg id false caller reason now s ≡ (ok r, s')
      → (is_admin caller.role ≡ true) × HasWritten id false caller reason now s r s'
  unfolding set_activation_status
  set_activation_status-HasWritten id caller reason now s r s' h =
      let write = write_activation D reg id false caller reason >>= λ u t.
      (ok u, activation_concluded D reg id false reason now u t) in
      let (a, h0) =
        step-ok (require (is_admin caller.role) HttpError.forbidden)
          (get_tenant_client caller.tenant_id >> (return tt >> write)) s s' r
          (require-state (is_admin caller.role) HttpError.forbidden s) h in
      let (_, h') =
        step-ok (get_tenant_client caller.tenant_id) (return tt >> write) s s' r
          (require-state (is_uuid caller.tenant_id) HttpError.bad_request s) h0 in
      (
        require-ok (is_admin caller.role) HttpError.forbidden s a,
        conclude-ok id false caller reason now s r s' h',
      )

  reply-inactive :
      (p : UserRow → Bool) (db : D.Users.Db) (o : Option (Option Bool)) (u : UserRow)
      → In u (select p (D.Users.rows db))
      → u.is_active ≡ false
      → (x : Reply (Option UserRow)) → D.Users.maybe_single p db ≡ x
      → active_reply x ≡ found o
      → is_true o ≡ false
  reply-inactive p db o u m off failed e h = cc
  reply-inactive p db o u m off (found none) e h =
      let none_passes = D.Users.maybe_single_none p db e in
      let bad : In u [] = rw none_passes at m in absurd bad
  reply-inactive p db o u m off (found (some r)) e h =
      let only = D.Users.maybe_single_some p db r e in
      let m' : In u (r ∷ []) = rw only at m in
      elim m' [
        | inl same ↦
            let off' : r.is_active ≡ false = ap (λ z. z.is_active) (sym same) ∙ off in
            let given : some (some r.is_active) ≡ o = cc in
            subst (λ z. is_true z ≡ false) given off'
        | inr bad ↦ absurd bad
      ]

  -- The row of a deactivated user, found by its id, is not active.
  written-inactive :
      (id : String) (caller : JwtPayload) (reason : Option String) (db db' : D.Users.Db)
      (old : UserRow) (o : Option (Option Bool))
      → select (visible_user id caller) (D.Users.rows db) ≡ old ∷ []
      → D.Users.rows db'
        ≡ modify (visible_user id caller) (activated false reason) (D.Users.rows db)
      → active_reply (D.Users.maybe_single (is_user id) db') ≡ found o
      → is_true o ≡ false
  written-inactive id caller reason db db' old o one rows h =
      let f = activated false reason in
      let is_old : In old (select (visible_user id caller) (D.Users.rows db)) = rw one (inl refl) in
      let (there, passes) = In-select (visible_user id caller) old (D.Users.rows db) is_old in
      let changed =
        modify-In_changed (visible_user id caller) f old (D.Users.rows db) there passes in
      let (named, _) = &&-true (is_user id old) (sees caller old) passes in
      reply-inactive (is_user id) db' o (f old)
        (select-In (is_user id) (f old) (D.Users.rows db') (rw rows changed) named) refl
        (D.Users.maybe_single (is_user id) db') refl h

module _ (D : UserStores) (reg : Caps) where
  -- After a deactivation that succeeds, with the cached answer written to Redis, come any requests, of this
  -- user and of others, and any other commands of Redis that do not write that answer. Then no access token
  -- of the user passes the check of requests, at any time, as long as the lookup of the user finds what
  -- the deactivation left in `users`. The roles of the platform are looked up elsewhere, and are excluded.
  pub deactivated-validate_refused :
      (id : String) (caller : JwtPayload) (reason : Option String) (now : ℕ) (s : School D)
      (r : UserRow) (s' : School D)
      → set_activation_status D reg id false caller reason now s ≡ (ok r, s')
      → (D.Cache.exec now (set_ex (Key.user_active id) (text "0") 60) s.redis).0 ≡ true
      → (Dir : Directory)
      → Dir.active_of id ≡ active_reply (D.Users.maybe_single (is_user id) s'.users)
      → (es : List Event) → All (LeavesOff id) es
      → (c c' : Claims) (deployed t : ℕ) → c.sub ≡ id
      → is_super_admin c.role ≡ false
      → (validate D.Cache Dir deployed t c (after_events D.Cache Dir id es s'.redis)).0 ≢ ok c'
  deactivated-validate_refused id caller reason now s r s' h a Dir l es w c c' deployed t u p =
      let (_, (old, db, one, _, rows, after)) =
        set_activation_status-HasWritten D reg id caller reason now s r s' h in
      let marked =
        ap (λ z. D.Cache.entries z.redis (Key.user_active id)) after
        ∙ deactivated-mark D.Cache id now s.redis a in
      let off : (y : Option (Option Bool)) → Dir.active_of id ≡ found y → is_true y ≡ false = λ y k.
        written-inactive D reg id caller reason s.users db old y one rows (
          ap (λ z. active_reply (D.Users.maybe_single (is_user id) z.users)) (sym after)
          ∙ sym l
          ∙ k) in
      let cached = after_events-IsOff D.Cache Dir id es s'.redis off w (inr (now + 60, marked)) in
      validate-inactive D.Cache Dir c c' deployed t (after_events D.Cache Dir id es s'.redis)
        (subst (λ z. IsOff z (D.Cache.entries (after_events D.Cache Dir id es s'.redis))) (sym u)
          cached)
        p
        (subst (λ z. (y : Option (Option Bool)) → Dir.active_of z ≡ found y → is_true y ≡ false)
          (sym u) off)

  -- When the refresh tokens in Redis are those that the table of owners tells, and a deactivation
  -- succeeds, with the revocation of refresh tokens answered, then, whatever Redis executes afterwards but
  -- for commands that write an entry for the token's id, a token that verifies and whose id belonged to
  -- the user is refused at any later time, as unauthorized, with nothing changed.
  pub deactivated-refresh_refused :
      (jwt : Jwt) (conf : AuthConfig) (ttl before now : ℕ) (O : Owners) (id : String)
      (caller : JwtPayload) (reason : Option String) (s : School D) (r : UserRow) (s' : School D)
      → Reached D.Cache ttl before s.redis O
      → before ≤ now
      → set_activation_status D reg id false caller reason now s ≡ (ok r, s')
      → (revoke_all_attempt D.Cache id now (cache_user_active D.Cache id false 60 now s.redis)).0
        ≡ true
      → (token : String) (u : ℕ) (c : Claims) (jti : String) (e : ℕ) → jwt.verify token u ≡ some c
      → given_id c.jti ≡ some jti
      → O jti ≡ some (id, e)
      → (ss : List Step) → All (DoesNotWrite (rt jti)) ss
      → (Dir : Directory) (ids : FreshIds) (t : ℕ) → now ≤ t
      → refresh_tokens D.Cache jwt conf Dir ids t token (after_steps D.Cache ss s'.redis)
        ≡ (err HttpError.unauthorized, after_steps D.Cache ss s'.redis)
  unfolding cache_user_active revoke_all_user_refresh_tokens
  deactivated-refresh_refused jwt conf ttl before now O id caller reason s r s' reached l h a token
        u c jti e v g o ss w Dir ids t m =
      let (_, (old, db, one, _, rows, after)) =
        set_activation_status-HasWritten D reg id caller reason now s r s' h in
      let cleared = cache_user_active D.Cache id false 60 now s.redis in
      let command = set_ex (Key.user_active id) (text "0") 60 in
      let cached =
        beside before s.redis cleared O reached
          (λ j. exec-spared D.Cache (rt j) now command s.redis (λ E. refl))
          (λ u. exec-spared D.Cache (user_rts u) now command s.redis (λ E. refl)) in
      subst
        (λ z.
          refresh_tokens D.Cache jwt conf Dir ids t token (after_steps D.Cache ss z)
          ≡ (err HttpError.unauthorized, after_steps D.Cache ss z))
        (sym (ap (λ z. z.redis) after))
        (revoke_all-refuses D.Cache jwt conf ttl before now cleared O id cached l a token u c jti e
          v g o ss w Dir ids t m)
