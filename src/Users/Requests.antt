-- ===== src/Users/Requests.antt =====
-- The requests of a user whom Redis caches as inactive, or not at all
-- (apps/api/src/modules/auth/strategies/jwt.strategy.ts, auth.service.ts).
use edu_lanka.Prelude.{
  ℕ, ◌+◌, String, ◌≡◌, refl, sym, ap, ◌∙◌, ◌⊎◌, inl, inr, Bool, true, false, Option, none, some,
  List, [], ◌∷◌, All, Bool-cases, str_eq, str_eq_iff, if◌then◌else◌,
}
use edu_lanka.Http.{Result, ok, err, HttpError, Action, resume, ◌>>=◌, ◌>>◌, return, require}
use edu_lanka.Postgrest.{Reply, found, failed}
use edu_lanka.User.{is_super_admin}
use edu_lanka.Redis.{text, entry, Redis, Keyspace, Key, set_ex}
use edu_lanka.Sessions.{get_cached_user_active, cache_user_active, is_token_revoked}
use edu_lanka.Sessions.Steps.{Step, DoesNotWrite, after_steps, step-kept_or_gone}
use edu_lanka.Auth
use edu_lanka.Auth.{Claims, Directory, is_true, looked_up, is_user_active}
use edu_lanka.Auth.Strategy.{passes_type, validate}

-- What Redis caches of the user, at any time: nothing, or that it is inactive.
abbrev pub IsOff : String → Keyspace → Type 0
IsOff u E =
    (E (Key.user_active u) ≡ none)
    ⊎ ((e : ℕ) × (E (Key.user_active u) ≡ some (entry (text "0") (some e))))

-- A request with its token's claims, after the start of the deployment, at a time; or what else Redis
-- executes.
pub data Event : Type 0 where
  request : ℕ → ℕ → Claims → Event
  other : Step → Event

-- No request with the user's id has a role of the platform, and nothing else writes the cached answer.
abbrev pub LeavesOff : String → Event → Type 0
LeavesOff u (request deployed now c) = c.sub ≡ u → is_super_admin c.role ≡ false
LeavesOff u (other s) = DoesNotWrite (Key.user_active u) s

-- The state of a check that lets pass only if another one says so.
guarded-state :
    {S : Type 0} (P : S → Type 0) (a b : Bool) (m : Action S Bool) (c : Claims) (s : S)
    → P s
    → P (m s).1
    → P
        ((require a HttpError.unauthorized >> require b HttpError.unauthorized >> m >>= λ active.
            require active HttpError.unauthorized >> return c)
          s).1
guarded-state {S} P true true m c s here there = go (m s) there
  where
    go :
        (x : Result Bool × S)
        → P x.1
        → P (resume (λ active. require active HttpError.unauthorized >> return c) x).1
    go (ok true, t) h = h
    go (ok false, t) h = h
    go (err e, t) h = h
guarded-state P true false m c s here there = here
guarded-state P false b m c s here there = here

module _ (R : Redis) (Dir : Directory) (u : String) where
  unfoldable pub after_events : List Event → R.Db → R.Db
  after_events [] db = db
  after_events (request deployed now c ∷ es) db =
      after_events es (validate R Dir deployed now c db).1
  after_events (other s ∷ es) db = after_events es (after_steps R (s ∷ []) db)

  kept-IsOff :
      (E F : Keyspace) → F (Key.user_active u) ≡ E (Key.user_active u) → IsOff u E → IsOff u F
  kept-IsOff E F kept (inl n) = inl (kept ∙ n)
  kept-IsOff E F kept (inr (x, n)) = inr (x, kept ∙ n)

  -- What is cached of a user after it has been looked up.
  cache-IsOff :
      (v : String) (b : Bool) (now : ℕ) (db : R.Db)
      → (v ≡ u → b ≡ false)
      → IsOff u (R.entries db)
      → IsOff u (R.entries (cache_user_active R v b 60 now db))
  unfolding cache_user_active
  cache-IsOff v b now db off h =
      let c = set_ex (Key.user_active v) (text (if b then "1" else "0")) 60 in
      let new = R.entries (R.exec now c db).1 in
      elim (Bool-cases (R.exec now c db).0) [
        | inr e ↦
            kept-IsOff (R.entries db) new
              (ap (λ E. E (Key.user_active u)) (R.exec_false now c db e)) h
        | inl e ↦ elim (Bool-cases (str_eq v u)) [
          | inl s ↦ inr (
            now + 60,
            ap (λ E. E (Key.user_active u)) (R.exec_true now c db e)
                ∙ rw (s, off ((str_eq_iff v u).0 s)) refl,
          )
          | inr s ↦
              kept-IsOff (R.entries db) new
                (ap (λ E. E (Key.user_active u)) (R.exec_true now c db e) ∙ rw s refl) h
        ]
      ]

  -- The lookup of the user does not find it active.
  abbrev pub FindsInactive : Type 0
  FindsInactive = (y : Option (Option Bool)) → Dir.active_of u ≡ found y → is_true y ≡ false

  looked_up-IsOff :
      (c : Claims) (now : ℕ) (db : R.Db) (o : Option Bool)
      → FindsInactive
      → (c.sub ≡ u → is_super_admin c.role ≡ false)
      → IsOff u (R.entries db)
      → IsOff u (R.entries (looked_up R Dir c.sub c.role now o db).1)
  looked_up-IsOff c now db (some b) f a h = h
  looked_up-IsOff c now db none f a h = elim (Bool-cases (is_super_admin c.role)) [
    | inl e ↦ rw e (
        admin_active-IsOff (Dir.admin_of c.sub)
          (λ same. absurd (let bad : true ≡ false = sym e ∙ a same in cc)))
    | inr e ↦ rw e (user_active-IsOff (Dir.active_of c.sub) refl)
  ]
    where
      admin_active-IsOff :
          (r : Reply (Option String))
          → ¬ (c.sub ≡ u)
          → IsOff u (R.entries (Auth.admin_active R c.sub now r db).1)
      admin_active-IsOff failed n = h
      admin_active-IsOff (found o) n = cache-IsOff c.sub _ now db (λ same. absurd (n same)) h

      user_active-IsOff :
          (r : Reply (Option (Option Bool)))
          → Dir.active_of c.sub ≡ r
          → IsOff u (R.entries (Auth.user_active R c.sub now r db).1)
      user_active-IsOff failed e = h
      user_active-IsOff (found y) e =
          cache-IsOff c.sub (is_true y) now db
            (λ same. f y (ap (λ z. Dir.active_of z) (sym same) ∙ e)) h

  validate-IsOff :
      (deployed now : ℕ) (c : Claims) (db : R.Db)
      → FindsInactive
      → (c.sub ≡ u → is_super_admin c.role ≡ false)
      → IsOff u (R.entries db)
      → IsOff u (R.entries (validate R Dir deployed now c db).1)
  unfolding validate is_user_active
  validate-IsOff deployed now c db f a h =
      guarded-state (λ d. IsOff u (R.entries d)) (passes_type deployed now c.token_type)
        (if is_token_revoked R c.sub c.iat now db then false else true)
        (is_user_active R Dir c.sub c.role now) c db h
        (looked_up-IsOff c now db (get_cached_user_active R c.sub now db) f a h)

  step-IsOff :
      (s : Step) (db : R.Db)
      → DoesNotWrite (Key.user_active u) s
      → IsOff u (R.entries db)
      → IsOff u (R.entries (after_steps R (s ∷ []) db))
  step-IsOff s db w h = elim (step-kept_or_gone R (Key.user_active u) s db w) [
    | inl kept ↦ kept-IsOff (R.entries db) (R.entries (after_steps R (s ∷ []) db)) kept h
    | inr gone ↦ inl gone
  ]

  -- Whatever requests come, the user is not cached as active.
  pub after_events-IsOff :
      (es : List Event) (db : R.Db)
      → FindsInactive
      → All (LeavesOff u) es
      → IsOff u (R.entries db)
      → IsOff u (R.entries (after_events es db))
  unfolding after_events
  after_events-IsOff [] db f w h = h
  after_events-IsOff (request deployed now c ∷ es) db f (w, ws) h =
      after_events-IsOff es (validate R Dir deployed now c db).1 f ws
        (validate-IsOff deployed now c db f w h)
  after_events-IsOff (other s ∷ es) db f (w, ws) h =
      after_events-IsOff es (after_steps R (s ∷ []) db) f ws (step-IsOff s db w h)
