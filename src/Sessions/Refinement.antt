-- ===== src/Sessions/Refinement.antt =====
-- The methods of apps/api/src/modules/redis/redis.service.ts on refresh tokens implement the table of
-- owners.
use mathlib.Core.Path.{subst}
use edu_lanka.Prelude.{
  ℕ, ◌≤◌, String, ◌≡◌, ◌≢◌, refl, sym, ap, ◌∙◌, inl, inr, Bool, true, false, Option, none, some,
  List, [], ◌∷◌, ltb, Bool-cases, Option-cases, arith,
}
use edu_lanka.Postgrest.{Reply, found, failed}
use edu_lanka.Redis.{
  members, entry, Redis, Value, text, entry, Keyspace, live, Command, applied, applied_all, rt,
  user_rts,
}
use edu_lanka.Sessions.{
  store_commands, revoke_commands, revoke_all_commands, members_of, given_text, is_there, try_next,
  try_all, try_read, store_refresh_token, revoke_attempt, revoke_all_attempt,
  is_refresh_token_valid, exists_reply,
}
use edu_lanka.Sessions.Listing.{IsWellFormed, later-IsWellFormed}
use edu_lanka.Sessions.Listing.{dropped-IsWellFormed}
use edu_lanka.Sessions.Owners.{
  text_value, Operation, store, revoke, revoke_all, Owners, specified, held, owner, after,
  IsFreshFor, after-IsWellFormed, after-owner,
}

module _ (R : Redis) where
  abbrev pub service : ℕ → ℕ → Operation → R.Db → Bool × R.Db
  service ttl now (store jti user) db = store_refresh_token R jti user ttl now db
  service ttl now (revoke jti) db = revoke_attempt R jti now db
  service ttl now (revoke_all user) db = revoke_all_attempt R user now db

  try_next-entries :
      (now : ℕ) (cs : List Command) (x : Bool × R.Db) (E : Keyspace)
      → (x.0 ≡ true → R.entries x.1 ≡ E)
      → ((d : R.Db)
          → (try_all R now cs d).0 ≡ true
          → R.entries (try_all R now cs d).1 ≡ applied_all now cs (R.entries d))
      → (try_next R (try_all R now cs) x).0 ≡ true
      → R.entries (try_next R (try_all R now cs) x).1 ≡ applied_all now cs E
  try_next-entries now cs (true, d) E f rest h = rest d h ∙ ap (applied_all now cs) (f refl)
  try_next-entries now cs (false, d) E f rest h = absurd (let bad : false ≡ true = h in cc)

  pub try_all-entries :
      (now : ℕ) (cs : List Command) (db : R.Db)
      → (try_all R now cs db).0 ≡ true
      → R.entries (try_all R now cs db).1 ≡ applied_all now cs (R.entries db)
  try_all-entries now [] db h = refl
  try_all-entries now (c ∷ cs) db h =
      try_next-entries now cs (R.exec now c db) (applied now c (R.entries db))
        (λ k. R.exec_true now c db k) (λ d g. try_all-entries now cs d g) h

  pub try_read-entries :
      (now : ℕ) (cs : Option Value → List Command) (v : Option Value) (db : R.Db)
      (r : Reply (Option Value))
      → ((x : Option Value) → r ≡ found x → x ≡ v)
      → (try_read R (λ x d. try_all R now (cs x) d) r db).0 ≡ true
      → R.entries (try_read R (λ x d. try_all R now (cs x) d) r db).1
        ≡ applied_all now (cs v) (R.entries db)
  try_read-entries now cs v db failed f h = absurd (let bad : false ≡ true = h in cc)
  try_read-entries now cs v db (found x) f h =
      try_all-entries now (cs x) db h ∙ ap (λ z. applied_all now (cs z) (R.entries db)) (f x refl)

  pub service-entries :
      (ttl now : ℕ) (op : Operation) (db : R.Db)
      → (service ttl now op db).0 ≡ true
      → R.entries (service ttl now op db).1 ≡ after ttl now op (R.entries db)
  unfolding store_refresh_token revoke_attempt revoke_all_attempt
  service-entries ttl now (store jti user) db h =
      try_all-entries now (store_commands jti user ttl) db h
  service-entries ttl now (revoke jti) db h =
      try_read-entries now (λ v. revoke_commands jti (given_text v))
        (live now (R.entries db (rt jti))) db (R.read now (rt jti) db)
        (R.read_found now (rt jti) db) h
  service-entries ttl now (revoke_all user) db h =
      try_read-entries now (λ v. revoke_all_commands user now (members_of v))
        (live now (R.entries db (user_rts user))) db (R.read now (user_rts user) db)
        (R.read_found now (user_rts user) db) h

  -- What operations whose commands are all answered reach from an empty Redis, and what the
  -- specification says then. Time does not go back, and new ids are fresh.
  pub data Reached (ttl : ℕ) : ℕ → R.Db → Owners → Type 0 where
    empty :
        (now : ℕ) (db : R.Db)
        → ((j : String) → R.entries db (rt j) ≡ none)
        → ((u : String) → R.entries db (user_rts u) ≡ none)
        → Reached ttl now db (λ j. none)
    next :
        (now later : ℕ) (db : R.Db) (O : Owners) (op : Operation)
        → Reached ttl now db O
        → now ≤ later
        → IsFreshFor (R.entries db) op
        → (service ttl later op db).0 ≡ true
        → Reached ttl later (service ttl later op db).1 (specified ttl later op O)
    -- Any other step, which leaves the keys of refresh tokens as they are.
    beside :
        (now : ℕ) (db db' : R.Db) (O : Owners)
        → Reached ttl now db O
        → ((j : String) → R.entries db' (rt j) ≡ R.entries db (rt j))
        → ((u : String) → R.entries db' (user_rts u) ≡ R.entries db (user_rts u))
        → Reached ttl now db' O

  beside-IsWellFormed :
      (ttl now : ℕ) (E F : Keyspace)
      → IsWellFormed ttl now E
      → ((j : String) → F (rt j) ≡ E (rt j))
      → ((u : String) → F (user_rts u) ≡ E (user_rts u))
      → IsWellFormed ttl now F
  beside-IsWellFormed ttl now E F w f g =
      dropped-IsWellFormed ttl now E w F
        (λ j en h. (sym (f j) ∙ h, λ u e l k (ms, until, i, m, b). (ms, until, g u ∙ i, m, b)))
        (λ u en h.
          let (ms, e, k, own) = w.1 u en (sym (g u) ∙ h) in
          let h' : E (user_rts u) ≡ some (entry (members ms) (some e)) = rw k at (sym (g u) ∙ h) in
          (ms, ms, e, k, h', λ x i. i))

  pub Reached-IsWellFormed :
      (ttl now : ℕ) (db : R.Db) (O : Owners)
      → Reached ttl now db O
      → IsWellFormed ttl now (R.entries db)
  Reached-IsWellFormed ttl _ _ _ (empty now db no_rt no_set) = (
    λ j en h. absurd (let bad : none ≡ some en = sym (no_rt j) ∙ h in cc),
    λ u en h. absurd (let bad : none ≡ some en = sym (no_set u) ∙ h in cc),
  )
  Reached-IsWellFormed ttl _ _ _ (next before later d P op r l f a) =
      subst (IsWellFormed ttl later) (sym (service-entries ttl later op d a)) (
        after-IsWellFormed ttl later op (R.entries d)
          (later-IsWellFormed ttl before later (R.entries d) l
            (Reached-IsWellFormed ttl before d P r))
          f)
  Reached-IsWellFormed ttl _ _ _ (beside now d db P r f g) =
      beside-IsWellFormed ttl now (R.entries d) (R.entries db) (Reached-IsWellFormed ttl now d P r)
        f g

  pub Reached-owner :
      (ttl now : ℕ) (db : R.Db) (O : Owners)
      → Reached ttl now db O
      → (t : ℕ) → now ≤ t
      → (j : String) → owner (R.entries db) t j ≡ held t (O j)
  Reached-owner ttl _ _ _ (empty now db no_rt no_set) t l j = rw (no_rt j)
  Reached-owner ttl _ _ _ (next before later d P op r m f a) t l j =
      subst (λ E. owner E t j ≡ held t (specified ttl later op P j))
        (sym (service-entries ttl later op d a))
        (after-owner ttl later (R.entries d)
          (later-IsWellFormed ttl before later (R.entries d) m
            (Reached-IsWellFormed ttl before d P r))
          op P (λ t k j. Reached-owner ttl before d P r t (omega arith) j) t l j)
  Reached-owner ttl _ _ _ (beside now d db P r f g) t l j =
      ap (λ z. text_value (live t z)) (f j) ∙ Reached-owner ttl now d P r t l j

  -- A token's key holds a text.
  pub there-owner :
      (ttl now t : ℕ) (E : Keyspace) (jti : String)
      → IsWellFormed ttl now E
      → is_there (live t (E (rt jti))) ≡ is_there (owner E t jti)
  there-owner ttl now t E jti w = elim (Option-cases (E (rt jti))) [
    | inl n ↦ rw n
    | inr (en, g) ↦
        let (u, e, k, _, _) = w.0 jti en g in
        let g' : E (rt jti) ≡ some (entry (text u) (some e)) = rw k at g in
        elim (Bool-cases (ltb t e)) [ inl l ↦ rw (g', l) | inr l ↦ rw (g', l) ]
  ]

  pub exists_reply-found :
      (r : Reply (Option Value)) (v : Option Value)
      → ((x : Option Value) → r ≡ found x → x ≡ v)
      → r ≢ failed
      → exists_reply R r ≡ is_there v
  exists_reply-found failed v f h = absurd (h refl)
  exists_reply-found (found x) v f h = ap is_there (f x refl)

  -- After stores, revocations and revocations of all of a user's tokens, whose commands were all
  -- answered, with one ttl, at times that do not go back, of fresh ids, from an empty Redis:
  -- `isRefreshTokenValid`, when its read is answered, says whether the table of owners, in which
  -- these are a write, a removal and the removal of all that the user owns, holds the token then.
  pub is_refresh_token_valid_refines :
      (ttl now : ℕ) (db : R.Db) (O : Owners)
      → Reached ttl now db O
      → (t : ℕ) → now ≤ t
      → (jti : String) → R.read t (rt jti) db ≢ failed
      → is_refresh_token_valid R jti t db ≡ is_there (held t (O jti))
  unfolding is_refresh_token_valid
  is_refresh_token_valid_refines ttl now db O r t l jti h =
      exists_reply-found (R.read t (rt jti) db) (live t (R.entries db (rt jti)))
        (R.read_found t (rt jti) db) h
      ∙ there-owner ttl now t (R.entries db) jti (Reached-IsWellFormed ttl now db O r)
      ∙ ap is_there (Reached-owner ttl now db O r t l jti)
