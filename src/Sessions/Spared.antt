-- ===== src/Sessions/Spared.antt =====
-- Commands that leave a key of Redis as it is (apps/api/src/modules/redis/redis.service.ts).
use edu_lanka.Prelude.{
  ℕ, String, ◌≡◌, refl, ap, ◌∙◌, inl, inr, Bool, true, false, Option, List, [], ◌∷◌, All, map, any,
  Bool-cases,
}
use edu_lanka.Postgrest.{Reply, found, failed}
use edu_lanka.Redis.{
  Redis, Value, Command, applied, Keyspace, Key, rt, user_rts, user_active, key_eq,
}
use edu_lanka.Sessions.{
  try_next, try_all, try_read, members_of, revoke_all_commands, revoke_all_attempt,
  revoke_all_user_refresh_tokens,
}

module _ (R : Redis) (k : Key) where
  -- A command that leaves the key as it is.
  abbrev pub Spares : ℕ → Command → Type 0
  Spares now c = (E : Keyspace) → applied now c E k ≡ E k

  pub exec-spared :
      (now : ℕ) (c : Command) (db : R.Db)
      → Spares now c
      → R.entries (R.exec now c db).1 k ≡ R.entries db k
  exec-spared now c db h = elim (Bool-cases (R.exec now c db).0) [
    | inl e ↦ ap (λ E. E k) (R.exec_true now c db e) ∙ h (R.entries db)
    | inr e ↦ ap (λ E. E k) (R.exec_false now c db e)
  ]

  try_next-spared :
      (now : ℕ) (cs : List Command) (x : Bool × R.Db)
      → ((d : R.Db) → R.entries (try_all R now cs d).1 k ≡ R.entries d k)
      → R.entries (try_next R (try_all R now cs) x).1 k ≡ R.entries x.1 k
  try_next-spared now cs (true, d) f = f d
  try_next-spared now cs (false, d) f = refl

  pub try_all-spared :
      (now : ℕ) (cs : List Command) (db : R.Db)
      → All (Spares now) cs
      → R.entries (try_all R now cs db).1 k ≡ R.entries db k
  try_all-spared now [] db h = refl
  try_all-spared now (c ∷ cs) db (h, hs) =
      try_next-spared now cs (R.exec now c db) (λ d. try_all-spared now cs d hs)
      ∙ exec-spared now c db h

  pub try_read-spared :
      (now : ℕ) (cs : Option Value → List Command) (r : Reply (Option Value)) (db : R.Db)
      → ((v : Option Value) → All (Spares now) (cs v))
      → R.entries (try_read R (λ v d. try_all R now (cs v) d) r db).1 k ≡ R.entries db k
  try_read-spared now cs failed db h = refl
  try_read-spared now cs (found v) db h = try_all-spared now (cs v) db (h v)

any-user_active :
    (u : String) (ms : List String) → any (λ k. key_eq k (user_active u)) (map rt ms) ≡ false
any-user_active u [] = refl
any-user_active u (m ∷ ms) = any-user_active u ms

user_active-spared :
    (u user : String) (now : ℕ) (ms : List String)
    → All
        (λ c. (E : Keyspace) → applied now c E (user_active u) ≡ E (user_active u))
        (revoke_all_commands user now ms)
user_active-spared u user now [] = (λ E. refl, (λ E. refl, tt))
user_active-spared u user now (m ∷ ms) =
    (λ E. rw (any-user_active u ms) refl, (λ E. refl, (λ E. refl, tt)))

-- The revocation of a user's tokens leaves what is cached on users.
pub revoke_all-user_active :
    (R : Redis) (u user : String) (now : ℕ) (db : R.Db)
    → R.entries (revoke_all_user_refresh_tokens R user now db) (user_active u)
      ≡ R.entries db (user_active u)
unfolding revoke_all_user_refresh_tokens revoke_all_attempt
revoke_all-user_active R u user now db =
    try_read-spared R (user_active u) now (λ v. revoke_all_commands user now (members_of v))
      (R.read now (user_rts user) db) db (λ v. user_active-spared u user now (members_of v))
