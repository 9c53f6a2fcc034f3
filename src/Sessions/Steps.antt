-- ===== src/Sessions/Steps.antt =====
-- What Redis executes between two calls of the API
-- (apps/api/src/modules/redis/redis.service.ts).
use edu_lanka.Prelude.{
  ℕ, ◌≤◌, ◌≡◌, refl, ap, ◌∙◌, ◌⊎◌, inl, inr, Bool, false, none, List, [], ◌∷◌, All, any, Bool-cases,
}
use edu_lanka.Postgrest.{Reply, found, failed}
use edu_lanka.Redis.{
  Redis, Command, set_ex, sadd, srem, expire, del, applied, Keyspace, Key, key_eq, live,
}

-- A command with its time, answered or not, or an INCR.
pub data Step : Type 0 where
  command : ℕ → Command → Step
  increment : ℕ → Key → Step

-- A command that may put something under the key: any on it that is no deletion.
abbrev pub writes : Key → Command → Bool
writes k (set_ex j v ttl) = key_eq j k
writes k (sadd j m) = key_eq j k
writes k (srem j m) = key_eq j k
writes k (expire j ttl) = key_eq j k
writes k (del ks) = false

abbrev pub DoesNotWrite : Key → Step → Type 0
DoesNotWrite k (command now c) = writes k c ≡ false
DoesNotWrite k (increment now j) = key_eq j k ≡ false

module _ (R : Redis) where
  unfoldable pub after_steps : List Step → R.Db → R.Db
  after_steps [] db = db
  after_steps (command now c ∷ ss) db = after_steps ss (R.exec now c db).1
  after_steps (increment now k ∷ ss) db = after_steps ss (R.incr now k db).1

-- From some time on, a read of the key finds nothing.
abbrev pub IsGone : ℕ → Key → Keyspace → Type 0
IsGone since k E = (t : ℕ) → since ≤ t → live t (E k) ≡ none

applied-kept_or_gone :
    (now : ℕ) (k : Key) (c : Command) (E : Keyspace)
    → writes k c ≡ false
    → (applied now c E k ≡ E k) ⊎ (applied now c E k ≡ none)
applied-kept_or_gone now k (set_ex j v ttl) E h = inl (rw h refl)
applied-kept_or_gone now k (sadd j m) E h = inl (rw h refl)
applied-kept_or_gone now k (srem j m) E h = inl (rw h refl)
applied-kept_or_gone now k (expire j ttl) E h = inl (rw h refl)
applied-kept_or_gone now k (del ks) E h = elim (Bool-cases (any (λ j. key_eq j k) ks)) [
  | inl e ↦ inr (rw e refl)
  | inr e ↦ inl (rw e refl)
]

module _ (R : Redis) (k : Key) where
  exec-kept_or_gone :
      (now : ℕ) (c : Command) (db : R.Db)
      → writes k c ≡ false
      → (R.entries (R.exec now c db).1 k ≡ R.entries db k)
        ⊎ (R.entries (R.exec now c db).1 k ≡ none)
  exec-kept_or_gone now c db w = elim (Bool-cases (R.exec now c db).0) [
    | inl e ↦
        let after = ap (λ E. E k) (R.exec_true now c db e) in
        elim (applied-kept_or_gone now k c (R.entries db) w) [
          | inl kept ↦ inl (after ∙ kept)
          | inr gone ↦ inr (after ∙ gone)
        ]
    | inr e ↦ inl (ap (λ E. E k) (R.exec_false now c db e))
  ]

  incr-kept :
      (now : ℕ) (j : Key) (db : R.Db) (r : Reply ℕ)
      → (R.incr now j db).0 ≡ r
      → key_eq j k ≡ false
      → R.entries (R.incr now j db).1 k ≡ R.entries db k
  incr-kept now j db failed e w = ap (λ E. E k) (R.incr_failed now j db e)
  incr-kept now j db (found n) e w = ap (λ E. E k) (R.incr_found now j db n e).1 ∙ rw w refl

  -- A step that does not write the key keeps what is there, or deletes it.
  pub step-kept_or_gone :
      (s : Step) (db : R.Db)
      → DoesNotWrite k s
      → (R.entries (after_steps R (s ∷ []) db) k ≡ R.entries db k)
        ⊎ (R.entries (after_steps R (s ∷ []) db) k ≡ none)
  unfolding after_steps
  step-kept_or_gone (command now c) db w = exec-kept_or_gone now c db w
  step-kept_or_gone (increment now j) db w = inl (incr-kept now j db _ refl w)

module _ (R : Redis) (since : ℕ) (k : Key) where
  step-IsGone :
      (s : Step) (db : R.Db)
      → DoesNotWrite k s
      → IsGone since k (R.entries db)
      → IsGone since k (R.entries (after_steps R (s ∷ []) db))
  step-IsGone s db w h t l = elim (step-kept_or_gone R k s db w) [
    | inl kept ↦ ap (live t) kept ∙ h t l
    | inr gone ↦ ap (live t) gone
  ]

  -- What is gone stays gone while nothing writes the key.
  pub after_steps-IsGone :
      (ss : List Step) (db : R.Db)
      → All (DoesNotWrite k) ss
      → IsGone since k (R.entries db)
      → IsGone since k (R.entries (after_steps R ss db))
  unfolding after_steps
  after_steps-IsGone [] db w h = h
  after_steps-IsGone (command now c ∷ ss) db (w, ws) h =
      after_steps-IsGone ss (R.exec now c db).1 ws (step-IsGone (command now c) db w h)
  after_steps-IsGone (increment now j ∷ ss) db (w, ws) h =
      after_steps-IsGone ss (R.incr now j db).1 ws (step-IsGone (increment now j) db w h)
