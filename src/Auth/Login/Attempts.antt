-- ===== src/Auth/Login/Attempts.antt =====
-- The limit on failed sign-ins for one identifier (apps/api/src/modules/auth/auth.service.ts).
use edu_lanka.Prelude.{
  ℕ, ◌+◌, ◌≤◌, ◌<◌, min, String, ◌≡◌, refl, ap, ◌∙◌, inl, inr, true, false, Option, some, List, [],
  ◌∷◌, length, All, leb, ◌==◌, str_eq, Bool-cases, if◌then◌else◌, arith,
}
use edu_lanka.Http.{Result, ok, err, HttpError}
use edu_lanka.Postgrest.{Reply, found, failed}
use edu_lanka.Redis.{
  Redis, Value, number, entry, Key, live, live_entry, has_time, incremented, key_eq_refl,
}
use edu_lanka.Auth.Registration.{Issuer, SignedIn}
use edu_lanka.Auth.Login.{
  Lookups, denied, attempts_key, has_used_up, resolved_tenant, authenticate, failure_counted,
  record_failure, concluded, login,
}

-- Attempts that are answered by anything but the limit.
abbrev pub got_through : Result SignedIn → ℕ
got_through (err HttpError.too_many_requests) = 0
got_through _ = 1

module _ (R : Redis) (L : Lookups) (identifier tenant : String) where
  -- How many of a sequence of attempts, each by its time and password, get through the limit, and the
  -- state after them.
  abbrev pub attempts : List (Issuer × String) → R.Db → ℕ × R.Db
  attempts [] db = (0, db)
  attempts ((i, password) ∷ rest) db =
      let (r, after) = login L R i identifier password tenant db in
      let (n, end) = attempts rest after in (got_through r + n, end)

  -- Redis answers reads and counts.
  pub record IsAnswering : Type 0 where
    pub reads : (now : ℕ) (k : Key) (db : R.Db) → (v : Option Value) × (R.read now k db ≡ found v)
    pub counts : (now : ℕ) (k : Key) (db : R.Db) → (n : ℕ) × ((R.incr now k db).0 ≡ found n)

  -- A password that Supabase Auth denies, at a time at which the counter is still there.
  abbrev pub IsDenied : Option String → Option ℕ → Issuer × String → Type 0
  IsDenied resolved end (i, password) =
      (str_eq password "" ≡ false)
      × (authenticate L identifier password resolved ≡ denied)
      × (has_time i.now end ≡ true)

  -- An attempt with given texts in a known tenant is a look at the counter first.
  pub login-attempted :
      (resolved : Option String) (i : Issuer) (password : String) (db : R.Db)
      → str_eq identifier "" ≡ false
      → str_eq password "" ≡ false
      → resolved_tenant L tenant ≡ ok resolved
      → login L R i identifier password tenant db ≡ (
          if has_used_up (R.read i.now (attempts_key identifier) db)
          then (err HttpError.too_many_requests, db)
          else concluded L R i identifier resolved (authenticate L identifier password resolved) db)
  unfolding login
  login-attempted resolved i password db a b r = rw (a, b, r) refl

  -- What a read of the counter finds.
  pub has_used_up-live :
      (now n : ℕ) (end : Option ℕ) (db : R.Db)
      → IsAnswering
      → R.entries db (attempts_key identifier) ≡ some (entry (number n) end)
      → has_time now end ≡ true
      → has_used_up (R.read now (attempts_key identifier) db) ≡ leb 5 n
  has_used_up-live now n end db answering e t =
      let key = attempts_key identifier in
      let (v, k) = answering.reads now key db in
      let at : v ≡ live now (some (entry (number n) end)) =
        R.read_found now key db v k ∙ ap (live now) e in
      let at' : v ≡ some (number n) = rw t at at in
      ap has_used_up k ∙ ap (λ z. has_used_up (found z)) at'

  -- The expiry is set by the first failure only.
  failure_counted-later :
      (key : Key) (now m : ℕ) (x : Reply ℕ × R.Db)
      → x.0 ≡ found m
      → 2 ≤ m
      → failure_counted L R key now x ≡ x.1
  failure_counted-later key now m (found p, db) h l =
      let e : p ≡ m = cc in let k : (p == 1) ≡ false = ground arith in rw k refl
  failure_counted-later key now m (failed, db) h l = cc

  record_failure-counts :
      (now n : ℕ) (end : Option ℕ) (db : R.Db)
      → IsAnswering
      → R.entries db (attempts_key identifier) ≡ some (entry (number n) end)
      → has_time now end ≡ true
      → 1 ≤ n
      → R.entries (record_failure L R (attempts_key identifier) now db) (attempts_key identifier)
        ≡ some (entry (number (n + 1)) end)
  unfolding record_failure
  record_failure-counts now n end db answering e t l =
      let key = attempts_key identifier in
      let (m, k) = answering.counts now key db in
      let (count, after) = R.incr_found now key db m k in
      let old : live_entry now (R.entries db key) ≡ some (entry (number n) end) = rw (e, t) refl in
      let m_is : m ≡ n + 1 = rw old at count in
      let later : 2 ≤ m = omega (arith, m_is, l) in
      let new : incremented now key (R.entries db) key ≡ some (entry (number (n + 1)) end) =
        rw (key_eq_refl key, old) refl in
      ap (λ z. R.entries z key) (failure_counted-later key now m (R.incr now key db) k later)
      ∙ ap (λ E. E key) after
      ∙ new

  -- After a sequence of denied attempts on a counter: it stands at 5 at least, or has counted them all,
  -- and no more have got through than were left.
  abbrev pub IsCounted : ℕ → Option ℕ → ℕ → ℕ × R.Db → Type 0
  IsCounted n end k (through, db) =
      (m : ℕ) × (R.entries db (attempts_key identifier) ≡ some (entry (number m) end))
      × (min 5 (n + k) ≤ m)
      × (n ≤ m)
      × (through + n ≤ m)
      × (m ≤ 5)

  module _ (resolved : Option String) (answering : IsAnswering)
      (given : str_eq identifier "" ≡ false) (known : resolved_tenant L tenant ≡ ok resolved) where
    pub attempts-IsCounted :
        (xs : List (Issuer × String)) (n : ℕ) (end : Option ℕ) (db : R.Db)
        → All (IsDenied resolved end) xs
        → R.entries db (attempts_key identifier) ≡ some (entry (number n) end)
        → 1 ≤ n
        → n ≤ 5
        → IsCounted n end (length xs) (attempts xs db)
    attempts-IsCounted [] n end db h e l u =
        (n, e, omega arith, omega arith, omega arith, omega arith)
    attempts-IsCounted ((i, password) ∷ xs) n end db ((a, d, t), hs) e l u =
        let step = login-attempted resolved i password db given a known in
        let used = has_used_up-live i.now n end db answering e t in
        elim (Bool-cases (leb 5 n)) [
          | inl k ↦
              let refused : login L R i identifier password tenant db
                  ≡ (err HttpError.too_many_requests, db) =
                step ∙ rw (used, k) refl in
              let (m, f, x, y, z, w) = attempts-IsCounted xs n end db hs e l u in
              let full : 5 ≤ n = ground arith in
              rw refused (m, f, omega (arith, full, y), y, omega (arith, z), w)
          | inr k ↦
              let after = record_failure L R (attempts_key identifier) i.now db in
              let refused : login L R i identifier password tenant db
                  ≡ (err HttpError.unauthorized, after) =
                step ∙ rw (used, k, d) refl in
              let more : n < 5 = ground arith in
              let (m, f, x, y, z, w) =
                attempts-IsCounted xs (n + 1) end after hs
                  (record_failure-counts i.now n end db answering e t l) (omega arith)
                  (omega arith) in
              rw refused (m, f, omega (arith, x), omega (arith, y), omega (arith, z), w)
        ]
