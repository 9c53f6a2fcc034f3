-- ===== src/Auth/Login/Limit.antt =====
-- The limit from the first failed sign-in on, and what becomes of it when its minute is not set
-- (apps/api/src/modules/auth/auth.service.ts).
use edu_lanka.Prelude.{
  ℕ, ◌+◌, ◌≤◌, String, ◌≡◌, refl, ap, ◌∙◌, Bool, true, false, Option, none, some, List, ◌∷◌, length,
  All, leb, ◌==◌, str_eq, arith,
}
use edu_lanka.Http.{ok, err, HttpError}
use edu_lanka.Postgrest.{Reply, found, failed}
use edu_lanka.Redis.{Redis, number, entry, expire, live, key_eq_refl}
use edu_lanka.Auth.Registration.{Issuer}
use edu_lanka.Auth.Login.{
  Lookups, attempts_key, has_used_up, resolved_tenant, failure_counted, record_failure, login,
}
use edu_lanka.Auth.Login.Attempts.{
  attempts, IsAnswering, IsDenied, login-attempted, has_used_up-live, attempts-IsCounted,
}

module _ (R : Redis) (L : Lookups) (identifier tenant : String) (resolved : Option String)
    (answering : IsAnswering R L identifier tenant) (given : str_eq identifier "" ≡ false)
    (known : resolved_tenant L tenant ≡ ok resolved) where
  -- The expiry that the first failure sets, if Redis answers.
  first_end : ℕ → Bool → Option ℕ
  first_end now true = some (now + 60)
  first_end now false = none

  first-counts :
      (now : ℕ) (db : R.Db) (x : Reply ℕ × R.Db) (answer : Bool)
      → x.0 ≡ found 1
      → R.entries x.1 (attempts_key identifier) ≡ some (entry (number 1) none)
      → (R.exec now (expire (attempts_key identifier) 60) x.1).0 ≡ answer
      → R.entries (failure_counted L R (attempts_key identifier) now x) (attempts_key identifier)
        ≡ some (entry (number 1) (first_end now answer))
  unfolding first_end
  first-counts now db (found m, s) true h e a =
      let key = attempts_key identifier in
      let k : (m == 1) ≡ true = let same : m ≡ 1 = cc in ground arith in
      rw k (ap (λ E. E key) (R.exec_true now (expire key 60) s a) ∙ rw (key_eq_refl key, e) refl)
  first-counts now db (found m, s) false h e a =
      let key = attempts_key identifier in
      let k : (m == 1) ≡ true = let same : m ≡ 1 = cc in ground arith in
      rw k (ap (λ E. E key) (R.exec_false now (expire key 60) s a) ∙ e)
  first-counts now db (failed, s) answer h e a = cc

  first_failure :
      (i : Issuer) (password : String) (db : R.Db) (answer : Bool)
      → R.entries db (attempts_key identifier) ≡ none
      → IsDenied R L identifier tenant resolved none (i, password)
      → (R.exec i.now
          (expire (attempts_key identifier) 60)
          (R.incr i.now (attempts_key identifier) db).1).0
        ≡ answer
      → (login L R i identifier password tenant db
          ≡ (err HttpError.unauthorized, record_failure L R (attempts_key identifier) i.now db))
        × (R.entries
              (record_failure L R (attempts_key identifier) i.now db)
              (attempts_key identifier)
            ≡ some (entry (number 1) (first_end i.now answer)))
  unfolding record_failure
  first_failure i password db answer e (a, d, t) x =
      let key = attempts_key identifier in
      let (v, k) = answering.reads i.now key db in
      let nothing : v ≡ none = R.read_found i.now key db v k ∙ ap (live i.now) e in
      let unused : has_used_up (R.read i.now key db) ≡ false =
        ap has_used_up k ∙ ap (λ z. has_used_up (found z)) nothing in
      let (m, c) = answering.counts i.now key db in
      let (count, after) = R.incr_found i.now key db m c in
      let one : m ≡ 1 = rw e at count in
      (
        login-attempted R L identifier tenant resolved i password db given a known
            ∙ rw (unused, d) refl,
        first-counts i.now db (R.incr i.now key db) answer (c ∙ ap found one)
            (ap (λ E. E key) after ∙ rw (key_eq_refl key, e) refl) x,
      )

  -- Redis answers reads and counts, the identifier is given and the request's tenant is known or not
  -- named. If no failure is counted, and an attempt is denied by Supabase Auth, with the expiry of its
  -- counter set, then of a sequence of attempts that begins with it, all of them denied, within the minute,
  -- and with no successful sign-in among them, at most five get through the limit.
  pub attempts-bound :
      (i : Issuer) (password : String) (rest : List (Issuer × String)) (db : R.Db)
      → R.entries db (attempts_key identifier) ≡ none
      → IsDenied R L identifier tenant resolved none (i, password)
      → (R.exec i.now
          (expire (attempts_key identifier) 60)
          (R.incr i.now (attempts_key identifier) db).1).0
        ≡ true
      → All (IsDenied R L identifier tenant resolved (some (i.now + 60))) rest
      → (attempts R L identifier tenant ((i, password) ∷ rest) db).0 ≤ 5
  unfolding first_end
  attempts-bound i password rest db e d x h =
      let (refused, counter) = first_failure i password db true e d x in
      let (m, _, _, _, through, most) =
        attempts-IsCounted R L identifier tenant resolved answering given known rest 1
          (some (i.now + 60)) (record_failure L R (attempts_key identifier) i.now db) h counter
          (omega arith) (omega arith) in
      rw refused (omega (arith, through, most))

  -- Redis answers reads and counts, the identifier is given and the request's tenant is known or not
  -- named. If no failure is counted, an attempt is denied by Supabase Auth, and the expiry of its
  -- counter is refused by Redis, then after four more denied attempts, at any times, every later attempt
  -- is refused by the limit, at any time and with any password, and changes nothing.
  pub login-locked_out :
      (i : Issuer) (password : String) (rest : List (Issuer × String)) (db : R.Db)
      → R.entries db (attempts_key identifier) ≡ none
      → IsDenied R L identifier tenant resolved none (i, password)
      → (R.exec i.now
          (expire (attempts_key identifier) 60)
          (R.incr i.now (attempts_key identifier) db).1).0
        ≡ false
      → All (IsDenied R L identifier tenant resolved none) rest
      → 4 ≤ length rest
      → (j : Issuer) (right : String) → str_eq right "" ≡ false
      → login L R j identifier right tenant
          (attempts R L identifier tenant ((i, password) ∷ rest) db).1
        ≡ (
          err HttpError.too_many_requests,
          (attempts R L identifier tenant ((i, password) ∷ rest) db).1,
        )
  unfolding first_end
  login-locked_out i password rest db e d x h l j right a =
      let (refused, counter) = first_failure i password db false e d x in
      let after = record_failure L R (attempts_key identifier) i.now db in
      let (m, stands, counted_all, _, _, _) =
        attempts-IsCounted R L identifier tenant resolved answering given known rest 1 none after h
          counter (omega arith) (omega arith) in
      let full : leb 5 m ≡ true = let k : 5 ≤ m = omega (arith, counted_all, l) in ground arith in
      let end = (attempts R L identifier tenant rest after).1 in
      rw refused (
        login-attempted R L identifier tenant resolved j right end given a known
        ∙ rw (has_used_up-live R L identifier tenant j.now m none end answering stands refl, full)
            refl)
