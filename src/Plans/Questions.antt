-- ===== src/Plans/Questions.antt =====
-- The questions of a learner on the free plan in one day
-- (apps/api/src/modules/tenant/plan-features.service.ts).
use mathlib.Core.Path.{subst}
use edu_lanka.Prelude.{
  ℕ, ◌+◌, ◌≤◌, ◌<◌, String, ◌≡◌, refl, sym, ap, ◌∙◌, ◌⊎◌, inl, inr, Bool, true, false, Option, none,
  some, List, [], ◌∷◌, All, leb, ◌==◌, Bool-cases, arith,
}
use edu_lanka.Http.{Result, ok, err}
use edu_lanka.Postgrest.{Reply, found, failed}
use edu_lanka.Redis.{
  Redis, Value, number, entry, ai_daily, expire, live, live_entry, count_of, has_time, expiry_of,
  key_eq_refl,
}
use edu_lanka.Plans.{
  used, answered_or_thrown, counted_question, within_daily, PlanCache, is_feature_enabled,
  assert_individual_ai_quota,
}

abbrev pub granted : Result (Unit {0}) → ℕ
granted (ok u) = 1
granted (err e) = 0

module _ (R : Redis) (user today month : String) where
  -- How many of the questions asked at these times are let through, and the state after them.
  abbrev pub questions : PlanCache → List ℕ → R.Db → ℕ × R.Db
  questions cache [] db = (0, db)
  questions cache (now ∷ rest) db =
      let (r, after) =
        assert_individual_ai_quota R cache "FREE_INDIVIDUAL" user today month now db in
      let (n, end) = questions cache rest after in (granted r + n, end)

  abbrev Lasts : ℕ → Option ℕ → Type 0
  Lasts until none = Unit
  Lasts until (some e) = until ≤ e

  -- The counter of the day stands at `n`, and stays until the day is over at least.
  abbrev IsAt : ℕ → ℕ → R.Db → Type 0
  IsAt until n db =
      ((R.entries db (ai_daily user today) ≡ none) × (n ≡ 0))
      ⊎ ((end : Option ℕ) × (R.entries db (ai_daily user today) ≡ some (entry (number n) end))
          × Lasts until end)

  Lasts-has_time :
      (now until : ℕ) (end : Option ℕ) → now < until → Lasts until end → has_time now end ≡ true
  Lasts-has_time now until none l h = refl
  Lasts-has_time now until (some e) l h = let k : now < e = omega (arith, l, h) in ground arith

  IsAt-live :
      (now until n : ℕ) (db : R.Db)
      → now < until
      → IsAt until n db
      → (used (live now (R.entries db (ai_daily user today))) ≡ n)
        × (count_of (live now (R.entries db (ai_daily user today))) ≡ n)
        × ((end : Option ℕ) × (expiry_of (live_entry now (R.entries db (ai_daily user today)))
              ≡ end)
            × Lasts until end)
  IsAt-live now until n db l (inl (e, z)) = rw (e, z) (refl, refl, (none, refl, tt))
  IsAt-live now until n db l (inr (end, e, h)) =
      let t = Lasts-has_time now until end l h in rw (e, t) (refl, refl, (end, refl, h))

  same-IsAt :
      (until n : ℕ) (db db' : R.Db)
      → R.entries db' ≡ R.entries db
      → IsAt until n db
      → IsAt until n db'
  same-IsAt until n db db' e (inl (f, z)) = inl (ap (λ E. E (ai_daily user today)) e ∙ f, z)
  same-IsAt until n db db' e (inr (end, f, h)) =
      inr (end, ap (λ E. E (ai_daily user today)) e ∙ f, h)

  -- A count that Redis answers.
  incr-IsAt :
      (now until n m : ℕ) (db : R.Db)
      → now < until
      → IsAt until n db
      → (R.incr now (ai_daily user today) db).0 ≡ found m
      → IsAt until (n + 1) (R.incr now (ai_daily user today) db).1
  incr-IsAt now until n m db l h f =
      let key = ai_daily user today in
      let (_, after) = R.incr_found now key db m f in
      let (_, count, (end, kept, lasts)) = IsAt-live now until n db l h in
      inr (end, ap (λ E. E key) after ∙ rw (key_eq_refl key, count, kept) refl, lasts)

  expire-IsAt :
      (now until n : ℕ) (db : R.Db) (answer : Bool)
      → now < until
      → until ≤ now + 86400
      → IsAt until (n + 1) db
      → (R.exec now (expire (ai_daily user today) 86400) db).0 ≡ answer
      → IsAt until (n + 1) (R.exec now (expire (ai_daily user today) 86400) db).1
  expire-IsAt now until n db answer l u (inl (e, z)) a = absurd (omega (arith, z))
  expire-IsAt now until n db true l u (inr (end, e, h)) a =
      let key = ai_daily user today in
      let t = Lasts-has_time now until end l h in
      inr (
        some (now + 86400),
        ap (λ E. E key) (R.exec_true now (expire key 86400) db a) ∙ rw (key_eq_refl key, e, t) refl,
        u,
      )
  expire-IsAt now until n db false l u (inr (end, e, h)) a =
      let key = ai_daily user today in
      inr (end, ap (λ E. E key) (R.exec_false now (expire key 86400) db a) ∙ e, h)

  -- After a question on a counter at `n`: it has counted what it has granted, up to 5.
  abbrev IsCounted : ℕ → ℕ → Result (Unit {0}) × R.Db → Type 0
  IsCounted until n (r, db) = (m : ℕ) × IsAt until m db × (n + granted r ≤ m) × (m ≤ 5)

  answered-IsCounted :
      (until n : ℕ) (x : Bool × R.Db)
      → n < 5
      → IsAt until (n + 1) x.1
      → IsCounted until n (answered_or_thrown R x)
  answered-IsCounted until n (true, db) l h = (n + 1, h, omega arith, omega arith)
  answered-IsCounted until n (false, db) l h = (n + 1, h, omega arith, omega arith)

  counted_question-IsCounted :
      (now until n : ℕ) (db : R.Db) (x : Reply ℕ × R.Db)
      → now < until
      → until ≤ now + 86400
      → n < 5
      → IsAt until n db
      → R.incr now (ai_daily user today) db ≡ x
      → IsCounted until n (counted_question R (ai_daily user today) now x)
  counted_question-IsCounted now until n db (failed, db') l u k h e =
      let same =
        ap (λ z. R.entries z.1) (sym e)
        ∙ R.incr_failed now (ai_daily user today) db (ap (λ z. z.0) e) in
      (n, same-IsAt until n db db' same h, omega arith, omega (arith, k))
  counted_question-IsCounted now until n db (found m, db') l u k h e =
      let h' : IsAt until (n + 1) db' =
        subst (λ z. IsAt until (n + 1) z.1) e (incr-IsAt now until n m db l h (ap (λ z. z.0) e)) in
      elim (Bool-cases (m == 1)) [
        | inl one ↦ rw one (
            answered-IsCounted until n (R.exec now (expire (ai_daily user today) 86400) db') k
              (expire-IsAt now until n db' _ l u h' refl))
        | inr more ↦ rw more (n + 1, h', omega arith, omega (arith, k))
      ]

  within_daily-IsCounted :
      (now until n : ℕ) (db : R.Db) (x : Reply (Option Value))
      → now < until
      → until ≤ now + 86400
      → n ≤ 5
      → IsAt until n db
      → R.read now (ai_daily user today) db ≡ x
      → IsCounted until n (within_daily R (ai_daily user today) 5 now x db)
  within_daily-IsCounted now until n db failed l u k h e = (n, h, omega arith, k)
  within_daily-IsCounted now until n db (found v) l u k h e =
      let seen : used v ≡ n =
        ap used (R.read_found now (ai_daily user today) db v e)
        ∙ (IsAt-live now until n db l h).0 in
      elim (Bool-cases (leb 5 n)) [
        | inl full ↦ rw (seen, full) (n, h, omega arith, k)
        | inr free ↦
            let few : n < 5 = ground arith in
            rw (seen, free)
              (counted_question-IsCounted now until n db (R.incr now (ai_daily user today) db) l u
                few h refl)
      ]

  question-IsCounted :
      (cache : PlanCache) (now until n : ℕ) (db : R.Db)
      → now < until
      → until ≤ now + 86400
      → n ≤ 5
      → IsAt until n db
      → IsCounted until n
          (assert_individual_ai_quota R cache "FREE_INDIVIDUAL" user today month now db)
  unfolding assert_individual_ai_quota
  question-IsCounted cache now until n db l u k h =
      elim (Bool-cases (is_feature_enabled cache (some "FREE_INDIVIDUAL") "ai_assistant")) [
        | inl e ↦ rw e (
            within_daily-IsCounted now until n db (R.read now (ai_daily user today) db) l u k h
              refl)
        | inr e ↦ rw e (n, h, omega arith, k)
      ]

  questions-within :
      (cache : PlanCache) (until n : ℕ) (times : List ℕ) (db : R.Db)
      → All (λ now. (now < until) × (until ≤ now + 86400)) times
      → n ≤ 5
      → IsAt until n db
      → n + (questions cache times db).0 ≤ 5
  questions-within cache until n [] db h k at = omega (arith, k)
  questions-within cache until n (now ∷ rest) db ((l, u), h) k at =
      let (m, at', some_granted, few) = question-IsCounted cache now until n db l u k at in
      let after = assert_individual_ai_quota R cache "FREE_INDIVIDUAL" user today month now db in
      let more = questions-within cache until m rest after.1 h few at' in
      omega (arith, some_granted, more)

  -- Whatever Redis refuses: of the questions that a learner on the free plan asks in one day, from
  -- second `start` to `start + 86400`, with no count kept for that day before, at most five are let
  -- through.
  pub questions-bound :
      (cache : PlanCache) (start : ℕ) (times : List ℕ) (db : R.Db)
      → R.entries db (ai_daily user today) ≡ none
      → All (λ now. (start ≤ now) × (now < start + 86400)) times
      → (questions cache times db).0 ≤ 5
  questions-bound cache start times db e h =
      let none_yet =
        questions-within cache (start + 86400) 0 times db (of_day start times h) (omega arith)
          (inl (e, refl)) in
      omega (arith, none_yet)
    where
      of_day :
          (start : ℕ) (times : List ℕ)
          → All (λ now. (start ≤ now) × (now < start + 86400)) times
          → All (λ now. (now < start + 86400) × (start + 86400 ≤ now + 86400)) times
      of_day start [] h = tt
      of_day start (now ∷ rest) ((a, b), h) = ((b, omega (arith, a)), of_day start rest h)
