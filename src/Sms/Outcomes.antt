-- ===== src/Sms/Outcomes.antt =====
-- What a batch that reserves its segments leaves in the counter and in the queue
-- (apps/api/src/modules/sms/sms.service.ts).
use edu_lanka.Prelude.{
  ℕ, ◌+◌, ◌-◌, ◌*◌, ◌≤◌, ◌<◌, ◌≡◌, refl, sym, ap, ◌∙◌, ◌⊎◌, inl, inr, String, Bool, true, false,
  Option, none, some, List, ◌++◌, map, length, ltb, Bool-cases, str_eq, arith,
}
use edu_lanka.JsMap
use edu_lanka.Redis.{has_time}
use edu_lanka.Text.{Text}
use edu_lanka.Http.{Result, ok, err}
use edu_lanka.Sms.{
  Sms, Sent, World, Quota, kept_expiry, with_counter, reserved_of, safety_ceiling, segment_count,
  reserve, try_reserve, job_of, enqueue, after_reserve, with_quota,
}

pub reserved_of-set :
    (tenant : String) (now n : ℕ) (until : Option ℕ) (s : Sms)
    → has_time now until ≡ true
    → reserved_of tenant now (with_counter tenant n until s) ≡ n
reserved_of-set tenant now n until s live =
    rw (JsMap.get-set_self tenant (record { count = n; expires = until }) s.reserved, live) refl

pub in_time : (now : ℕ) → has_time now (some (now + 1800)) ≡ true
in_time now = ground arith

-- Every accepted reservation is counted, and stays within the ceiling.
reserve-some :
    (tenant : String) (now total ceiling usage r : ℕ) (s s' : Sms)
    → reserve tenant now total ceiling usage false s ≡ (some r, s')
    → (usage + reserved_of tenant now s' ≤ ceiling)
      × (reserved_of tenant now s' ≡ reserved_of tenant now s + total)
      × (JsMap.get tenant s'.reserved
          ≡ some (record { count = reserved_of tenant now s + total; expires = some (now + 1800) }))
      × (s'.queue ≡ s.queue)
unfolding reserve
reserve-some tenant now total ceiling usage r s s' h =
    elim (Bool-cases (ltb ceiling (usage + reserved_of tenant now s + total))) [
      | inl e ↦
          let k : ◌≡◌ {A = Option ℕ × Sms} (none, s) (some r, s') = rw e at h in
          let z = ap (λ x. x.0) k in cc
      | inr e ↦
          let next = reserved_of tenant now s + total in
          let k : ◌≡◌ {A = Option ℕ × Sms}
              (some next, with_counter tenant next (some (now + 1800)) s) (some r, s') =
            rw e at h in
          let after = ap (λ x. x.1) k in
          let counted : reserved_of tenant now s' ≡ next =
            ap (reserved_of tenant now) (sym after)
            ∙ reserved_of-set tenant now next (some (now + 1800)) s (in_time now) in
          let bound : ¬ (ceiling < usage + reserved_of tenant now s + total) = ground arith in
          (
            omega arith,
            counted,
            ap (λ x. JsMap.get tenant x.reserved) (sym after)
                ∙ JsMap.get-set_self tenant _ s.reserved,
            ap (λ x. x.queue) (sym after),
          )
    ]

-- The batch is in the queue: all of its segments are reserved, and with what the database has counted
-- they are within the ceiling of the tenant's quota.
pub record Reserved (w : World) (message : Text) (tenant : String) (to : List Text) (s s' : Sms)
    : Type 0 where
  pub quota : Quota
  pub found_quota : w.quota ≡ some quota
  pub within : quota.current_month_usage + reserved_of tenant w.now s' ≤ safety_ceiling quota
  pub counted :
      reserved_of tenant w.now s' ≡ reserved_of tenant w.now s + length to * segment_count message
  pub stored :
      JsMap.get tenant s'.reserved
      ≡ some (record {
        count = reserved_of tenant w.now s + length to * segment_count message;
        expires = some (w.now + 1800);
      })
  pub queued : s'.queue ≡ s.queue ++ map (job_of message tenant (segment_count message) true) to

-- Nothing is queued and nothing is reserved.
abbrev pub Unchanged : String → ℕ → Sms → Sms → Type 0
Unchanged tenant now s s' =
    (reserved_of tenant now s' ≡ reserved_of tenant now s) × (s'.queue ≡ s.queue)

abbrev pub succeeded : Result Sent → Bool
succeeded (err e) = false
succeeded (ok r) = r.success

abbrev pub Outcome : World → Text → String → List Text → Sms → Result Sent × Sms → Type 0
Outcome w message tenant to s (r, s') =
    ((succeeded r ≡ true) × Reserved w message tenant to s s')
    ⊎ ((succeeded r ≡ false) × Unchanged tenant w.now s s')

module _ (w : World) (message : Text) (tenant : String) (answered : w.redis_answers ≡ true) where
  enqueue-Outcome :
      (q : Quota) (to : List Text) (n : ℕ) (s t : Sms)
      → w.quota ≡ some q
      → reserve tenant w.now
          (length to * segment_count message)
          (safety_ceiling q)
          q.current_month_usage
          false
          s
        ≡ (some n, t)
      → Outcome w message tenant to s (enqueue w message tenant false to t)
  unfolding enqueue
  enqueue-Outcome q to n s t f h =
      let total = length to * segment_count message in
      let (within, counted, stored, queue) =
        reserve-some tenant w.now total (safety_ceiling q) q.current_month_usage n s t h in
      elim (Bool-cases w.queue_answers) [
        | inl e ↦ rw e (
            inl (
              refl,
              record {
                quota = q;
                found_quota = f;
                within = within;
                counted = counted;
                stored = stored;
                queued = rw queue refl;
              },
            ))
        | inr e ↦
            let taken_back : reserved_of tenant w.now t - total ≡ reserved_of tenant w.now s =
              omega arith in
            rw (e, answered)
              (inr (
                refl,
                (
                  reserved_of-set tenant w.now (reserved_of tenant w.now t - total)
                        (kept_expiry (JsMap.get tenant t.reserved)) t
                        (ap (λ c. has_time w.now (kept_expiry c)) stored ∙ in_time w.now)
                      ∙ taken_back,
                  queue,
                ),
              ))
      ]

  reserve-none :
      (now total ceiling usage : ℕ) (s s' : Sms)
      → reserve tenant now total ceiling usage false s ≡ (none, s')
      → s' ≡ s
  unfolding reserve
  reserve-none now total ceiling usage s s' h =
      elim (Bool-cases (ltb ceiling (usage + reserved_of tenant now s + total))) [
        | inl e ↦
            let k : ◌≡◌ {A = Option ℕ × Sms} (none, s) (none, s') = rw e at h in
            sym (ap (λ x. x.1) k)
        | inr e ↦
            let next = reserved_of tenant now s + total in
            let k : ◌≡◌ {A = Option ℕ × Sms}
                (some next, with_counter tenant next (some (now + 1800)) s) (none, s') =
              rw e at h in
            let z = ap (λ x. x.0) k in cc
      ]

  answered_reserve :
      (b : Bool)
      → b ≡ true
      → (now total ceiling usage : ℕ) (s : Sms)
      → reserve tenant now total ceiling usage false s
        ≡ try_reserve b tenant now total ceiling usage false s
  answered_reserve true h now total ceiling usage s = refl
  answered_reserve false h now total ceiling usage s = cc

  after_reserve-Outcome :
      (q : Quota) (to : List Text) (s : Sms) (x : Option ℕ × Sms)
      → w.quota ≡ some q
      → reserve tenant w.now
          (length to * segment_count message)
          (safety_ceiling q)
          q.current_month_usage
          false
          s
        ≡ x
      → Outcome w message tenant to s (after_reserve w message tenant to x)
  after_reserve-Outcome q to s (none, t) f h = inr (
    refl,
    let same = reserve-none _ _ _ _ s t h in
        (ap (reserved_of tenant w.now) same, ap (λ x. x.queue) same),
  )
  after_reserve-Outcome q to s (some n, t) f h = enqueue-Outcome q to n s t f h

  pub with_quota-Outcome :
      (o : Option Quota) (to : List Text) (s : Sms)
      → w.quota ≡ o
      → Outcome w message tenant to s (with_quota w message tenant to o s)
  unfolding with_quota
  with_quota-Outcome none to s f = inr (refl, (refl, refl))
  with_quota-Outcome (some q) to s f = elim (Bool-cases (str_eq q.plan "COMMUNITY")) [
    | inl e ↦ rw e (inr (refl, (refl, refl)))
    | inr e ↦ rw e (
        after_reserve-Outcome q to s _ f (
          answered_reserve w.redis_answers answered w.now (length to * segment_count message)
            (safety_ceiling q) q.current_month_usage s))
  ]
