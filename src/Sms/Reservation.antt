-- ===== src/Sms/Reservation.antt =====
-- The counter of reserved segments (apps/api/src/modules/sms/sms.service.ts, sms.processor.ts).
use edu_lanka.Prelude.{
  ℕ, ◌+◌, ◌-◌, ◌*◌, ◌≤◌, ◌<◌, max, ◌≡◌, ◌≢◌, refl, ap, ◌∙◌, ◌⊎◌, inl, inr, String, Bool, true,
  false, not, ◌&&◌, ◌||◌, Option, none, some, List, [], ◌∷◌, ◌++◌, map, length, ltb, leb,
  Bool-cases, if◌then◌else◌, arith,
}
use mathlib.Core.Path.{subst}
use edu_lanka.JsMap
use edu_lanka.Redis.{has_time}
use edu_lanka.Text.{Text}
use edu_lanka.Sms.{
  Sms, World, count_at, SendSmsOptions, reserved_of, segment_count, is_gsm7, reserve, try_reserve,
  job_of, enqueue, without_quota, send_to, release, is_disabled, segments_of,
}
use edu_lanka.Sms.Outcomes.{reserved_of-set, in_time, Reserved, Outcome, with_quota-Outcome}

-- A text of GSM characters is cut into as few segments as hold it: one up to 160 characters, and
-- else the least number of segments of 153; any other text into one up to 70, or else segments of 67.
pub segment_count_least :
    (t : Text)
    → (t ≢ [])
    → let single : ℕ = if is_gsm7 t then 160 else 70 in
      let multi : ℕ = if is_gsm7 t then 153 else 67 in
      ((length t ≤ single) × (segment_count t ≡ 1))
      ⊎ ((single < length t)
          × (length t ≤ segment_count t * multi)
          × ((segment_count t - 1) * multi < length t))
unfolding segment_count
segment_count_least [] h = absurd (h refl)
segment_count_least (c ∷ t) h = elim (Bool-cases (is_gsm7 (c ∷ t))) [
  | inl e ↦ rw e (gsm (length (c ∷ t)))
  | inr e ↦ rw e (ucs (length (c ∷ t)))
]
  where
    gsm :
        (n : ℕ)
        → ((n ≤ 160) × (segments_of 160 153 n ≡ 1))
          ⊎ ((160 < n)
              × (n ≤ segments_of 160 153 n * 153)
              × ((segments_of 160 153 n - 1) * 153 < n))
    gsm n = elim (Bool-cases (leb n 160)) [
      | inl e ↦ rw e (inl (ground arith, refl))
      | inr e ↦ let big : 160 < n = ground arith in rw e (inr (big, omega arith, omega arith))
    ]

    ucs :
        (n : ℕ)
        → ((n ≤ 70) × (segments_of 70 67 n ≡ 1))
          ⊎ ((70 < n) × (n ≤ segments_of 70 67 n * 67) × ((segments_of 70 67 n - 1) * 67 < n))
    ucs n = elim (Bool-cases (leb n 70)) [
      | inl e ↦ rw e (inl (ground arith, refl))
      | inr e ↦ let big : 70 < n = ground arith in rw e (inr (big, omega arith, omega arith))
    ]

module _ (w : World) (message : Text) (tenant : String) (answered : w.redis_answers ≡ true) where
  -- While Redis answers, a batch that is subject to the quota and has recipients is either queued as a whole, with all of
  -- its segments reserved within the ceiling, or it fails and leaves the counter and the queue as they
  -- are, also when the queue throws after the reservation.
  pub send_to-Outcome :
      (options : SendSmsOptions) (r : Text) (rs : List Text) (s : Sms)
      → options.bypass_quota ≡ false
      → Outcome w message tenant (r ∷ rs) s (send_to w message tenant options (r ∷ rs) s)
  unfolding send_to
  send_to-Outcome options r rs s subject = elim (Bool-cases (not w.twilio_configured)) [
    | inl e ↦ rw e (inr (refl, (refl, refl)))
    | inr e ↦
        elim (Bool-cases (
          not (options.is_safety_critical || options.has_disaster_event)
          && is_disabled w.sms_enabled)) [
            | inl d ↦ rw (e, d) (inr (refl, (refl, refl)))
            | inr d ↦
                rw (e, d, subject)
                  (with_quota-Outcome w message tenant answered w.quota (r ∷ rs) s refl)
          ]
  ]

-- The releases of so many segments at each of some times.
abbrev pub release_all : String → ℕ → List ℕ → Sms → Sms
release_all tenant n [] s = s
release_all tenant n (t ∷ ts) s = release_all tenant n ts (release tenant t n s)

HasCounter : String → ℕ → Option ℕ → Sms → Type 0
HasCounter tenant n until s =
    JsMap.get tenant s.reserved ≡ some (record { count = n; expires = until })

-- A release of a counter that has not expired takes the expiry away.
release_once :
    (tenant : String) (t n c : ℕ) (until : Option ℕ) (s : Sms)
    → 0 < n
    → has_time t until ≡ true
    → HasCounter tenant (c + n) until s
    → HasCounter tenant c none (release tenant t n s)
unfolding release HasCounter
release_once tenant t n c until s pos live h =
    let now_is : reserved_of tenant t s ≡ c + n = rw (h, live) refl in
    let some_left : ltb 0 (reserved_of tenant t s) ≡ true = ground arith in
    let amount : reserved_of tenant t s - max n 1 ≡ c = omega arith in
    rw some_left (
      JsMap.get-set_self tenant
        (record { count = reserved_of tenant t s - max n 1; expires = none }) s.reserved
      ∙ ap (λ (m : ℕ). some (record { count = m; expires = none })) amount)

release_all-counter :
    (tenant : String) (n c : ℕ) (ts : List ℕ) (s : Sms)
    → 0 < n
    → HasCounter tenant (c + length ts * n) none s
    → HasCounter tenant c none (release_all tenant n ts s)
release_all-counter tenant n c [] s pos h = subst (λ m. HasCounter tenant m none s) (omega arith) h
release_all-counter tenant n c (t ∷ ts) s pos h =
    release_all-counter tenant n c ts (release tenant t n s) pos (
      release_once tenant t n (c + length ts * n) none s pos refl
        (subst (λ m. HasCounter tenant m none s) (omega arith) h))

-- When each message of a batch that is in the queue has been released once, the first one within the
-- 1800 seconds after which the reservation expires, at any times otherwise, and no other call comes
-- between, the counter is at any time what it was at the batch. The message is not empty.
pub release_all_restores :
    (w : World) (message : Text) (tenant : String) (to : List Text) (s s' : Sms) (first : ℕ)
    (rest : List ℕ)
    → 0 < segment_count message
    → Reserved w message tenant to s s'
    → length (first ∷ rest) ≡ length to
    → first < w.now + 1800
    → (t : ℕ)
    → reserved_of tenant t (release_all tenant (segment_count message) (first ∷ rest) s')
      ≡ reserved_of tenant w.now s
unfolding HasCounter
release_all_restores w message tenant to s s' first rest pos r same soon t =
    let n = segment_count message in
    let before = reserved_of tenant w.now s in
    let counted : HasCounter tenant ((before + length rest * n) + n) (some (w.now + 1800)) s' =
      r.stored
      ∙ ap (λ (m : ℕ). some (record { count = m; expires = some (w.now + 1800) }))
          (total before n (length to) (length rest) (omega (arith, same))) in
    let once =
      release_once tenant first n (before + length rest * n) (some (w.now + 1800)) s' pos
        (ground arith) counted in
    let end = release_all-counter tenant n before rest (release tenant first n s') pos once in
    ap (count_at t) end
  where
    total : (b n k m : ℕ) → 1 + m ≡ k → b + k * n ≡ (b + m * n) + n
    total b n k m e = omega (arith, ap (λ (x : ℕ). x * n) e)

reserve-bypass :
    (tenant : String) (now total ceiling usage : ℕ) (s : Sms)
    → (reserved_of tenant now (reserve tenant now total ceiling usage true s).1
        ≡ reserved_of tenant now s + total)
      × ((reserve tenant now total ceiling usage true s).1.queue ≡ s.queue)
unfolding reserve
reserve-bypass tenant now total ceiling usage s = (
  reserved_of-set tenant now (reserved_of tenant now s + total) (some (now + 1800)) s (in_time now),
  refl,
)

enqueue-bypass :
    (w : World) (message : Text) (tenant : String) (to : List Text) (s : Sms)
    → let s' = (enqueue w message tenant true to s).1 in
      (reserved_of tenant w.now s' ≡ reserved_of tenant w.now s)
      × ((s'.queue ≡ s.queue)
          ⊎ (s'.queue ≡ s.queue ++ map (job_of message tenant (segment_count message) false) to))
unfolding enqueue
enqueue-bypass w message tenant to s = elim (Bool-cases w.queue_answers) [
  | inl e ↦ rw e (refl, inr refl)
  | inr e ↦ rw e (refl, inl refl)
]

-- While Redis answers, an emergency batch adds its segments to the counter, also when the queue throws, and no job that it
-- queues is marked for a release.
pub without_quota_counter :
    (w : World) (message : Text) (tenant : String) (to : List Text) (s : Sms)
    → w.redis_answers ≡ true
    → let s' = (without_quota w message tenant to s).1 in
      (reserved_of tenant w.now s' ≡ reserved_of tenant w.now s + length to * segment_count message)
      × ((s'.queue ≡ s.queue)
          ⊎ (s'.queue ≡ s.queue ++ map (job_of message tenant (segment_count message) false) to))
unfolding without_quota
without_quota_counter w message tenant to s h = go w.redis_answers h
  where
    go :
        (b : Bool)
        → b ≡ true
        → let total = length to * segment_count message in
          let s' =
            (enqueue w message tenant true to (try_reserve b tenant w.now total 0 0 true s).1).1 in
          (reserved_of tenant w.now s' ≡ reserved_of tenant w.now s + total)
          × ((s'.queue ≡ s.queue)
              ⊎ (s'.queue
                  ≡ s.queue ++ map (job_of message tenant (segment_count message) false) to))
    go false e = cc
    go true e =
        let total = length to * segment_count message in
        let (counted, queue) = reserve-bypass tenant w.now total 0 0 s in
        let (kept, queued) =
          enqueue-bypass w message tenant to (reserve tenant w.now total 0 0 true s).1 in
        (
          kept ∙ counted,
          elim queued [
            | inl e ↦ inl (e ∙ queue)
            | inr e ↦ inr (
                e
                ∙ ap (λ q. q ++ map (job_of message tenant (segment_count message) false) to) queue)
          ],
        )
