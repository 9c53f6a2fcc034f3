-- ===== src/Sms.antt =====
-- SMS batches: `calculateSmsSegments` (apps/api/src/common/utils/sms-segments.ts), `sendBatchSms`
-- (apps/api/src/modules/sms/sms.service.ts) and `releaseQuotaReservation`
-- (apps/api/src/modules/sms/sms.processor.ts). Redis and the job queue are other programs: the model
-- has the counters and the jobs that they hold, and an argument for whether each call is answered.
pub mod Outcomes
pub mod Reservation
mod Tests
use edu_lanka.Prelude.{
  ℕ, ◌+◌, ◌-◌, ◌*◌, ◌/◌, max, String, Bool, true, false, not, ◌&&◌, ◌||◌, Option, none, some, List,
  [], ◌∷◌, ◌++◌, map, length, any, select, leb, ltb, ◌==◌, str_eq, if◌then◌else◌,
}
use edu_lanka.JsMap
use edu_lanka.JsMap.{JsMap}
use edu_lanka.Redis.{has_time}
use edu_lanka.Text.{Text, codes, between, same, trim}
use edu_lanka.Http.{Result, ok, err, HttpError, Action, ◌>>◌, return, throw, require}

-- The characters of the GSM 03.38 expression that are no letter and no digit of ASCII; 10, 12, 13 and
-- 27 are line feed, form feed, carriage return and escape.
abbrev pub gsm7_signs : Text
gsm7_signs =
    10
    ∷ 12
    ∷ 13
    ∷ 27
    ∷ 34
    ∷ 92
    ∷ codes "@£$¥èéùìòÇØøÅåΔ_ΦΓΛΩΠΨΣΘΞ^{}[~]|€ÆæßÉ !#%&'()*+,-./:;<=>?ÄÖÑÜ§¿äöñüà"

abbrev pub is_gsm7_code : ℕ → Bool
is_gsm7_code c =
    between 48 57 c || between 65 90 c || between 97 122 c || any (λ d. d == c) gsm7_signs

unfoldable pub is_gsm7 : Text → Bool
is_gsm7 [] = true
is_gsm7 (c ∷ t) = is_gsm7_code c && is_gsm7 t

-- The number of segments of a text of `n` characters, `single` of which fit into one message and
-- `multi` into each of several.
abbrev pub segments_of : ℕ → ℕ → ℕ → ℕ
segments_of single multi n = if leb n single then 1 else (n + (multi - 1)) / multi

unfoldable pub segment_count : Text → ℕ
unfolding is_gsm7
segment_count [] = 0
segment_count (c ∷ t) =
    if is_gsm7 (c ∷ t)
    then segments_of 160 153 (length (c ∷ t))
    else segments_of 70 67 (length (c ∷ t))

pub record SendSmsOptions : Type 0 where
  pub has_disaster_event : Bool
  pub bypass_quota : Bool
  pub is_safety_critical : Bool

pub record Quota : Type 0 where
  pub monthly_quota : ℕ
  pub current_month_usage : ℕ
  pub plan : String

pub record Job : Type 0 where
  pub to : Text
  pub message : Text
  pub tenant_id : String
  pub segment_count : ℕ
  pub reserved : Bool

-- A counter of Redis, and when it expires, in seconds.
pub record Counter : Type 0 where
  pub count : ℕ
  pub expires : Option ℕ

-- The counters of the running month by tenant, and the queue.
pub record Sms : Type 0 where
  pub reserved : JsMap Counter
  pub queue : List Job

pub record Sent : Type 0 where
  pub success : Bool
  pub queued_count : ℕ
  pub segment_count : ℕ

-- What the service finds: whether Twilio is configured, the rows of `school_policy` and
-- `tenant_sms_quotas`, whether Redis and the queue answer, and the time of the call.
pub record World : Type 0 where
  pub now : ℕ
  pub twilio_configured : Bool
  pub sms_enabled : Option Bool
  pub quota : Option Quota
  pub redis_answers : Bool
  pub queue_answers : Bool

-- A missing or expired counter is 0.
abbrev pub count_at : ℕ → Option Counter → ℕ
count_at now none = 0
count_at now (some c) = if has_time now c.expires then c.count else 0

abbrev pub reserved_of : String → ℕ → Sms → ℕ
reserved_of tenant now s = count_at now (JsMap.get tenant s.reserved)

abbrev pub with_counter : String → ℕ → Option ℕ → Sms → Sms
with_counter tenant n until s = record s {
  reserved = JsMap.set tenant (record { count = n; expires = until }) s.reserved;
}

abbrev pub is_blank : Text → Bool
is_blank t = leb (length (trim t)) 0

-- `[...new Set(recipients.filter(...))]`.
pub unique : List Text → List Text → List Text
unique seen [] = []
unique seen (r ∷ rs) =
    let kept = unique (r ∷ seen) rs in
    let skipped = unique seen rs in if is_blank r || any (same r) seen then skipped else r ∷ kept

-- The script `ATOMIC_RESERVATION_LUA` at a time: nothing stands for -1. A reservation expires after 1800
-- seconds without another.
unfoldable pub reserve : String → ℕ → ℕ → ℕ → ℕ → Bool → Sms → Option ℕ × Sms
reserve tenant now total ceiling usage bypass s =
    let next = reserved_of tenant now s + total in
    if not bypass && ltb ceiling (usage + reserved_of tenant now s + total)
    then (none, s)
    else (some next, with_counter tenant next (some (now + 1800)) s)

-- The reservation, or what stands for it when Redis throws.
abbrev pub try_reserve : Bool → String → ℕ → ℕ → ℕ → ℕ → Bool → Sms → Option ℕ × Sms
try_reserve true tenant now total ceiling usage bypass s =
    reserve tenant now total ceiling usage bypass s
try_reserve false tenant now total ceiling usage bypass s = (some total, s)

abbrev pub safety_ceiling : Quota → ℕ
safety_ceiling q = max (q.monthly_quota * 5) 5000

abbrev pub is_disabled : Option Bool → Bool
is_disabled none = false
is_disabled (some enabled) = not enabled

abbrev pub refused : ℕ → Sent
refused segments = record { success = false; queued_count = 0; segment_count = segments }

abbrev pub job_of : Text → String → ℕ → Bool → Text → Job
job_of message tenant segments reserved to = record {
  to = to;
  message = message;
  tenant_id = tenant;
  segment_count = segments;
  reserved = reserved;
}

abbrev pub kept_expiry : Option Counter → Option ℕ
kept_expiry none = none
kept_expiry (some c) = c.expires

-- `addBulk`, and the taking back of the reservation if it throws: DECRBY keeps the expiry.
unfoldable pub enqueue : World → Text → String → Bool → List Text → Action Sms Sent
enqueue w message tenant bypass to s =
    let n = segment_count message in
    if w.queue_answers
    then (
      ok (record { success = true; queued_count = length to; segment_count = n }),
      record s { queue = s.queue ++ map (job_of message tenant n (not bypass)) to },
    )
    else (
      err HttpError.thrown,
      if not bypass && w.redis_answers
          then with_counter tenant (reserved_of tenant w.now s - length to * n)
              (kept_expiry (JsMap.get tenant s.reserved)) s
          else s,
    )

abbrev pub after_reserve : World → Text → String → List Text → Option ℕ × Sms → Result Sent × Sms
after_reserve w message tenant to (none, s) = (ok (refused (segment_count message)), s)
after_reserve w message tenant to (some _, s) = enqueue w message tenant false to s

-- The quota is looked up and the segments are reserved.
unfoldable pub with_quota : World → Text → String → List Text → Option Quota → Action Sms Sent
with_quota w message tenant to none s = (err HttpError.forbidden, s)
with_quota w message tenant to (some q) s =
    let sent = after_reserve w message tenant to (
      try_reserve w.redis_answers tenant w.now (length to * segment_count message)
        (safety_ceiling q) q.current_month_usage false s) in
    if str_eq q.plan "COMMUNITY" then (err HttpError.forbidden, s) else sent

-- An emergency is counted but not refused.
unfoldable pub without_quota : World → Text → String → List Text → Action Sms Sent
unfolding enqueue
without_quota w message tenant to s =
    enqueue w message tenant true to
      (try_reserve w.redis_answers tenant w.now (length to * segment_count message) 0 0 true s).1

unfoldable pub send_to : World → Text → String → SendSmsOptions → List Text → Action Sms Sent
unfolding with_quota without_quota
send_to w message tenant options [] s =
    (ok (record { success = true; queued_count = 0; segment_count = 0 }), s)
send_to w message tenant options (r ∷ rs) s =
    let critical = options.is_safety_critical || options.has_disaster_event in
    let checked = with_quota w message tenant (r ∷ rs) w.quota s in
    let emergency = without_quota w message tenant (r ∷ rs) s in
    if not w.twilio_configured
    then (err HttpError.service_unavailable, s)
    else if not critical && is_disabled w.sms_enabled
    then (ok (refused (segment_count message)), s)
    else if not options.bypass_quota
    then checked
    else emergency

pub send_batch_sms : World → List Text → Text → String → SendSmsOptions → Action Sms Sent
unfolding unique send_to
send_batch_sms w recipients message tenant options =
    send_to w message tenant options (unique [] recipients)

-- The script `RELEASE_LUA` at a time, with `segmentCount || 1`: SET removes the expiry.
unfoldable pub release : String → ℕ → ℕ → Sms → Sms
release tenant now n s =
    if ltb 0 (reserved_of tenant now s)
    then with_counter tenant (reserved_of tenant now s - max n 1) none s
    else s
