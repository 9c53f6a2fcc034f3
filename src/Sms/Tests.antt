-- ===== src/Sms/Tests.antt =====
-- Batches of messages (apps/api/src/modules/sms/sms.service.ts).
use edu_lanka.Prelude.{
  ℕ, ◌-◌, ◌*◌, ◌+◌, ◌++◌, map, ◌≤◌, ◌<◌, ◌≡◌, refl, ◌⊎◌, true, false, none, some, List, [], ◌∷◌,
  length, if◌then◌else◌, arith,
}
use edu_lanka.JsMap
use edu_lanka.Text.{Text, codes}
use edu_lanka.Sms.{
  Sms, World, Quota, Job, SendSmsOptions, reserved_of, segment_count, is_gsm7, send_to,
  without_quota, job_of,
}
use edu_lanka.Sms.Outcomes.{Outcome, Reserved}
use edu_lanka.Sms.Reservation.{
  send_to-Outcome, release_all, release_all_restores, without_quota_counter, segment_count_least,
}

abbrev hello : Text
hello = codes "School is closed."

hello_one : segment_count hello ≡ 1
unfolding segment_count is_gsm7
hello_one = refl

segment_count_least_case :
    let single : ℕ = if is_gsm7 hello then 160 else 70 in
    let multi : ℕ = if is_gsm7 hello then 153 else 67 in
    ((length hello ≤ single) × (segment_count hello ≡ 1))
    ⊎ ((single < length hello)
        × (length hello ≤ segment_count hello * multi)
        × ((segment_count hello - 1) * multi < length hello))
segment_count_least_case = segment_count_least hello (λ e. cc)

abbrev school : Quota
school = record { monthly_quota = 900; current_month_usage = 4990; plan = "STARTER" }

abbrev up : World
up = record {
  now = 100;
  twilio_configured = true;
  sms_enabled = none;
  quota = some school;
  redis_answers = true;
  queue_answers = true;
}

abbrev plain : SendSmsOptions
plain = record { has_disaster_event = false; bypass_quota = false; is_safety_critical = false }

abbrev idle : Sms
idle = record { reserved = ("royal", record { count = 7; expires = some 900 }) ∷ []; queue = [] }

abbrev families : List Text
families = codes "+94770000001" ∷ codes "+94770000002" ∷ []

send_to-Outcome_example :
    Outcome up hello "royal" families idle (send_to up hello "royal" plain families idle)
send_to-Outcome_example =
    send_to-Outcome up hello "royal" refl plain (codes "+94770000001") (codes "+94770000002" ∷ [])
      idle refl

abbrev job : Text → Job
job to = record {
  to = to;
  message = hello;
  tenant_id = "royal";
  segment_count = 1;
  reserved = true;
}

abbrev sent : Sms
sent = record {
  reserved = ("royal", record { count = 9; expires = some 1900 }) ∷ [];
  queue = job (codes "+94770000001") ∷ job (codes "+94770000002") ∷ [];
}

sent-Reserved : Reserved up hello "royal" families idle sent
unfolding segment_count is_gsm7 JsMap.get
sent-Reserved = record {
  quota = school;
  found_quota = refl;
  within = omega arith;
  counted = refl;
  stored = refl;
  queued = refl;
}

release_all_restores_example :
    reserved_of "royal" 9000 (release_all "royal" (segment_count hello) (400 ∷ 5000 ∷ []) sent)
    ≡ reserved_of "royal" 100 idle
unfolding segment_count is_gsm7
release_all_restores_example =
    release_all_restores up hello "royal" families idle sent 400 (5000 ∷ []) (omega arith)
      sent-Reserved refl (omega arith) 9000

without_quota_counter_example :
    let s' = (without_quota up hello "royal" families idle).1 in
    (reserved_of "royal" 100 s'
      ≡ reserved_of "royal" 100 idle + length families * segment_count hello)
    × ((s'.queue ≡ idle.queue)
        ⊎ (s'.queue
            ≡ idle.queue ++ map (job_of hello "royal" (segment_count hello) false) families))
without_quota_counter_example = without_quota_counter up hello "royal" families idle refl
