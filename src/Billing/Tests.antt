-- ===== src/Billing/Tests.antt =====
-- The billing service on a small table (apps/api/src/modules/billing).
use edu_lanka.Prelude.{
  take, drop, ℕ, ◌+◌, ◌*◌, ◌-◌, ◌≤◌, ◌<◌, sym, ap, ◌∙◌, str_eq_iff, ◌≡◌, ◌≢◌, refl, String, true,
  false, none, some, List, [], ◌∷◌, In, inl, inr, arith, ◌⊎◌, ◌↔◌,
}
use edu_lanka.JsMap
use edu_lanka.Http.{ok, err, HttpError}
use edu_lanka.Postgrest.{Table, found, Reply}
use edu_lanka.Pagination.{fetch_pages, page_size, fetch_pages_whole}
use edu_lanka.PostgrestMemory.{
  found-injective, found-ne-failed, Memory, memory_table, at_most_one, update_one,
}
use edu_lanka.Billing.Invoice.{Invoice, BillingStatus, draft, issued, paid, overdue}
use edu_lanka.Billing.LockCache.{Billing, clear_tenant_lock_cache}
use edu_lanka.Billing.Lifecycle.{
  issue_invoice, mark_invoice_paid, transition_overdue, grace_period_ms, with_status,
}
use edu_lanka.Billing.Evolution.{HasDistinctIds, append-HasDistinctIds, History}
use edu_lanka.Billing.Lifecycle.Steps.{rows_of}
use edu_lanka.Billing.Lifecycle.Overdue.{transition_overdue_reverts_payment}
use edu_lanka.Billing.LockStatus.{check_tenant_invoice_status}
use edu_lanka.Billing.LockStatus.Grace.{IsPastGrace, check_locked_iff}
use edu_lanka.Billing.LockStatus.AfterCalls.{issue_locks_at_once, pay_unlocks}
use edu_lanka.Billing.Snapshots.{
  Sources, Tenant, Plan, SmsLog, SmsQuota, Reads, compute_snapshot, sms_count_by_tenant, plan_code,
  plan_or_free,
}
use edu_lanka.Billing.Snapshots.Amounts.{compute_snapshot_total, billed_segments}
use edu_lanka.Billing.Snapshots.Writes.{generate_keeps_final, after_generate}
use edu_lanka.Billing.Fees.{calculate_active_student_fee, fee_tiers}
use edu_lanka.Billing.Run.{
  Call, issue, pay, check, overdue_pass, snapshot_pass, run, run-History, run_keeps_paid,
}
use edu_lanka.Billing.Lifecycle.Outcomes.{Issued, Settled, issue_invoice_ok, mark_invoice_paid_ok}

abbrev invoice : String → BillingStatus → Invoice
invoice id st = record {
  id = id;
  tenant_id = "royal";
  billing_month = "2026-06";
  plan = "STARTER";
  active_student_count = 300;
  base_fee_lkr = 5000;
  per_student_fee_lkr = 10;
  sms_count = 0;
  sms_overage_charge_lkr = 0;
  total_amount_lkr = 7700;
  status = st;
  created_at = some 0;
  updated_at = 0;
}

abbrev table : Table Invoice
table = memory_table (λ r. r.id)

abbrev state : List Invoice → Billing (Memory Invoice)
state rs = record {
  snapshots = record { stored = rs; ids = "new-1" ∷ "new-2" ∷ [] };
  lock_status_cache = [];
}

abbrev mixed : Billing (Memory Invoice)
mixed = state (invoice "a" draft ∷ invoice "b" paid ∷ [])

abbrev issued_a : Invoice
issued_a = with_status issued 9 (invoice "a" draft)

issue_runs :
    issue_invoice table "a" 9 mixed ≡ (ok issued_a, state (issued_a ∷ invoice "b" paid ∷ []))
unfolding issue_invoice clear_tenant_lock_cache at_most_one update_one JsMap.delete
issue_runs = refl

abbrev mixed_issued : Billing (Memory Invoice)
mixed_issued = state (issued_a ∷ invoice "b" paid ∷ [])

issue_invoice_ok_case : Issued table "a" 9 issued_a mixed mixed_issued
issue_invoice_ok_case = issue_invoice_ok table "a" 9 mixed mixed_issued issued_a issue_runs

abbrev paid_a : Invoice
paid_a = with_status paid 12 issued_a

abbrev mixed_paid : Billing (Memory Invoice)
mixed_paid = state (paid_a ∷ invoice "b" paid ∷ [])

pay_runs : mark_invoice_paid table "a" 12 mixed_issued ≡ (ok paid_a, mixed_paid)
unfolding mark_invoice_paid clear_tenant_lock_cache at_most_one update_one JsMap.delete
pay_runs = refl

mark_invoice_paid_ok_case : Settled table "a" 12 paid_a mixed_issued mixed_paid
mark_invoice_paid_ok_case =
    mark_invoice_paid_ok table "a" 12 mixed_issued mixed_paid paid_a pay_runs

pay_rejects_draft : mark_invoice_paid table "a" 12 mixed ≡ (err HttpError.bad_request, mixed)
unfolding mark_invoice_paid at_most_one
pay_rejects_draft = refl

a-ne-b : ◌≢◌ {A = String} "a" "b"
a-ne-b = ground (arith, str_eq_iff "a" "b")

mixed-HasDistinctIds : HasDistinctIds (rows_of table mixed)
mixed-HasDistinctIds =
    append-HasDistinctIds (invoice "b" paid) (invoice "a" draft ∷ []) (a-ne-b, tt)
      (append-HasDistinctIds (invoice "a" draft) [] tt (λ x y mx my e. absurd mx))

abbrev messages : List SmsLog
messages =
    record { tenant_id = "royal"; segment_count = 3; created_at = 20; disaster_event_id = none }
    ∷ record { tenant_id = "royal"; segment_count = 0; created_at = 21; disaster_event_id = none }
    ∷ []

abbrev sources : Sources
sources = record {
  Tenants = memory_table (λ (t : Tenant). t.id);
  Plans = memory_table (λ (p : Plan). p.code);
  SmsLogs = memory_table (λ (l : SmsLog). l.tenant_id);
  SmsQuotas = memory_table (λ (q : SmsQuota). q.tenant_id);
  tenants = record {
    stored = record { id = "royal"; plan = "STARTER"; is_active = true } ∷ [];
    ids = [];
  };
  plans = record {
    stored = record { code = "STARTER"; base_fee_lkr = 5000; price_per_student_lkr = 10 } ∷ [];
    ids = [];
  };
  sms_logs = record { stored = messages; ids = [] };
  sms_quotas = record { stored = []; ids = [] };
  student_counts = found (record { tenant_id = "royal"; active_student_count = 300 } ∷ []);
  rpc_counts = found [];
}

abbrev calls : List Call
calls =
    issue "a" 9
    ∷ pay "a" 12
    ∷ check "royal" 13
    ∷ overdue_pass 14
    ∷ snapshot_pass sources "2026-07" 0 30 31 none
    ∷ pay "b" 40
    ∷ []

run-History_example : History (rows_of table mixed) (rows_of table (run table calls mixed))
run-History_example = run-History table (λ r. refl) calls mixed mixed-HasDistinctIds

run_keeps_paid_example : In (invoice "b" paid) (rows_of table (run table calls mixed))
run_keeps_paid_example =
    run_keeps_paid table (λ r. refl) calls mixed (invoice "b" paid) mixed-HasDistinctIds refl
      (inr (inl refl))

generate_keeps_final_example :
    In
      (invoice "b" paid)
      (after_generate table sources "2026-06" 0 30 31 none mixed).snapshots.stored
generate_keeps_final_example =
    generate_keeps_final table sources "2026-06" 0 30 31 none (λ r. refl) mixed (invoice "b" paid)
      (λ e. cc) (inr (inl refl))

abbrev reads : Reads
reads = record {
  month = "2026-06";
  now = 31;
  plans =
      ("STARTER", record { code = "STARTER"; base_fee_lkr = 5000; price_per_student_lkr = 10 })
      ∷ [];
  students = ("royal", 300) ∷ [];
  sms = sms_count_by_tenant messages [];
  quotas = ("royal", 1) ∷ [];
  existing = [];
  overage_price = 2;
}

abbrev royal : Tenant
royal = record { id = "royal"; plan = "STARTER"; is_active = true }

compute_snapshot_total_case :
    ((compute_snapshot reads royal).sms_count ≡ billed_segments "royal" messages)
    × ((compute_snapshot reads royal).total_amount_lkr
        ≡ (plan_or_free (JsMap.get (plan_code royal) reads.plans)).base_fee_lkr
          + (calculate_active_student_fee
              (compute_snapshot reads royal).active_student_count
              (plan_or_free (JsMap.get (plan_code royal) reads.plans)).price_per_student_lkr
              none).total_student_fee_lkr
          + (billed_segments "royal" messages - (compute_snapshot reads royal).sms_allowance) * 2)
compute_snapshot_total_case =
    compute_snapshot_total reads messages royal (ground (arith, str_eq_iff "royal" "")) refl

fee_tiers_case :
    let fee = (calculate_active_student_fee 300 10 none).total_student_fee_lkr in
    ((300 ≤ 250) × (fee ≡ 300 * 10))
    ⊎ ((250 < 300)
        × (300 ≤ 1000)
        × (90 * (300 * 10) ≤ 100 * fee + 50)
        × (100 * fee ≤ 90 * (300 * 10) + 50))
    ⊎ ((1000 < 300) × (80 * (300 * 10) ≤ 100 * fee + 50) × (100 * fee ≤ 80 * (300 * 10) + 50))
fee_tiers_case = fee_tiers 300 10

check_locked_iff_example :
    ((check_tenant_invoice_status table "royal"
        (grace_period_ms + 1)
        mixed_issued).0.is_account_locked
      ≡ true)
    ↔ ((r : Invoice) × In r (rows_of table mixed_issued)
        × (r.tenant_id ≡ "royal")
        × ((r.status ≡ issued) ⊎ (r.status ≡ overdue))
        × IsPastGrace (grace_period_ms + 1) r)
unfolding JsMap.get
check_locked_iff_example =
    check_locked_iff table "royal" (grace_period_ms + 1) mixed_issued (issued_a ∷ []) tt refl

issue_locks_at_once_case :
    (check_tenant_invoice_status table "royal"
      (grace_period_ms + 1)
      mixed_issued).0.is_account_locked
    ≡ true
issue_locks_at_once_case =
    issue_locks_at_once table "a" 9 (grace_period_ms + 1) 0 mixed mixed_issued issued_a
      (issued_a ∷ []) issue_runs refl (omega arith) refl

pay_unlocks_example :
    (check_tenant_invoice_status table "royal" (grace_period_ms + 1) mixed_paid).0.is_account_locked
    ≡ false
pay_unlocks_example =
    pay_unlocks table "a" 12 (grace_period_ms + 1) mixed_issued mixed_paid paid_a [] pay_runs
      (λ r m e. elim m [
        | inl h ↦ rw h (λ k. cc)
        | inr (inl h) ↦ absurd (a-ne-b (sym e ∙ ap (λ i. i.id) h))
        | inr (inr h) ↦ absurd h
      ])
      (λ r m t u. elim m [
        | inl h ↦ rw h
        | inr (inl h) ↦ let k : (paid ≡ issued) ⊎ (paid ≡ overdue) = rw h at u in ground arith
        | inr (inr h) ↦ absurd h
      ])
      refl

transition_overdue_reverts_payment_example :
    In
      (with_status overdue 20 paid_a)
      (rows_of table (transition_overdue table 20 (issued_a ∷ []) mixed_paid).1)
unfolding transition_overdue
transition_overdue_reverts_payment_example =
    transition_overdue_reverts_payment table 20 issued_a [] mixed_paid paid_a (inl refl) refl refl
      refl

abbrev three : List ℕ
three = 4 ∷ 5 ∷ 6 ∷ []

abbrev three_pages : ℕ → ℕ → Reply (List ℕ)
three_pages from to = found (take (to + 1 - from) (drop from three))

slice_length : (from : ℕ) → from + page_size - 1 + 1 - from ≡ page_size
slice_length from = omega arith

fetch_pages_whole_example : fetch_pages page_size three_pages 1 0 [] ≡ some (found three)
fetch_pages_whole_example =
    fetch_pages_whole three_pages three
      (λ from rs e. found-injective e ∙ ap (λ n. take n (drop from three)) (slice_length from))
      (λ k e. found-ne-failed e) 1 (omega arith)
