-- ===== src/Billing/Snapshots.antt =====
-- `generateBillingSnapshots` (apps/api/src/modules/billing/billing.service.ts): the nightly pass over
-- all active tenants. The bounds of the month are arguments (`Date.UTC` of the month's text).
pub mod Amounts
pub mod Writes
use edu_lanka.Prelude.{
  ℕ, ◌+◌, ◌-◌, ◌*◌, max, String, Bool, true, false, not, ◌&&◌, Option, none, some, List, [], ◌∷◌,
  ◌++◌, ltb, leb, str_eq, if◌then◌else◌,
}
use edu_lanka.JsMap
use edu_lanka.JsMap.{JsMap}
use edu_lanka.Http.{Result, ok, err, HttpError, Action}
use edu_lanka.Http.Pure.{◌>>=◌}
use edu_lanka.Postgrest.{Reply, found, failed, Table}
use edu_lanka.Pagination.{fetch_all_rows}
use edu_lanka.Billing.Fees.{calculate_active_student_fee}
use edu_lanka.Billing.Invoice.{Invoice, BillingStatus, draft, is_draft, has_id}
use edu_lanka.Billing.LockCache.{Billing}

-- The columns that are read of `tenants`, `plans`, the view of student counts, `sms_logs` and
-- `tenant_sms_quotas`. An empty plan stands for a missing one, and `segment_count` 0 for a missing one.
pub record Tenant : Type 0 where
  pub id : String
  pub plan : String
  pub is_active : Bool

pub record Plan : Type 0 where
  pub code : String
  pub base_fee_lkr : ℕ
  pub price_per_student_lkr : ℕ

pub record StudentCount : Type 0 where
  pub tenant_id : String
  pub active_student_count : ℕ

pub record SmsLog : Type 0 where
  pub tenant_id : String
  pub segment_count : ℕ
  pub created_at : ℕ
  pub disaster_event_id : Option String

pub record SmsQuota : Type 0 where
  pub tenant_id : String
  pub monthly_quota : ℕ

-- `BillingSnapshotRecord`, whose id is missing until the row is stored.
pub record Snapshot : Type 0 where
  pub id : Option String
  pub tenant_id : String
  pub billing_month : String
  pub plan : String
  pub active_student_count : ℕ
  pub base_fee_lkr : ℕ
  pub per_student_fee_lkr : ℕ
  pub sms_count : ℕ
  pub sms_allowance : ℕ
  pub sms_overage_count : ℕ
  pub sms_overage_charge_lkr : ℕ
  pub total_amount_lkr : ℕ
  pub status : BillingStatus

abbrev pub or_zero : Option ℕ → ℕ
or_zero none = 0
or_zero (some n) = n

-- `configService.get('SMS_OVERAGE_PRICE_LKR') ?? 2`.
abbrev pub price_or_two : Option ℕ → ℕ
price_or_two none = 2
price_or_two (some n) = n

-- `tenant.plan || 'COMMUNITY'`.
pub plan_code : Tenant → String
plan_code t = if str_eq t.plan "" then "COMMUNITY" else t.plan

-- `new Map(rows.map(...))`: a later row of the same key wins.
pub plan_map : List Plan → JsMap Plan → JsMap Plan
plan_map [] m = m
plan_map (p ∷ ps) m = plan_map ps (JsMap.set p.code p m)

pub count_by_tenant : List StudentCount → JsMap ℕ → JsMap ℕ
count_by_tenant [] m = m
count_by_tenant (s ∷ ss) m =
    count_by_tenant ss
      (if str_eq s.tenant_id "" then m else JsMap.set s.tenant_id s.active_student_count m)

-- `log.segment_count || 1`.
abbrev pub segments : SmsLog → ℕ
segments l = max l.segment_count 1

unfoldable pub sms_count_by_tenant : List SmsLog → JsMap ℕ → JsMap ℕ
sms_count_by_tenant [] m = m
sms_count_by_tenant (l ∷ ls) m = sms_count_by_tenant ls (
    if str_eq l.tenant_id ""
    then m
    else JsMap.set l.tenant_id (or_zero (JsMap.get l.tenant_id m) + segments l) m)

pub quota_map : List SmsQuota → JsMap ℕ → JsMap ℕ
quota_map [] m = m
quota_map (q ∷ qs) m = quota_map qs (JsMap.set q.tenant_id q.monthly_quota m)

pub existing_map : List Invoice → JsMap Invoice → JsMap Invoice
existing_map [] m = m
existing_map (r ∷ rs) m = existing_map rs (JsMap.set r.tenant_id r m)

-- The bundled allowance of a plan, which a configured quota replaces.
pub allowance : Option ℕ → String → ℕ → ℕ
allowance (some quota) plan students = quota
allowance none plan students =
    if str_eq plan "STARTER"
    then max (students * 3) 100
    else if str_eq plan "GROWTH"
    then max (students * 5) 500
    else if str_eq plan "INSTITUTIONAL"
    then max (students * 8) 2000
    else 0

-- What the pass has read before it goes over the tenants.
pub record Reads : Type 0 where
  pub month : String
  pub now : ℕ
  pub plans : JsMap Plan
  pub students : JsMap ℕ
  pub sms : JsMap ℕ
  pub quotas : JsMap ℕ
  pub existing : JsMap Invoice
  pub overage_price : ℕ

-- `planMap.get(planCode) || { base_fee_lkr: 0, price_per_student_lkr: 0 }`.
abbrev pub plan_or_free : Option Plan → Plan
plan_or_free (some p) = p
plan_or_free none = record { code = ""; base_fee_lkr = 0; price_per_student_lkr = 0 }

pub compute_snapshot : Reads → Tenant → Snapshot
unfolding plan_code allowance
compute_snapshot i t =
    let plan = plan_code t in
    let def = plan_or_free (JsMap.get plan i.plans) in
    let students = or_zero (JsMap.get t.id i.students) in
    let fee = calculate_active_student_fee students def.price_per_student_lkr none in
    let allowed = allowance (JsMap.get t.id i.quotas) plan students in
    let sms = or_zero (JsMap.get t.id i.sms) in
    let charge = (sms - allowed) * i.overage_price in
    record {
      id = none;
      tenant_id = t.id;
      billing_month = i.month;
      plan = plan;
      active_student_count = students;
      base_fee_lkr = def.base_fee_lkr;
      per_student_fee_lkr = def.price_per_student_lkr;
      sms_count = sms;
      sms_allowance = allowed;
      sms_overage_count = sms - allowed;
      sms_overage_charge_lkr = charge;
      total_amount_lkr = def.base_fee_lkr + fee.total_student_fee_lkr + charge;
      status = draft;
    }

-- The columns that the update of a draft writes.
abbrev pub redraft : ℕ → Snapshot → Invoice → Invoice
redraft now x r = record r {
  plan = x.plan;
  active_student_count = x.active_student_count;
  base_fee_lkr = x.base_fee_lkr;
  per_student_fee_lkr = x.per_student_fee_lkr;
  sms_count = x.sms_count;
  sms_overage_charge_lkr = x.sms_overage_charge_lkr;
  total_amount_lkr = x.total_amount_lkr;
  updated_at = now;
}

-- The row that an insert stores under a new id; the database sets `created_at`.
abbrev pub new_draft : ℕ → Snapshot → String → Invoice
new_draft now x id = record {
  id = id;
  tenant_id = x.tenant_id;
  billing_month = x.billing_month;
  plan = x.plan;
  active_student_count = x.active_student_count;
  base_fee_lkr = x.base_fee_lkr;
  per_student_fee_lkr = x.per_student_fee_lkr;
  sms_count = x.sms_count;
  sms_overage_charge_lkr = x.sms_overage_charge_lkr;
  total_amount_lkr = x.total_amount_lkr;
  status = draft;
  created_at = some now;
  updated_at = now;
}

abbrev pub is_draft_of : String → Invoice → Bool
is_draft_of id r = has_id id r && is_draft r.status

module _ (T : Table Invoice) where
  pub updated : Snapshot → String → Reply (Unit {0}) × T.Db → List Snapshot × T.Db
  updated x id (failed, db) = ([], db)
  updated x id (found _, db) = (record x { id = some id } ∷ [], db)

  pub inserted : Snapshot → Reply String × T.Db → List Snapshot × T.Db
  inserted x (failed, db) = ([], db)
  inserted x (found id, db) = (record x { id = some id } ∷ [], db)

  -- One tenant: the results that it adds, and the table. An invoice that is no draft is left alone.
  pub write_snapshot : ℕ → Snapshot → Option Invoice → T.Db → List Snapshot × T.Db
  unfolding updated inserted
  write_snapshot now x none db = inserted x (T.insert (new_draft now x) db)
  write_snapshot now x (some e) db =
      if is_draft e.status
      then updated x e.id (T.update (is_draft_of e.id) (redraft now x) db)
      else (record x { id = some e.id; status = e.status } ∷ [], db)

  -- The loop over the tenants.
  pub write_all : Reads → List Tenant → T.Db → List Snapshot × T.Db
  unfolding write_snapshot
  write_all i [] db = ([], db)
  write_all i (t ∷ ts) db =
      let (here, db') =
        write_snapshot i.now (compute_snapshot i t) (JsMap.get t.id i.existing) db in
      let (rest, db'') = write_all i ts db' in (here ++ rest, db'')

-- The other tables and the replies of the view and of the fallback function.
pub record Sources : Type 1 where
  pub Tenants : Table Tenant
  pub Plans : Table Plan
  pub SmsLogs : Table SmsLog
  pub SmsQuotas : Table SmsQuota
  pub tenants : Tenants.Db
  pub plans : Plans.Db
  pub sms_logs : SmsLogs.Db
  pub sms_quotas : SmsQuotas.Db
  pub student_counts : Reply (List StudentCount)
  pub rpc_counts : Reply (List StudentCount)

abbrev pub or_thrown {ℓ} : {A : Type ℓ} → Reply A → Result A
or_thrown failed = err HttpError.thrown
or_thrown (found a) = ok a

-- The view, or the fallback function if the view fails.
abbrev pub first_found {ℓ} : {A : Type ℓ} → Reply A → Reply A → Reply A
first_found failed other = other
first_found (found a) other = found a

abbrev pub is_missing : Option String → Bool
is_missing none = true
is_missing (some _) = false

-- The filters of the messages of the month that no disaster event has caused.
abbrev pub is_billed : ℕ → ℕ → SmsLog → Bool
is_billed start end l =
    leb start l.created_at && ltb l.created_at end && is_missing l.disaster_event_id

abbrev pub is_of_month : String → Invoice → Bool
is_of_month month r = str_eq r.billing_month month

module _ (T : Table Invoice) (from : Sources) where
  -- The reads. `price` is the configured price of a message beyond the allowance, 2 by default.
  pub read_all : String → ℕ → ℕ → ℕ → Option ℕ → T.Db → Result (Reads × List Tenant)
  read_all month start end now price db = do
    ts ← fetch_all_rows from.Tenants (λ t. t.is_active) from.tenants
    ps ← or_thrown (from.Plans.select_all (λ p. true) from.plans)
    cs ← or_thrown (first_found from.student_counts from.rpc_counts)
    ls ← fetch_all_rows from.SmsLogs (is_billed start end) from.sms_logs
    qs ← fetch_all_rows from.SmsQuotas (λ q. true) from.sms_quotas
    es ← fetch_all_rows T (is_of_month month) db
    let reads : Reads = record {
      month = month;
      now = now;
      plans = plan_map ps [];
      students = count_by_tenant cs [];
      sms = sms_count_by_tenant ls [];
      quotas = quota_map qs [];
      existing = existing_map es [];
      overage_price = price_or_two price;
    }
    ok (reads, ts)

  pub write_results : Result (Reads × List Tenant) → Action (Billing T.Db) (List Snapshot)
  write_results (err e) s = (err e, s)
  write_results (ok (i, ts)) s =
      let (results, db) = write_all T i ts s.snapshots in (ok results, record s { snapshots = db })

  unfoldable pub generate_billing_snapshots :
      String → ℕ → ℕ → ℕ → Option ℕ → Action (Billing T.Db) (List Snapshot)
  unfolding read_all write_results
  generate_billing_snapshots month start end now price s =
      write_results (read_all month start end now price s.snapshots) s
