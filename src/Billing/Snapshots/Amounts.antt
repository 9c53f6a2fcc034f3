-- ===== src/Billing/Snapshots/Amounts.antt =====
-- The amounts of the nightly pass (apps/api/src/modules/billing/billing.service.ts).
use edu_lanka.Prelude.{
  ℕ, ◌+◌, ◌-◌, ◌*◌, ◌≡◌, ◌≢◌, String, none, List, [], ◌∷◌, str_eq, str_eq_iff, if◌then◌else◌, arith,
}
use edu_lanka.JsMap
use edu_lanka.JsMap.{JsMap}
use edu_lanka.Billing.Fees.{calculate_active_student_fee}
use edu_lanka.Billing.Snapshots.{
  Tenant, SmsLog, Reads, or_zero, segments, sms_count_by_tenant, plan_code, plan_or_free,
  compute_snapshot,
}

-- The segments of a tenant's messages, added up.
abbrev pub billed_segments : String → List SmsLog → ℕ
billed_segments t [] = 0
billed_segments t (l ∷ ls) = (if str_eq l.tenant_id t then segments l else 0) + billed_segments t ls

add_message :
    (t : String) (l : SmsLog) (m : JsMap ℕ)
    → t ≢ ""
    → or_zero (
        JsMap.get t (
          if str_eq l.tenant_id ""
          then m
          else JsMap.set l.tenant_id (or_zero (JsMap.get l.tenant_id m) + segments l) m))
      ≡ or_zero (JsMap.get t m) + (if str_eq l.tenant_id t then segments l else 0)
add_message t l m h = ground (
  arith,
  str_eq_iff l.tenant_id "",
  str_eq_iff l.tenant_id t,
  JsMap.get-set l.tenant_id t (or_zero (JsMap.get l.tenant_id m) + segments l) m,
)

-- The loop over the messages adds up the segments of each tenant.
sms_count_from :
    (t : String) (ls : List SmsLog) (m : JsMap ℕ)
    → t ≢ ""
    → or_zero (JsMap.get t (sms_count_by_tenant ls m))
      ≡ or_zero (JsMap.get t m) + billed_segments t ls
unfolding sms_count_by_tenant
sms_count_from t [] m h = omega arith
sms_count_from t (l ∷ ls) m h = omega (
  arith,
  sms_count_from t ls
      (if str_eq l.tenant_id ""
        then m
        else JsMap.set l.tenant_id (or_zero (JsMap.get l.tenant_id m) + segments l) m)
      h,
  add_message t l m h,
)

-- A tenant's invoice is the base fee, the discounted fee of its active students, and the configured
-- price for each segment of its messages of the month beyond the allowance.
pub compute_snapshot_total :
    (i : Reads) (ls : List SmsLog) (t : Tenant)
    → t.id ≢ ""
    → i.sms ≡ sms_count_by_tenant ls []
    → let x = compute_snapshot i t in
      let def = plan_or_free (JsMap.get (plan_code t) i.plans) in
      (x.sms_count ≡ billed_segments t.id ls)
      × (x.total_amount_lkr
          ≡ def.base_fee_lkr
            + (calculate_active_student_fee x.active_student_count def.price_per_student_lkr
                none).total_student_fee_lkr
            + (billed_segments t.id ls - x.sms_allowance) * i.overage_price)
unfolding compute_snapshot
compute_snapshot_total i ls t h e =
    let k : or_zero (JsMap.get t.id i.sms) ≡ billed_segments t.id ls =
      rw (e, sms_count_from t.id ls [] h, JsMap.get-nil) (omega arith) in
    (k, rw k)
