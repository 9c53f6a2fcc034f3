-- ===== src/Billing/Invoice.antt =====
-- The rows of `billing_snapshots` and their statuses
-- (apps/api/src/modules/billing/billing.types.ts).
use edu_lanka.Prelude.{ℕ, String, Bool, true, false, Option, str_eq, List, any}

pub data BillingStatus : Type 0 where
  draft issued paid overdue : BillingStatus

-- A timestamp is a number of milliseconds; `created_at` may be missing from a row.
pub record Invoice : Type 0 where
  pub id : String
  pub tenant_id : String
  pub billing_month : String
  pub plan : String
  pub active_student_count : ℕ
  pub base_fee_lkr : ℕ
  pub per_student_fee_lkr : ℕ
  pub sms_count : ℕ
  pub sms_overage_charge_lkr : ℕ
  pub total_amount_lkr : ℕ
  pub status : BillingStatus
  pub created_at : Option ℕ
  pub updated_at : ℕ

abbrev pub is_draft : BillingStatus → Bool
is_draft draft = true
is_draft _ = false

abbrev pub is_issued : BillingStatus → Bool
is_issued issued = true
is_issued _ = false

abbrev pub is_paid : BillingStatus → Bool
is_paid paid = true
is_paid _ = false

-- `['OVERDUE', 'ISSUED']`.
abbrev pub is_unpaid : BillingStatus → Bool
is_unpaid issued = true
is_unpaid overdue = true
is_unpaid _ = false

-- The filters `.eq('id', id)` and `.in('id', ids)`.
abbrev pub has_id : String → Invoice → Bool
has_id id r = str_eq r.id id

abbrev pub has_id_in : List String → Invoice → Bool
has_id_in ids r = any (str_eq r.id) ids
