-- ===== src/Nightly.antt =====
-- The nightly job (apps/api/src/modules/billing/billing.processor.ts): `process` calls the overdue
-- pass, the snapshots and the expiry of grants one after the other.
mod Tests
use edu_lanka.Prelude.{
  ℕ, String, Bool, true, false, ◌||◌, Option, List, length, str_eq, if◌then◌else◌,
}
use edu_lanka.Http.{Result, ok, err}
use edu_lanka.Postgrest.{Table}
use edu_lanka.Billing.Invoice.{Invoice}
use edu_lanka.Billing.LockCache.{Billing}
use edu_lanka.Billing.Lifecycle.{process_overdue_invoices}
use edu_lanka.Billing.Snapshots.{Sources, Snapshot, generate_billing_snapshots}
use edu_lanka.Sponsorship.{Funds, Sponsorship, Surroundings, process_expired_grants}

pub data JobResult : Type 0 where
  ignored : JobResult
  done : ℕ → ℕ → ℕ → JobResult

-- The two services of the job.
pub record Night (Db : Type 0) (D : Funds) : Type 0 where
  pub billing : Billing Db
  pub sponsorship : Sponsorship D

abbrev pub is_snapshot_job : String → Bool
is_snapshot_job name = str_eq name "nightly-billing-snapshot" || str_eq name "generate-snapshot"

module _ (T : Table Invoice) (D : Funds) (w : Surroundings) where
  pub with_snapshots :
      ℕ
      → ℕ
      → Sponsorship D
      → Result (List Snapshot) × Billing T.Db
      → Result JobResult × Night T.Db D
  with_snapshots now overdue g (err e, b) = (err e, record { billing = b; sponsorship = g })
  with_snapshots now overdue g (ok rs, b) =
      let (n, g') = process_expired_grants D w now g in
      (ok (done (length rs) overdue n), record { billing = b; sponsorship = g' })

  module _ (from : Sources) (month : String) (begin end now : ℕ) (price : Option ℕ) where
    pub with_overdue : Sponsorship D → Result ℕ × Billing T.Db → Result JobResult × Night T.Db D
    unfolding with_snapshots
    with_overdue g (err e, b) = (err e, record { billing = b; sponsorship = g })
    with_overdue g (ok n, b) =
        with_snapshots now n g (generate_billing_snapshots T from month begin end now price b)

    unfoldable pub process : String → Night T.Db D → Result JobResult × Night T.Db D
    unfolding with_overdue
    process name s =
        let worked = with_overdue s.sponsorship (process_overdue_invoices T now s.billing) in
        if is_snapshot_job name then worked else (ok ignored, s)
