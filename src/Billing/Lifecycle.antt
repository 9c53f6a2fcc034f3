-- ===== src/Billing/Lifecycle.antt =====
-- The transitions of an invoice (apps/api/src/modules/billing/billing.service.ts): `issueInvoice`,
-- `markInvoicePaid` and the nightly `processOverdueInvoices`.
pub mod Steps
pub mod Overdue
pub mod Outcomes
use edu_lanka.Prelude.{
  ℕ, ◌+◌, ◌*◌, String, Bool, ◌&&◌, Option, none, some, List, [], ◌∷◌, map, length, ltb,
}
use edu_lanka.Http.{Result, ok, err, HttpError, Action, ◌>>=◌, return, throw, resume}
use edu_lanka.Postgrest.{Reply, found, failed, Table}
use edu_lanka.Pagination.{fetch_all_rows}
use edu_lanka.Billing.Invoice.{
  Invoice, BillingStatus, draft, issued, paid, overdue, is_draft, is_issued, has_id, has_id_in,
}
use edu_lanka.Billing.LockCache.{Billing, clear_tenant_lock_cache}

-- 14 * 24 * 60 * 60 * 1000.
abbrev pub grace_period_ms : ℕ
grace_period_ms = 14 * 24 * 60 * 60 * 1000

-- The rows that an update writes.
abbrev pub with_status : BillingStatus → ℕ → Invoice → Invoice
with_status st now r = record r { status = st; updated_at = now }

-- `.eq('status', 'ISSUED').lt('updated_at', fourteenDaysAgo)`.
abbrev pub is_due : ℕ → Invoice → Bool
is_due now r = is_issued r.status && ltb (r.updated_at + grace_period_ms) now

-- `fetchErr || !existing` throws.
pub found_row : Reply (Option Invoice) → Result Invoice
found_row failed = err HttpError.not_found
found_row (found none) = err HttpError.not_found
found_row (found (some r)) = ok r

module _ (T : Table Invoice) where
  pub fetch_invoice : String → Action (Billing T.Db) Invoice
  unfolding found_row
  fetch_invoice id s = (found_row (T.maybe_single (has_id id) s.snapshots), s)

  -- `.update({ status, updated_at })` with filters and `.select().single()`; then the tenant's entry
  -- of the cache is cleared.
  pub written : String → Billing T.Db → Reply Invoice × T.Db → Result Invoice × Billing T.Db
  written tenant s (failed, db) = (err HttpError.internal_error, record s { snapshots = db })
  written tenant s (found row, db) =
      (ok row, clear_tenant_lock_cache (some tenant) (record s { snapshots = db }))

  pub write_status : BillingStatus → ℕ → (Invoice → Bool) → Invoice → Action (Billing T.Db) Invoice
  unfolding written
  write_status st now p existing s =
      written existing.tenant_id s (T.update_single p (with_status st now) s.snapshots)

  pub issue_existing : String → ℕ → Invoice → BillingStatus → Action (Billing T.Db) Invoice
  unfolding write_status
  issue_existing id now existing draft =
      write_status issued now (λ r. has_id id r && is_draft r.status) existing
  issue_existing id now existing _ = throw HttpError.bad_request

  unfoldable pub issue_invoice : String → ℕ → Action (Billing T.Db) Invoice
  unfolding fetch_invoice issue_existing
  issue_invoice id now = do
    existing ← fetch_invoice id
    issue_existing id now existing existing.status

  pub pay_existing : String → ℕ → Invoice → BillingStatus → Action (Billing T.Db) Invoice
  unfolding write_status
  pay_existing id now existing paid = return existing
  pay_existing id now existing draft = throw HttpError.bad_request
  pay_existing id now existing _ = write_status paid now (has_id id) existing

  unfoldable pub mark_invoice_paid : String → ℕ → Action (Billing T.Db) Invoice
  unfolding fetch_invoice pay_existing
  mark_invoice_paid id now = do
    existing ← fetch_invoice id
    pay_existing id now existing existing.status

  pub overdue_written : ℕ → Billing T.Db → Reply (Unit {0}) × T.Db → Result ℕ × Billing T.Db
  overdue_written n s (failed, db) = (err HttpError.internal_error, record s { snapshots = db })
  overdue_written n s (found _, db) =
      (ok n, clear_tenant_lock_cache none (record s { snapshots = db }))

  -- The second half: the rows of the ids that the first half has read become overdue.
  unfoldable pub transition_overdue : ℕ → List Invoice → Action (Billing T.Db) ℕ
  unfolding overdue_written
  transition_overdue now [] s = (ok 0, s)
  transition_overdue now (r ∷ rs) s =
      let ids = map (λ i. i.id) (r ∷ rs) in
      overdue_written (length ids) s
        (T.update (has_id_in ids) (with_status overdue now) s.snapshots)

  unfoldable pub process_overdue_invoices : ℕ → Action (Billing T.Db) ℕ
  unfolding transition_overdue
  process_overdue_invoices now s =
      resume (transition_overdue now) (fetch_all_rows T (is_due now) s.snapshots, s)
