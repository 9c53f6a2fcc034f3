-- ===== src/Billing/Run.antt =====
-- Histories of the billing service: any calls in any order, one at a time
-- (apps/api/src/modules/billing/billing.service.ts).
use mathlib.Core.Path.{subst}
use edu_lanka.Prelude.{ℕ, String, Option, List, [], ◌∷◌, In, ◌≡◌, sym}
use edu_lanka.Postgrest.{Table}
use edu_lanka.Billing.Invoice.{Invoice, paid}
use edu_lanka.Billing.LockCache.{Billing}
use edu_lanka.Billing.Evolution.{
  HasDistinctIds, History, start, step, History-trans, History-paid, History-HasDistinctIds,
}
use edu_lanka.Billing.Lifecycle.{issue_invoice, mark_invoice_paid, process_overdue_invoices}
use edu_lanka.Billing.Lifecycle.Steps.{rows_of, issue_invoice-Grows, mark_invoice_paid-Grows}
use edu_lanka.Billing.Lifecycle.Overdue.{process_overdue_invoices-Grows}
use edu_lanka.Billing.LockStatus.{check_tenant_invoice_status, check-rows}
use edu_lanka.Billing.Snapshots.{Sources, generate_billing_snapshots}
use edu_lanka.Billing.Snapshots.Writes.{generate-History}

-- The calls, each with its time; the nightly pass with what it reads of other tables.
pub data Call : Type 1 where
  issue pay check : String → ℕ → Call
  overdue_pass : ℕ → Call
  snapshot_pass : Sources → String → ℕ → ℕ → ℕ → Option ℕ → Call

module _ (T : Table Invoice) where
  -- The state after a call, whether it returns or throws.
  unfoldable pub after : Call → Billing T.Db → Billing T.Db
  after (issue id now) s = (issue_invoice T id now s).1
  after (pay id now) s = (mark_invoice_paid T id now s).1
  after (check tenant now) s = (check_tenant_invoice_status T tenant now s).1
  after (overdue_pass now) s = (process_overdue_invoices T now s).1
  after (snapshot_pass from month begin end now price) s =
      (generate_billing_snapshots T from month begin end now price s).1

  unfoldable pub run : List Call → Billing T.Db → Billing T.Db
  run [] s = s
  run (c ∷ cs) s = run cs (after c s)

  module _ (keyed : (r : Invoice) → T.key r ≡ r.id) where
    after-History :
        (c : Call) (s : Billing T.Db)
        → HasDistinctIds (rows_of T s)
        → History (rows_of T s) (rows_of T (after c s))
    unfolding after
    after-History (issue id now) s d = step start (issue_invoice-Grows T id now s)
    after-History (pay id now) s d = step start (mark_invoice_paid-Grows T id now s)
    after-History (check tenant now) s d =
        subst (λ db. History (rows_of T s) (T.rows db)) (sym (check-rows T tenant now s)) start
    after-History (overdue_pass now) s d = step start (process_overdue_invoices-Grows T now s d)
    after-History (snapshot_pass from month begin end now price) s d =
        generate-History T from month begin end now price keyed s

    -- Whatever is called in whatever order, and whether the calls return or throw, each invoice
    -- moves only along the status graph DRAFT to ISSUED to PAID, with OVERDUE between the last two,
    -- and nothing else of it but the time of its update changes once it is no draft; new invoices are
    -- drafts.
    pub run-History :
        (cs : List Call) (s : Billing T.Db)
        → HasDistinctIds (rows_of T s)
        → History (rows_of T s) (rows_of T (run cs s))
    unfolding run
    run-History [] s d = start
    run-History (c ∷ cs) s d =
        let h = after-History c s d in
        History-trans h (run-History cs (after c s) (History-HasDistinctIds h d))

    -- Whatever is called in whatever order, one call at a time, a paid invoice stays in the table
    -- exactly as it is.
    pub run_keeps_paid :
        (cs : List Call) (s : Billing T.Db) (r : Invoice)
        → HasDistinctIds (rows_of T s)
        → r.status ≡ paid
        → In r (rows_of T s)
        → In r (rows_of T (run cs s))
    run_keeps_paid cs s r d h m = History-paid r h (run-History cs s d) m
