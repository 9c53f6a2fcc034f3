-- ===== src/Billing/LockStatus/AfterCalls.antt =====
-- The lock of a tenant after one of its invoices is issued or paid
-- (apps/api/src/modules/billing/billing.service.ts).
use mathlib.Core.Path.{subst}
use edu_lanka.Prelude.{
  ℕ, ◌+◌, ◌<◌, ◌≡◌, ◌≢◌, refl, ◌⊎◌, inl, inr, String, true, false, Option, none, some, List, In,
  In-select, In-modify, modify, modify-In_changed, str_eq_iff, Bool-cases, arith,
}
use edu_lanka.JsMap
use edu_lanka.Http.{ok}
use edu_lanka.Postgrest.{Table, found}
use edu_lanka.Billing.Invoice.{Invoice, issued, paid, overdue, has_id}
use edu_lanka.Billing.LockCache.{Billing, CacheEntry}
use edu_lanka.Billing.Lifecycle.{issue_invoice, mark_invoice_paid, with_status, grace_period_ms}
use edu_lanka.Billing.Lifecycle.Steps.{rows_of}
use edu_lanka.Billing.Lifecycle.Outcomes.{
  Issued, issue_invoice_ok, mark_invoice_paid_ok, is_draft_of,
}
use edu_lanka.Billing.LockStatus.{check_tenant_invoice_status, is_unpaid_of}
use edu_lanka.Billing.LockStatus.Grace.{IsStale, check_locked_iff}

module _ (T : Table Invoice) where
  uncached-IsStale : (later : ℕ) (o : Option CacheEntry) → o ≡ none → IsStale later o
  uncached-IsStale later none e = tt
  uncached-IsStale later (some c) e = cc

  Issued-In :
      (id : String) (now : ℕ) (s s' : Billing T.Db) (row : Invoice) (i : Issued T id now row s s')
      → In row (rows_of T s')
  Issued-In id now s s' row i =
      let w = i.result in
      let (m, e) = In-select (has_id id) i.old (rows_of T s) (rw i.unique (inl refl)) in
      let passes : is_draft_of T id i.old ≡ true = rw (e, i.was_draft) in
      rw (w.given, w.stored)
        (modify-In_changed (is_draft_of T id) (with_status issued now) i.old (rows_of T s) m passes)

  -- Issuing an invoice whose draft was stored more than fourteen days ago locks the tenant as soon
  -- as its status is next computed, though no invoice has become overdue.
  pub issue_locks_at_once :
      (id : String) (now later stored : ℕ) (s s' : Billing T.Db) (row : Invoice) (rs : List Invoice)
      → issue_invoice T id now s ≡ (ok row, s')
      → row.created_at ≡ some stored
      → stored + grace_period_ms < later
      → T.select_all (is_unpaid_of row.tenant_id) s'.snapshots ≡ found rs
      → (check_tenant_invoice_status T row.tenant_id later s').0.is_account_locked ≡ true
  issue_locks_at_once id now later stored s s' row rs e c old answered =
      let i = issue_invoice_ok T id now s s' row e in
      let uncached : JsMap.get row.tenant_id s'.lock_status_cache ≡ none =
        rw i.result.given i.result.uncached in
      (check_locked_iff T row.tenant_id later s' rs (uncached-IsStale later _ uncached) answered).1
        (row, Issued-In id now s s' row i, refl, inl (rw i.result.given), rw c old)

  -- No row that `with_status paid` has gone over is an unpaid invoice of the tenant, if the paid one
  -- was the only such.
  paid-no_unpaid :
      (id tenant : String) (now : ℕ) (rs : List Invoice) (r : Invoice)
      → ((a : Invoice)
          → In a rs
          → a.tenant_id ≡ tenant
          → (a.status ≡ issued) ⊎ (a.status ≡ overdue)
          → a.id ≡ id)
      → In r (modify (has_id id) (with_status paid now) rs)
      → r.tenant_id ≡ tenant
      → ¬ ((r.status ≡ issued) ⊎ (r.status ≡ overdue))
  paid-no_unpaid id tenant now rs r only m t u =
      let (a, ia, e) = In-modify (has_id id) (with_status paid now) r rs m in
      elim (Bool-cases (has_id id a)) [
        | inl h ↦ let f : r ≡ with_status paid now a = rw h at e in ground arith
        | inr h ↦
            let f : r ≡ a = rw h at e in
            let same : a.id ≡ id = only a ia (rw (← f) t) (rw (← f) u) in
            ground (arith, str_eq_iff a.id id)
      ]

  -- Paying the only unpaid invoice of a tenant unlocks it: the next status that is asked for is
  -- computed anew, and is not locked.
  pub pay_unlocks :
      (id : String) (now later : ℕ) (s s' : Billing T.Db) (row : Invoice) (rs : List Invoice)
      → mark_invoice_paid T id now s ≡ (ok row, s')
      → ((r : Invoice) → In r (rows_of T s) → r.id ≡ id → r.status ≢ paid)
      → ((r : Invoice)
          → In r (rows_of T s)
          → r.tenant_id ≡ row.tenant_id
          → (r.status ≡ issued) ⊎ (r.status ≡ overdue)
          → r.id ≡ id)
      → T.select_all (is_unpaid_of row.tenant_id) s'.snapshots ≡ found rs
      → (check_tenant_invoice_status T row.tenant_id later s').0.is_account_locked ≡ false
  pay_unlocks id now later s s' row rs e unpaid only answered =
      let p = mark_invoice_paid_ok T id now s s' row e in
      let (m, h) = In-select (has_id id) p.old (rows_of T s) (rw p.unique (inl refl)) in
      elim p.result [
        | inl (was_paid, _, _) ↦ absurd (unpaid p.old m ((str_eq_iff p.old.id id).0 h) was_paid)
        | inr (_, w) ↦
            let uncached : JsMap.get row.tenant_id s'.lock_status_cache ≡ none =
              rw w.given w.uncached in
            elim (Bool-cases
              (check_tenant_invoice_status T row.tenant_id later s').0.is_account_locked) [
                | inr unlocked ↦ unlocked
                | inl locked ↦
                    let (r, k, t, u, _) =
                      (check_locked_iff T row.tenant_id later s' rs
                          (uncached-IsStale later _ uncached) answered).0
                        locked in
                    absurd (
                      paid-no_unpaid id row.tenant_id now (rows_of T s) r only
                        (subst (In r) w.stored k) t u)
              ]
      ]
