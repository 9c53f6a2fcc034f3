-- ===== src/Billing/LockStatus.antt =====
-- `checkTenantInvoiceStatus` (apps/api/src/modules/billing/billing.service.ts): whether unpaid invoices
-- lock a tenant's account.
pub mod Grace
pub mod AfterCalls
use edu_lanka.Prelude.{
  ℕ, ◌+◌, ◌-◌, ◌*◌, ◌/◌, ◌≡◌, refl, arith, String, Bool, true, false, not, ◌&&◌, Option, none, some,
  List, [], ◌∷◌, ltb, leb, str_eq, if◌then◌else◌,
}
use edu_lanka.JsMap
use edu_lanka.Http.{Result, ok}
use edu_lanka.Postgrest.{Reply, found, failed, Table}
use edu_lanka.Billing.Invoice.{Invoice, is_unpaid}
use edu_lanka.Billing.LockCache.{Billing, CacheEntry, LockStatus}
use edu_lanka.Billing.Lifecycle.{grace_period_ms}

-- 60 seconds.
abbrev pub lock_cache_ttl_ms : ℕ
lock_cache_ttl_ms = 60000

abbrev pub day_ms : ℕ
day_ms = 24 * 60 * 60 * 1000

-- `inv.created_at || inv.updated_at`.
abbrev pub created_or_updated : Option ℕ → ℕ → ℕ
created_or_updated (some t) updated = t
created_or_updated none updated = updated

abbrev pub invoice_time : Invoice → ℕ
invoice_time r = created_or_updated r.created_at r.updated_at

-- The loop's `oldestInvoiceCreated`, which starts at the first invoice in place of `Infinity`.
pub oldest_created : ℕ → List Invoice → ℕ
oldest_created t [] = t
oldest_created t (r ∷ rs) = oldest_created (if ltb (invoice_time r) t then invoice_time r else t) rs

pub total_overdue : List Invoice → ℕ
total_overdue [] = 0
total_overdue (r ∷ rs) = r.total_amount_lkr + total_overdue rs

pub good_standing : String → LockStatus
good_standing tenant = record {
  tenant_id = tenant;
  has_overdue_invoices = false;
  in_grace_period = false;
  is_account_locked = false;
  grace_days_remaining = 14;
  overdue_amount_lkr = 0;
}

-- The status computed from the unpaid invoices. The difference `now - oldest` may be negative in
-- the program, so the tests are written as sums; the days left are rounded up, and at least 0.
pub policy_status : String → ℕ → List Invoice → LockStatus
unfolding oldest_created total_overdue good_standing
policy_status tenant now [] = good_standing tenant
policy_status tenant now (r ∷ rs) =
    let oldest = oldest_created (invoice_time r) rs in
    let in_grace = leb now (oldest + grace_period_ms) in
    record {
      tenant_id = tenant;
      has_overdue_invoices = true;
      in_grace_period = in_grace;
      is_account_locked = not in_grace;
      grace_days_remaining = (oldest + grace_period_ms - now + (day_ms - 1)) / day_ms;
      overdue_amount_lkr = total_overdue (r ∷ rs);
    }

-- `.eq('tenant_id', tenantId).in('status', ['OVERDUE', 'ISSUED'])`.
abbrev pub is_unpaid_of : String → Invoice → Bool
is_unpaid_of tenant r = str_eq r.tenant_id tenant && is_unpaid r.status

-- The error of the query is dropped: a failed read counts as no invoice.
abbrev pub rows_or_none : Reply (List Invoice) → List Invoice
rows_or_none failed = []
rows_or_none (found rs) = rs

module _ (T : Table Invoice) where
  -- The status is computed and cached.
  pub fresh_status : String → ℕ → Billing T.Db → LockStatus × Billing T.Db
  fresh_status tenant now s =
      let status =
        policy_status tenant now (rows_or_none (T.select_all (is_unpaid_of tenant) s.snapshots)) in
      let entry : CacheEntry = record { status = status; expires_at = now + lock_cache_ttl_ms } in
      (status, record s { lock_status_cache = JsMap.set tenant entry s.lock_status_cache })

  pub cached_or_fresh : Option CacheEntry → String → ℕ → Billing T.Db → LockStatus × Billing T.Db
  unfolding fresh_status
  cached_or_fresh none tenant now s = fresh_status tenant now s
  cached_or_fresh (some entry) tenant now s =
      if ltb now entry.expires_at then (entry.status, s) else fresh_status tenant now s

  -- One clock reading serves the whole call.
  pub check_tenant_invoice_status : String → ℕ → Billing T.Db → LockStatus × Billing T.Db
  unfolding cached_or_fresh
  check_tenant_invoice_status tenant now s =
      cached_or_fresh (JsMap.get tenant s.lock_status_cache) tenant now s

  -- The check reads the table and changes the cache only.
  cached_or_fresh-snapshots :
      (o : Option CacheEntry) (tenant : String) (now : ℕ) (s : Billing T.Db)
      → (cached_or_fresh o tenant now s).1.snapshots ≡ s.snapshots
  unfolding cached_or_fresh
  cached_or_fresh-snapshots none tenant now s = refl
  cached_or_fresh-snapshots (some e) tenant now s = ground arith

  pub check-rows :
      (tenant : String) (now : ℕ) (s : Billing T.Db)
      → (check_tenant_invoice_status tenant now s).1.snapshots ≡ s.snapshots
  unfolding check_tenant_invoice_status
  check-rows tenant now s =
      cached_or_fresh-snapshots (JsMap.get tenant s.lock_status_cache) tenant now s
