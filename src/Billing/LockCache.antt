-- ===== src/Billing/LockCache.antt =====
-- `lockStatusCache` of the billing service and its state
-- (apps/api/src/modules/billing/billing.service.ts).
use edu_lanka.Prelude.{ℕ, String, Bool, Option, none, some, []}
use edu_lanka.JsMap
use edu_lanka.JsMap.{JsMap}

-- `UnpaidInvoicePolicyStatus` without its message.
pub record LockStatus : Type 0 where
  pub tenant_id : String
  pub has_overdue_invoices : Bool
  pub in_grace_period : Bool
  pub is_account_locked : Bool
  pub grace_days_remaining : ℕ
  pub overdue_amount_lkr : ℕ

pub record CacheEntry : Type 0 where
  pub status : LockStatus
  pub expires_at : ℕ

-- The service: the table behind it and its own cache.
pub record Billing (Db : Type 0) : Type 0 where
  pub snapshots : Db
  pub lock_status_cache : JsMap CacheEntry

-- `clearTenantLockCache(tenantId?)`: one tenant, or all.
unfoldable pub clear_tenant_lock_cache : {Db : Type 0} → Option String → Billing Db → Billing Db
clear_tenant_lock_cache (some tenant) s = record s {
  lock_status_cache = JsMap.delete tenant s.lock_status_cache;
}
clear_tenant_lock_cache none s = record s { lock_status_cache = [] }
