-- ===== src/Billing.antt =====
-- modules/billing of the API (apps/api/src/modules/billing): fees, the life of an invoice, the lock of
-- a tenant with unpaid invoices, and the nightly snapshots.
pub mod Fees
pub mod Invoice
pub mod LockCache
pub mod Evolution
pub mod Lifecycle
pub mod LockStatus
pub mod Snapshots
pub mod Run
mod Tests
