-- ===== src/Access.antt =====
-- What decides whether a request is served (apps/api/src/common/guards).
pub mod Semver
pub mod AccountLock
pub mod AppVersion
pub mod RoutePolicy
mod Tests
