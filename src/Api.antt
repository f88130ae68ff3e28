-- ===== src/Api.antt =====
-- The API's gates: service authentication, the tenant context, the check for data leaks and the
-- idempotency store.
pub mod Auth
pub mod Tenant
pub mod LeakCanary
pub mod Idempotency
mod Tests
