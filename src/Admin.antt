-- ===== src/Admin.antt =====
-- The console of the operator: apps/api/src/routes/admin.ts, apps/api/src/routes/tenants.ts and
-- apps/api/src/services/platform.service.ts. The lists, the tests of providers and the figures of the
-- host are not modelled.
pub mod Prompts
pub mod Accounts
pub mod Numbers
pub mod Tenants
pub mod Charts
