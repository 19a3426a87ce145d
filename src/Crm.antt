-- ===== src/Crm.antt =====
-- The crm module of the server (internal/crm): the leads of a tenant.
pub mod Lead
mod Examples
