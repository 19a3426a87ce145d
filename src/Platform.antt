-- ===== src/Platform.antt =====
-- The platform module (internal/platform): lead credits, marketplace leads, their price, and the
-- handler that sells a lead.
pub mod LeadCredit
pub mod PlatformLead
pub mod PurchaseLead
pub mod InitialiseLeadCredits
pub mod TopupLeadCredits
mod Examples
