-- ===== src/Dispatch.antt =====
-- The dispatch module of the server (internal/dispatch): the consignment notes of orders.
pub mod ConsignmentNote
mod Examples
