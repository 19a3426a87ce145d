-- ===== src/Common.antt =====
-- The value objects that the modules of the server share (internal/common).
pub mod Money
mod Examples
