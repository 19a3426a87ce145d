-- ===== src/Identity.antt =====
-- The identity module (internal/identity): the permission catalogue, requests for permissions, and the
-- families of refresh tokens.
pub mod Permission
pub mod PermissionRequest
pub mod Person
pub mod RefreshToken
mod Examples
