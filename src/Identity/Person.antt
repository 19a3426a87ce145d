-- ===== src/Identity/Person.antt =====
-- internal/identity/domain/person: a person, with the credential, the pending changes and the lockout.
pub mod Events
pub mod State
pub mod Credentials
pub mod EmailChange
pub mod Standing
pub mod Lockout
pub mod Calls
pub mod Tokens
pub mod Stamp
pub mod Thresholds
mod Examples
