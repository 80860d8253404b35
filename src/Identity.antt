-- ===== src/Identity.antt =====
-- The identity service of backend/app (services/identity_service.py) over the record stores of
-- repositories/identity_repository.py, with security/passwords.py and security/totp.py.
pub mod Passwords
pub mod Totp
pub mod Store
pub mod Records
pub mod State
pub mod Login
pub mod Users
pub mod ClientUsers
pub mod Clients
pub mod ClientChanges
pub mod Reset
pub mod Mfa
pub mod StoreLaws
pub mod Revoked
pub mod Hex
pub mod Entered
pub mod Created
pub mod Guards
pub mod Stale
pub mod ResetLaws
mod Samples
mod Tests
