-- ===== src/Auth.antt =====
-- The auth flows of backend/app (services/login.py, services/sessions.py, services/password_reset.py,
-- core/auth.py) over the tables of backend/migrations/versions.
pub mod Table
pub mod Database
pub mod Primitives
pub mod Audit
pub mod Session
pub mod Outcome
pub mod Login
pub mod Challenge
pub mod PasswordReset
pub mod CurrentUser
pub mod Invariant
pub mod Lookup
pub mod Steps
pub mod SignIn
pub mod SingleUse
pub mod PasswordStep
pub mod Account
pub mod Lockout
pub mod Otp
pub mod Access
pub mod Stay
pub mod Entered
pub mod Flow
pub mod ResetLaws
pub mod ResetOnce
pub mod Samples
mod Tests
