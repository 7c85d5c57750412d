-- ===== src/Auth.antt =====
-- frontend/app/lib/auth: roles, the guards of the server session, the forms and their failures.
pub mod Access
pub mod ServerSession
pub mod Failures
pub mod Validate
mod Tests
