-- ===== src/Profile.antt =====
-- frontend/app/lib/profile: how complete a student's profile is.
pub mod Completeness
mod Tests
