-- ===== src/Onboarding.antt =====
-- frontend/app/lib/onboarding and frontend/app/(app)/onboarding: the profile wizard.
pub mod Countries
pub mod Types
pub mod Validation
pub mod Steps
pub mod Serialize
pub mod Store
pub mod Patch
pub mod Wizard
mod Tests
