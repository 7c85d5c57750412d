-- ===== src/Admin.antt =====
-- The workspaces of the administration, of frontend/app/components/admin.
pub mod Duplicates
mod Tests
