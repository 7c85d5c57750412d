-- ===== src/Dashboard.antt =====
-- The student's dashboard: frontend/app/lib/dashboard/model.ts and
-- frontend/app/lib/dashboard/server.ts.
pub mod Model
pub mod View
pub mod Sorting
pub mod Counts
pub mod Deadlines
pub mod Shown
pub mod Recent
pub mod Order
pub mod Load
mod Tests
