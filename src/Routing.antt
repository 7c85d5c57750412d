-- ===== src/Routing.antt =====
-- frontend/app/lib/routing and frontend/proxy.ts: route classification, safe redirect targets and
-- the request proxy.
pub mod Routes
pub mod SafeRedirect
pub mod Proxy
mod Tests
