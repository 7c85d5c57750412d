-- ===== src/Api.antt =====
-- frontend/app/lib/api: the typed errors of the HTTP client, and the client.
pub mod Errors
pub mod Client
mod Tests
