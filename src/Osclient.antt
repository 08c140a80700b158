-- ===== src/Osclient.antt =====
-- internal/osclient: requests to one endpoint.
mod Tests
pub mod Address
pub mod Header
pub mod Client
pub mod Upsert
pub mod Request
