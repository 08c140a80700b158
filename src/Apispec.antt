-- ===== src/Apispec.antt =====
-- internal/apispec: lookups in the table of API paths.
mod Tests
pub mod Match
pub mod Suggest
pub mod Gen
