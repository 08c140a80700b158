-- ===== src/Retry.antt =====
-- internal/retry: one request, tried until it succeeds, fails for good, or the budget is spent.
mod Tests
pub mod Predicate
pub mod Body
pub mod Classify
pub mod Backoff
pub mod Attempt
pub mod Engine
