-- ===== src/Runbook.antt =====
-- internal/runbook: declarative sequences of calls.
mod Tests
pub mod Template
pub mod Capture
pub mod Call
pub mod Outcome
pub mod Sending
pub mod Run
pub mod Spec
pub mod Load
