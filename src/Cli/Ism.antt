-- ===== src/Cli/Ism.antt =====
-- internal/cli/ism*.go: the commands on Index State Management policies.
mod Tests
pub mod Names
pub mod Value
pub mod Policy
pub mod Held
pub mod Set
pub mod Command
pub mod Session
pub mod Managed
pub mod Change
pub mod Reapply
