-- ===== src/Cli.antt =====
-- internal/cli and cmd/osapi: what stands between the flags and the packages below, without the
-- flag library.
mod Tests
pub mod Exit
pub mod Resolve
pub mod Flags
pub mod Plan
pub mod Output
pub mod Completion
pub mod Request
pub mod RunCommand
pub mod Ism
