-- ===== src/Runbook/Load.antt =====
-- internal/runbook/runbook.go, the loader of runbooks: Load, loader.call and what they call. The YAML
-- decoder, the file system, the jq compiler and `time.ParseDuration` are arguments.
pub mod Tests
pub mod Node
pub mod Headers
pub mod Checks
pub mod Build
pub mod Doc
pub mod Checked
pub mod Captured
pub mod Accepted
pub mod Filled
pub mod Names
pub mod CaptureNames
