-- ===== src/Config.antt =====
-- internal/config: the resolved configuration of an invocation. One child for each source file or
-- group of functions.
mod Tests
pub mod Strategy
pub mod Size
pub mod Types
pub mod Env
pub mod Resolve
