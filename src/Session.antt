-- ===== src/Session.antt =====
-- internal/session: the registry of live upstream sessions (manager.go) and the handles that borrow
-- them (handle.go).
pub mod Types
pub mod Registry
pub mod Sweep
pub mod Handle
pub mod Counting
pub mod Invariant
pub mod Sections
pub mod Preservation
pub mod Acquire
pub mod Reclaim
pub mod Defaults
pub mod Tests
