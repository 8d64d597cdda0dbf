-- ===== src/Service.antt =====
-- internal/service: what the gateway does over its stores on behalf of a user.
pub mod Folders
pub mod Layout
pub mod Cycle
pub mod Order
pub mod Slug
pub mod Enrollment
pub mod AgentTests
pub mod Tests
