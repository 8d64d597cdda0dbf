-- ===== src/Plugin.antt =====
-- sdk/plugin: the schemas that plugins declare for connections and actions, and what the gateway
-- checks of the values that come with them.
pub mod Values
pub mod Condition
pub mod Schema
pub mod Validate
pub mod Tests
