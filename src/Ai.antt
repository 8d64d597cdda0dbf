-- ===== src/Ai.antt =====
-- internal/ai: the token budget of a turn and the registry of models.
pub mod Budget
pub mod Match
pub mod Memory
pub mod Tests
pub mod MemoryTests
