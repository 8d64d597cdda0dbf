-- ===== src/Store.antt =====
-- internal/store: the persistence layer, in its in-memory form (memory.go). Each store is a state
-- that an operation takes and gives back; its mutex makes each operation one step.
pub mod Errors
pub mod Leases
pub mod Scan
pub mod Grants
pub mod Invitations
pub mod Enrollments
pub mod Audit
pub mod TablesTests
