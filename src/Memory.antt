-- ===== src/Memory.antt =====
-- internal/adapters/memory: the repositories in memory. Each operation runs under the lock of its
-- repository, so it is one step on the store. A clone of a stored value is the value itself.
pub mod Errors
pub mod Trips
pub mod Rsvps
pub mod Members
pub mod Idempotency
pub mod Clock
mod Examples
