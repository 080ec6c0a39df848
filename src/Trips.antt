-- ===== src/Trips.antt =====
-- internal/app/trips: the trip service, by the parts of service.go.
pub mod Errors
pub mod Types
pub mod Access
pub mod Views
pub mod Queries
pub mod Voting
pub mod Rsvps
pub mod Patch
pub mod Saving
pub mod Evolution
pub mod Drafts
pub mod Organizers
pub mod Publishing
pub mod History
pub mod Secrecy
mod Examples
