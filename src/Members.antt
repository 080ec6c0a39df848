-- ===== src/Members.antt =====
-- internal/app/members: the member service. Its Optional and its Error have the same definitions as
-- those of the trip service, and are the same types here.
pub mod Types
pub mod Profile
pub mod Directory
pub mod Accounts
pub mod Uniqueness
pub mod History
