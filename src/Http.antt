-- ===== src/Http.antt =====
-- internal/adapters/httpapi: the server in front of the services. Its children are the documents of
-- the API (Oas), the conversions from and to them (Convert, Inputs), the hashes of bodies (Hashes),
-- the handler of one request (Handler), the replay of replies (Replay) and the handlers.
pub mod Oas
pub mod Convert
pub mod Inputs
pub mod Codec
pub mod Handler
pub mod Hashes
pub mod Idempotent
pub mod Exchanges
pub mod MemberHandlers
pub mod TripHandlers
pub mod PlanningHandlers
pub mod Replay
pub mod Remember
pub mod Repeats
pub mod Operations
pub mod Retries
pub mod Steps
pub mod Requests
pub mod Authority
pub mod Admission
pub mod Statuses
pub mod Declared
pub mod Secrecy
pub mod Histories
mod Examples
