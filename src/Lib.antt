-- ===== src/Lib.antt =====
-- A model of the planner's backend, a Go program that plans overland trips: members draft trips,
-- organize and publish them, and answer whether they come. It has three layers. The services
-- (internal/app) hold the rules; they call repositories through the ports (internal/ports/out); the
-- adapters implement the ports, in memory for tests and small installations (internal/adapters/memory)
-- and in Postgres. An HTTP layer checks the token of a request, turns the request into a call of a
-- service, and keeps the reply for a request that is sent again.
--
-- The files and the code that they model:
--   Domain      internal/domain and the stored records of internal/ports/out
--   Ports       the interfaces and errors of internal/ports/out, and the errors of the services
--               (internal/app/*/errors.go). Ports.Laws holds what the services rely on, and
--               Ports.Idempotency the port of the kept replies.
--   Service     the fields of a service, the world that its methods run in, and the way they run
--   Text        NormalizeHumanName (internal/domain/normalize.go), and what the program calls of
--               Go's packages strings and unicode
--   Format      the formats of numbers and dates of packages fmt and time
--   Sorting     sort.Slice
--   Memory      internal/adapters/memory: Trips, Members, Rsvps, Idempotency and Clock
--   Trips       internal/app/trips: Types (types.go), and of service.go Access (visibility and
--               organizers), Views (the read models), Queries (the methods that read), Drafts, Patch
--               (UpdateTrip on the trip alone), Organizers, Publishing (with CancelTrip), Voting and
--               Rsvps (SetMyRSVP), Saving. Evolution and History are about sequences of calls, and
--               Secrecy about drafts that a caller may not see.
--   Members     internal/app/members: Types (types.go), and of service.go Profile (the parts on one
--               profile), Directory (the methods that read) and Accounts (those that write).
--               Uniqueness and History are about the e-mail addresses over sequences of calls.
--   Auth        who a request comes from: Config (internal/platform/config/jwt.go), Tokens, Keys and
--               Verifier (internal/platform/auth/jwtverifier/verifier.go), and Middleware
--               (internal/adapters/httpapi/auth_middleware.go, context.go and errors.go). Accepts,
--               Histories, Provenance and Refreshes are about the calls of Verify.
--   Http        internal/adapters/httpapi: Oas (the documents of oas/api.gen.go), and of server.go
--               Convert and Inputs (the conversions), Codec and Hashes (JSON and the hashes of
--               bodies), Handler (the server, and what each handler does around its call), Idempotent
--               and Exchanges (the replay of replies), MemberHandlers, TripHandlers and
--               PlanningHandlers (the handlers). Replay, Remember, Repeats and Retries are about
--               requests that are sent again; Operations and Requests list the requests; Steps,
--               Authority, Histories, Admission, Statuses, Declared and Secrecy are about all
--               handlers.
--   Demo        a small planner for the examples
--   Prelude     names of the libraries, Boolean tests, int of Go, lists and finite maps
--
-- A method takes the world, which holds the stores of the three repositories and counts the
-- readings of the clock and the identifiers made, and returns its result with the new world, also
-- beside an error: what was written before an error stays written. A method that only reads
-- returns a result. The repositories, the clock, the generators of identifiers, the tables of
-- package unicode (Service.Backend) and the address parser of net/mail (Members.Types.Settings)
-- are parameters: a theorem about a service is about every repository that keeps the laws of
-- Ports.Laws. int of Go is a whole number without a bound: the program counts rigs and answers,
-- far below 2^63. Maps are association lists, pointers that may be nil are options, and a clone is
-- the value itself, since values here are not changed in place. The only fuel is that of
-- Format.digits_of, the number itself; Format.Fuel is about its being enough. Contexts, locks and
-- the text of an error are left out: every operation of a repository in memory runs under its lock
-- and is one step, and a call of a service is one sequence of such steps.
--
-- A handler takes a site, which holds the world of the services and the store of replies, and
-- returns a reply or an error of Go with the new site; it may return early. Its store of replies may
-- be nil, as in the source. A middleware answers a request or hands it on with a context. JSON,
-- base64, SHA-256, RSA, the environment, the clock and what the issuer of tokens answers are
-- parameters (Http.Codec, Auth.Tokens.TokenLibrary, Auth.Keys.KeyLibrary, Auth.Verifier.Issuer).
-- Seconds of a token's times are those that a time.Time can hold.
--
-- The modules named Errors are about the errors of the application that the methods return, by their
-- statuses.
--
-- Not modelled: internal/adapters/postgres, the router (internal/adapters/httpapi/router.go) and the
-- generated code that decodes requests, which call third-party packages, and the programs of cmd. A
-- request whose path, query or headers cannot be decoded is answered 400 by the generated code, which
-- api.gen.go declares for no operation; the theorems are about requests that reach a handler. Two
-- requests that run at the same time are not modelled either: neither calls of a service that
-- interleave their calls of a repository, nor the wait of one call of Verify for the refresh of
-- another.
pub mod Prelude
pub mod Text
pub mod Format
pub mod Domain
pub mod Ports
pub mod Sorting
pub mod Service
pub mod Memory
pub mod Demo
pub mod Trips
pub mod Members
pub mod Auth
pub mod Http
