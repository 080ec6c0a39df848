-- ===== src/Auth.antt =====
-- internal/platform/auth/jwtverifier and internal/platform/config: who a request comes from. The
-- children are the configuration (Config), tokens (Tokens), the key sets of the issuer (Keys), the
-- verifier with its cache of keys (Verifier) and the middleware of internal/adapters/httpapi
-- (Middleware).
pub mod Config
pub mod Tokens
pub mod Keys
pub mod Verifier
pub mod Accepts
pub mod Histories
pub mod Provenance
pub mod Refreshes
pub mod Middleware
mod Examples
