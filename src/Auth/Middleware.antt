-- ===== src/Auth/Middleware.antt =====
-- internal/adapters/httpapi/auth_middleware.go, context.go (WithSubject) and errors.go: what stands in
-- front of the handlers. A middleware answers a request or hands it on with a context.
use Prim.Native.String.{[] as ε, ◌∷◌ as ◌▹◌}
use eastbay_overland_rally_p.Prelude.{
  ℕ, String, true, not, List, [], Option, none, some, ◌≡◌, ◌≢◌, refl, inl, inr, Bool-cases, ◌==◌,
  string_eq, eq_iff, if◌then◌else◌,
}
use eastbay_overland_rally_p.Text.{has_prefix, trim_space}
use eastbay_overland_rally_p.Ports.{Detail}
use eastbay_overland_rally_p.Http.Oas.{ErrorResponse}
use eastbay_overland_rally_p.Http.Handler.{Context, oas_error, subject_from_context}
use eastbay_overland_rally_p.Auth.Config.{JwtConfig}
use eastbay_overland_rally_p.Auth.Verifier.{Issuer, Cache, verify}
use eastbay_overland_rally_p.Auth.Accepts.{IsTrusted, verify-IsTrusted}

-- the parts of a request that are read here; a header that is left out is empty
pub record HttpRequest : Type 0 where
  pub path : String
  pub header : String → String

pub data Forwarded : Type 0 where
  answered : ℕ → ErrorResponse → Forwarded
  handed_on : Context → Forwarded

abbrev pub with_subject : Context → String → Context
with_subject ctx sub = record ctx { subject = some sub }

abbrev pub write_oas_error : Context → ℕ → String → String → List (String × Detail) → Forwarded
write_oas_error ctx status code message details =
    answered status (oas_error ctx code message details)

abbrev pub unauthorized : Context → String → Forwarded
unauthorized ctx message = write_oas_error ctx 401 "UNAUTHORIZED" message []

-- strings.TrimPrefix, where the prefix is there
unfoldable pub without_prefix : String → String → String
without_prefix s ε = s
without_prefix ε (d ▹ p) = ε
without_prefix (c ▹ s) (d ▹ p) = without_prefix s p

-- the token of a header `Bearer ...`
abbrev pub bearer : String → String
bearer authz = trim_space (without_prefix authz "Bearer ")

abbrev pub with_verified : Context → Option String → Forwarded
with_verified ctx none = unauthorized ctx "invalid token"
with_verified ctx (some sub) = handed_on (with_subject ctx sub)

-- NewAuthMiddleware
module _ (cfg : JwtConfig) (iss : Issuer) where
  abbrev verified : Context → String → Cache → Forwarded × Cache
  verified ctx raw v = let (r, v') = verify cfg iss raw v in (with_verified ctx r, v')

  unfoldable pub new_auth_middleware : HttpRequest → Context → Cache → Forwarded × Cache
  new_auth_middleware r ctx v =
      let authz = r.header "Authorization" in
      if r.path == "/healthz"
      then (handed_on ctx, v)
      else if authz == ""
      then (unauthorized ctx "missing Authorization header", v)
      else if not (has_prefix authz "Bearer ")
      then (unauthorized ctx "malformed Authorization header", v)
      else if bearer authz == ""
      then (unauthorized ctx "missing bearer token", v)
      else verified ctx (bearer authz) v

abbrev first_non_empty : String → String → String
first_non_empty a b = if a == "" then b else a

-- NewDevAuthMiddleware
unfoldable pub new_dev_auth_middleware : String → HttpRequest → Context → Forwarded
new_dev_auth_middleware default_subject r ctx =
    let sub =
      first_non_empty (trim_space (r.header "X-Debug-Subject")) (trim_space default_subject) in
    if r.path == "/healthz"
    then handed_on ctx
    else if sub == ""
    then unauthorized ctx "missing subject (set X-Debug-Subject)"
    else handed_on (with_subject ctx sub)

handed_same : {a b : Context} → handed_on a ≡ handed_on b → b ≡ a
handed_same h = cc

verified_inv :
    (ctx ctx' : Context) (r : Option String)
    → with_verified ctx r ≡ handed_on ctx'
    → (sub : String) × (r ≡ some sub) × (ctx' ≡ with_subject ctx sub)
verified_inv ctx ctx' none h = absurd cc
verified_inv ctx ctx' (some sub) h = (sub, refl, handed_same h)

named_subject :
    (ctx : Context) (sub : String)
    → sub ≢ ""
    → subject_from_context (with_subject ctx sub) ≡ some sub
unfolding subject_from_context
named_subject ctx sub named = elim (Bool-cases (sub == "")) [
  | inl empty ↦ absurd (named ((eq_iff sub "").0 empty))
  | inr other ↦ rw other refl
]

module _ (cfg : JwtConfig) (iss : Issuer) (r : HttpRequest) (ctx ctx' : Context) (v : Cache) where
  -- A request of any path but /healthz reaches the handlers only with a header `Bearer` and a token
  -- that Verify accepts, so that the token is trusted, and the subject that the handlers then find in
  -- the context is the subject of that token.
  pub forwarded-IsTrusted :
      r.path ≢ "/healthz"
      → (new_auth_middleware cfg iss r ctx v).0 ≡ handed_on ctx'
      → let authz = r.header "Authorization" in
        (has_prefix authz "Bearer " ≡ true)
        × ((sub : String) × (subject_from_context ctx' ≡ some sub)
            × IsTrusted cfg iss (bearer authz) sub (new_auth_middleware cfg iss r ctx v).1)
  unfolding new_auth_middleware
  forwarded-IsTrusted api h =
      let authz = r.header "Authorization" in
      elim (Bool-cases (r.path == "/healthz")) [
        | inl health ↦ absurd (api ((eq_iff r.path "/healthz").0 health))
        | inr path ↦ elim (Bool-cases (authz == "")) [
          | inl missing ↦
              let bad : unauthorized ctx "missing Authorization header" ≡ handed_on ctx' =
                rw (path, missing) at h in
              absurd cc
          | inr present ↦ elim (Bool-cases (has_prefix authz "Bearer ")) [
            | inr malformed ↦
                let bad : unauthorized ctx "malformed Authorization header" ≡ handed_on ctx' =
                  rw (path, present, malformed) at h in
                absurd cc
            | inl prefixed ↦ elim (Bool-cases (bearer authz == "")) [
              | inl empty ↦
                  let bad : unauthorized ctx "missing bearer token" ≡ handed_on ctx' =
                    rw (path, present, prefixed, empty) at h in
                  absurd cc
              | inr token ↦
                  let out : with_verified ctx (verify cfg iss (bearer authz) v).0 ≡ handed_on ctx' =
                    rw (path, present, prefixed, token) at h in
                  let (sub, accepted, same) = verified_inv ctx ctx' _ out in
                  let trusted = verify-IsTrusted cfg iss (bearer authz) sub v accepted in
                  (
                    prefixed,
                    (
                      sub,
                      rw same (named_subject ctx sub trusted.nonempty),
                      rw (path, present, prefixed, token) trusted,
                    ),
                  )
            ]
          ]
        ]
      ]
