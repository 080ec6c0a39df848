-- ===== src/Http/Handler.antt =====
-- internal/adapters/httpapi/server.go and context.go: what the server holds, and what every handler
-- does before and after it calls a service. A handler returns a reply or an error of Go; it may
-- return early, so a step of it either goes on with a value or stops with what is returned.
use eastbay_overland_rally_p.Prelude.{
  ℕ, String, Bool, false, List, [], ◌∷◌, Option, none, some, ◌==◌, nat_eq, string_eq, if◌then◌else◌,
}
use eastbay_overland_rally_p.Domain.{Time, SubjectId, Member}
use eastbay_overland_rally_p.Ports.{Result, ok, err, Failure, app, Error, Detail}
use eastbay_overland_rally_p.Ports.Idempotency.{IdempotencyStore}
use eastbay_overland_rally_p.Service.{Backend, World, Exec}
use eastbay_overland_rally_p.Members.Types.{Settings}
use eastbay_overland_rally_p.Members.Directory.{get_my_member_profile}
use eastbay_overland_rally_p.Http.Oas.{ErrorResponse, Nullable, absent, given}
use eastbay_overland_rally_p.Http.Codec.{Codec}

-- the values of the context of a request: the subject that the middleware put there, and the
-- identifier of the request, empty when the request has none
pub record Context : Type 0 where
  pub subject : Option String
  pub request_id : String

-- SubjectFromContext: an empty subject is none
abbrev pub non_empty : Option String → Option SubjectId
non_empty none = none
non_empty (some v) = if v == "" then none else some v

unfoldable pub subject_from_context : Context → Option SubjectId
subject_from_context ctx = non_empty ctx.subject

abbrev pub request_id_of : Context → Nullable String
request_id_of ctx = if ctx.request_id == "" then absent else given ctx.request_id

-- an error without details has a nil map
abbrev pub details_of : List (String × Detail) → Nullable (List (String × Detail))
details_of [] = absent
details_of (d ∷ ds) = given (d ∷ ds)

abbrev pub oas_error : Context → String → String → List (String × Detail) → ErrorResponse
oas_error ctx code message details = record {
  code = code;
  message = message;
  details = details_of details;
  request_id = request_id_of ctx;
}

abbrev pub is_member_not_provisioned : Failure → Bool
is_member_not_provisioned (app e) = e.code == "MEMBER_NOT_PROVISIONED"
is_member_not_provisioned _ = false

-- A response object: a status with a document, or with the document of an error.
pub data Reply (R : Type 0) : Type 0 where
  replied : ℕ → R → Reply R
  refused : ℕ → ErrorResponse → Reply R

abbrev pub unauthorized : {R : Type 0} → Context → Reply R
unauthorized ctx = refused 401 (oas_error ctx "UNAUTHORIZED" "missing subject" [])

abbrev pub not_provisioned : {R : Type 0} → Context → Reply R
not_provisioned ctx = refused 401 (
    oas_error ctx "MEMBER_NOT_PROVISIONED" "No member profile exists for the authenticated subject."
      [])

abbrev pub missing_body : {R : Type 0} → Context → Reply R
missing_body ctx = refused 422 (oas_error ctx "VALIDATION_ERROR" "missing request body" [])

abbrev pub key_reuse : {R : Type 0} → Context → Reply R
key_reuse ctx =
    refused 409
      (oas_error ctx "IDEMPOTENCY_KEY_REUSE" "idempotency key reuse with different payload" [])

-- the state of the store of replies, where the server has one
abbrev pub Kept : Option IdempotencyStore → Type 0
Kept none = Unit
Kept (some i) = i.Store

-- Server: the services over their backend, a store of replies that may be nil, the documents as
-- text, and `now n`, the n-th reading of time.Now() in a handler
pub record Server (B : Backend) (idem : Option IdempotencyStore) : Type 0 where
  pub members : Settings
  pub codec : Codec
  pub now : ℕ → Time

pub record Site (B : Backend) (idem : Option IdempotencyStore) : Type 0 where
  pub world : World B
  pub kept : Kept idem
  pub ticks : ℕ

pub data Outcome (R A : Type 0) : Type 0 where
  next : A → Outcome R A
  stop : Result (Reply R) → Outcome R A

module _ {R : Type 0} where
  abbrev pub returned : Outcome R (Reply R) → Result (Reply R)
  returned (next r) = ok r
  returned (stop r) = r

  -- a switch on the status of an error of the application; what it does not name is returned as it is
  abbrev pub answer_with : Context → Error → Option ℕ → Result (Reply R)
  answer_with ctx e none = err (app e)
  answer_with ctx e (some status) = ok (refused status (oas_error ctx e.code e.message e.details))

  abbrev pub answer : Context → (ℕ → Option ℕ) → Failure → Result (Reply R)
  answer ctx status_of (app e) = answer_with ctx e (status_of e.status)
  answer ctx status_of e = err e

  abbrev pub answered : {A : Type 0} → Context → (ℕ → Option ℕ) → Result A → Outcome R A
  answered ctx status_of (ok a) = next a
  answered ctx status_of (err e) = stop (answer ctx status_of e)

  abbrev pub provisioned : Context → Result Member → Outcome R Member
  provisioned ctx (ok m) = next m
  provisioned ctx (err e) =
      stop (if is_member_not_provisioned e then ok (not_provisioned ctx) else err e)

module _ (B : Backend) (idem : Option IdempotencyStore) where
  abbrev pub Handler : Type 0 → Type 0 → Type 0
  Handler R A = Site B idem → Outcome R A × Site B idem

module _ {B : Backend} {idem : Option IdempotencyStore} {R : Type 0} where
  abbrev pub pass : {A : Type 0} → A → Handler B idem R A
  pass a site = (next a, site)

  abbrev pub reply : {A : Type 0} → Reply R → Handler B idem R A
  reply r site = (stop (ok r), site)

  -- `return nil, err`
  abbrev pub raise : {A : Type 0} → Failure → Handler B idem R A
  raise e site = (stop (err e), site)

  abbrev pub resume : {A C : Type 0} → Outcome R A → (A → Handler B idem R C) → Handler B idem R C
  resume (next a) f site = f a site
  resume (stop r) f site = (stop r, site)

  infixl 5 ◌>>=◌ ◌>>◌
  abbrev pub ◌>>=◌ :
      {A C : Type 0} → Handler B idem R A → (A → Handler B idem R C) → Handler B idem R C
  ◌>>=◌ m f site = let (o, site') = m site in resume o f site'

  abbrev pub ◌>>◌ : {A C : Type 0} → Handler B idem R A → Handler B idem R C → Handler B idem R C
  m >> k = m >>= λ _. k

  -- what the handler returns, and the site after it
  unfoldable pub serve : Handler B idem R (Reply R) → Site B idem → Result (Reply R) × Site B idem
  serve h site = let (o, site') = h site in (returned o, site')

  -- `if err != nil { return nil, err }`
  unfoldable pub must : {A : Type 0} → Result A → Handler B idem R A
  must (ok a) = pass a
  must (err e) = raise e

  -- the subject, or 401
  abbrev pub subject_or_401 : Context → Option SubjectId → Handler B idem R SubjectId
  subject_or_401 ctx none = reply (unauthorized ctx)
  subject_or_401 ctx (some sub) = pass sub

  unfoldable pub authenticate : Context → Handler B idem R SubjectId
  authenticate ctx = subject_or_401 ctx (subject_from_context ctx)

  -- the body of the request, or 422
  unfoldable pub body_of : {A : Type 0} → Context → Option A → Handler B idem R A
  body_of ctx none = reply (missing_body ctx)
  body_of ctx (some b) = pass b

  -- a call of a service that may change its world
  unfoldable pub perform : {A : Type 0} → Context → (ℕ → Option ℕ) → Exec B A → Handler B idem R A
  perform ctx status_of m site =
      let (r, w) = m site.world in (answered ctx status_of r, record site { world = w })

  -- a call of a service that only reads
  unfoldable pub inquire :
      {A : Type 0} → Context → (ℕ → Option ℕ) → (World B → Result A) → Handler B idem R A
  inquire ctx status_of f site = (answered ctx status_of (f site.world), site)

  -- the member whom the subject is bound to, or 401
  unfoldable pub caller_of : Server B idem → Context → SubjectId → Handler B idem R Member
  caller_of s ctx sub site =
      (provisioned ctx (get_my_member_profile B s.members sub site.world), site)

-- the cases of the switches on ae.Status
abbrev pub one_of : List ℕ → ℕ → Option ℕ
one_of [] s = none
one_of (c ∷ cs) s = let rest = one_of cs s in if s == c then some s else rest

-- "Should not happen for create; map to conflict."
abbrev pub create_status : ℕ → Option ℕ
create_status s = if s == 404 then some 409 else one_of (409 ∷ 422 ∷ []) s
