-- ===== src/Http/Statuses.antt =====
-- The statuses that the handlers of server.go answer with, against the response objects that
-- internal/adapters/httpapi/oas/api.gen.go declares for each operation.
pub mod Replays
pub mod Keyed
use eastbay_overland_rally_p.Prelude.{
  ℕ, true, List, [], ◌∷◌, Option, none, some, ◌≡◌, refl, ◌⊎◌, inl, inr, Bool-cases, Option-cases,
  ◌==◌, nat_eq, string_eq,
}
use eastbay_overland_rally_p.Domain.{SubjectId, Member}
use eastbay_overland_rally_p.Ports.{
  Result, ok, err, Result-cases, Failure, app, backend, trip_not_found, trip_already_exists,
  member_not_found, subject_already_bound, member_already_exists, rsvp_not_found,
}
use eastbay_overland_rally_p.Ports.Errors.{declares, Raises, Within}
use eastbay_overland_rally_p.Ports.Idempotency.{Fingerprint, IdempotencyStore}
use eastbay_overland_rally_p.Service.{Backend, World, Exec}
use eastbay_overland_rally_p.Members.Directory.{or_not_provisioned, get_my_member_profile}
use eastbay_overland_rally_p.Http.Codec.{Document}
use eastbay_overland_rally_p.Service.Errors.{Throws, ForeignErrors}
use eastbay_overland_rally_p.Http.Handler.{
  Context, Reply, replied, refused, Server, Site, Handler, serve, pass, must, authenticate,
  caller_of, body_of, perform, inquire, subject_from_context, is_member_not_provisioned, answer,
  one_of, ◌>>=◌, ◌>>◌,
}
use eastbay_overland_rally_p.Http.Idempotent.{
  Exchange, response_fingerprint, decoded, is_replayable, claim_key, replay_record, get_record,
  begin, keep, once, plainly,
}

-- a success of one status, a refusal with one of the others, or an error of Go that is no error of
-- the application, which the router answers with 500
abbrev pub IsDeclared : {R : Type 0} → ℕ → List ℕ → Result (Reply R) → Type 0
IsDeclared success refusals (err e) = Raises [] e
IsDeclared success refusals (ok (replied status r)) = status ≡ success
IsDeclared success refusals (ok (refused status e)) = declares refusals status ≡ true

pub one_of-declares : (cs : List ℕ) (s : ℕ) → declares cs s ≡ true → one_of cs s ≡ some s
one_of-declares [] s h = absurd cc
one_of-declares (d ∷ cs) s h = elim (Bool-cases (s == d)) [
  | inl same ↦ rw same refl
  | inr other ↦
      let later : declares cs s ≡ true = rw other at h in rw other (one_of-declares cs s later)
]

-- the switch on ae.Status answers each of the statuses that are raised with a declared one
abbrev pub Translates : List ℕ → List ℕ → (ℕ → Option ℕ) → Type 0
Translates raised refusals status_of =
    (s : ℕ)
    → declares raised s ≡ true
    → (c : ℕ) × (status_of s ≡ some c) × (declares refusals c ≡ true)

-- the error says that the subject has no profile, or is no error of the application
abbrev Told : Result Member → Type 0
Told (ok m) = Unit
Told (err e) = (is_member_not_provisioned e ≡ true) ⊎ Raises [] e

or_not_provisioned-Told : (r : Result Member) → Within [] r → Told (or_not_provisioned r)
or_not_provisioned-Told (ok m) h = tt
or_not_provisioned-Told (err member_not_found) h = inl refl
or_not_provisioned-Told (err (app e)) h = absurd cc
or_not_provisioned-Told (err (backend text)) h = inr tt
or_not_provisioned-Told (err trip_not_found) h = inr tt
or_not_provisioned-Told (err trip_already_exists) h = inr tt
or_not_provisioned-Told (err subject_already_bound) h = inr tt
or_not_provisioned-Told (err member_already_exists) h = inr tt
or_not_provisioned-Told (err rsvp_not_found) h = inr tt

-- the store of replies, where there is one, returns no error of the application
abbrev pub KeptErrors : Option IdempotencyStore → Type 0
KeptErrors none = Unit
KeptErrors (some i) = (fp : Fingerprint) (kept : i.Store) → Within [] (i.get fp kept)

-- Neither the repositories nor the store of replies nor json.Marshal return an error of the
-- application.
pub record ForeignBelow {B : Backend} {idem : Option IdempotencyStore} (s : Server B idem)
    : Type 0 where
  pub repositories : ForeignErrors B
  pub replies : KeptErrors idem
  pub documents : (d : Document) → Within [] (s.codec.document d)

module _ (R : Type 0) (ctx : Context) (success : ℕ) (refusals : List ℕ) where
  answer-IsDeclared :
      (raised : List ℕ) (statuses : ℕ → Option ℕ) (e : Failure)
      → Translates raised refusals statuses
      → Raises raised e
      → IsDeclared {R = R} success refusals (answer ctx statuses e)
  answer-IsDeclared raised statuses (app e) h r = let (c, q, d) = h e.status r in rw q d
  answer-IsDeclared raised statuses (backend e) h r = tt
  answer-IsDeclared raised statuses trip_not_found h r = tt
  answer-IsDeclared raised statuses trip_already_exists h r = tt
  answer-IsDeclared raised statuses member_not_found h r = tt
  answer-IsDeclared raised statuses subject_already_bound h r = tt
  answer-IsDeclared raised statuses member_already_exists h r = tt
  answer-IsDeclared raised statuses rsvp_not_found h r = tt

module _ {B : Backend} {idem : Option IdempotencyStore} {R : Type 0} (ctx : Context) (success : ℕ)
    (refusals : List ℕ) where
  unfoldable pub Answers : Handler B idem R (Reply R) → Type 0
  Answers h = (site : Site B idem) → IsDeclared success refusals (serve h site).0

  pub authenticate-Answers :
      (k : SubjectId → Handler B idem R (Reply R))
      → declares refusals 401 ≡ true
      → ((sub : SubjectId) → Answers (k sub))
      → Answers (authenticate ctx >>= k)
  unfolding Answers serve authenticate
  authenticate-Answers k h p site = elim (Option-cases (subject_from_context ctx)) [
    | inl e ↦ rw e h
    | inr (sub, e) ↦ rw e (p sub site)
  ]

  pub caller-Answers :
      (s : Server B idem) (sub : SubjectId) (k : Member → Handler B idem R (Reply R))
      → declares refusals 401 ≡ true
      → ForeignErrors B
      → ((me : Member) → Answers (k me))
      → Answers (caller_of s ctx sub >>= k)
  unfolding Answers serve caller_of get_my_member_profile
  caller-Answers s sub k h F p site =
      let bound = B.members.get_by_subject sub site.world.members in
      let told : Told (or_not_provisioned bound) =
        or_not_provisioned-Told bound (F.member_by_subject sub site.world.members) in
      elim (Result-cases (or_not_provisioned bound)) [
        | inl (me, q) ↦ rw q (p me site)
        | inr (e, q) ↦
            let why : Told (err e) = rw q at told in
            elim (Bool-cases (is_member_not_provisioned e)) [
              | inl unbound ↦ rw (q, unbound) h
              | inr other ↦
                  rw (q, other) (elim why [ inl unbound ↦ absurd cc | inr foreign ↦ foreign ])
            ]
      ]

  pub body-Answers :
      {A : Type 0} (b : Option A) (k : A → Handler B idem R (Reply R))
      → declares refusals 422 ≡ true
      → ((a : A) → Answers (k a))
      → Answers (body_of ctx b >>= k)
  unfolding Answers serve body_of
  body-Answers none k h p site = h
  body-Answers (some a) k h p site = p a site

  pub must-Answers :
      {A : Type 0} (r : Result A) (k : A → Handler B idem R (Reply R))
      → Within [] r
      → ((a : A) → Answers (k a))
      → Answers (must r >>= k)
  unfolding Answers serve must
  must-Answers (err e) k h p site = h
  must-Answers (ok a) k h p site = p a site

  pub perform-Answers :
      {A : Type 0} {raised : List ℕ} (statuses : ℕ → Option ℕ) (call : Exec B A)
      (k : A → Handler B idem R (Reply R))
      → Translates raised refusals statuses
      → Throws raised call
      → ((a : A) → Answers (k a))
      → Answers (perform ctx statuses call >>= k)
  unfolding Answers serve perform
  perform-Answers {raised = raised} statuses call k h t p site =
      let within : Within raised (call site.world).0 = t.throws site.world in
      elim (Result-cases (call site.world).0) [
        | inr (e, q) ↦
            let r : Raises raised e = rw q at within in
            rw q (answer-IsDeclared R ctx success refusals raised statuses e h r)
        | inl (a, q) ↦ rw q (p a _)
      ]

module _ {B : Backend} (idem : Option IdempotencyStore) {R : Type 0} (ctx : Context) (success : ℕ)
    (refusals : List ℕ) where
  pub inquire-Answers :
      {A : Type 0} (raised : List ℕ) (statuses : ℕ → Option ℕ) (f : World B → Result A)
      (document : A → R)
      → Translates raised refusals statuses
      → ((w : World B) → Within raised (f w))
      → Answers {idem = idem} ctx success refusals
          (inquire ctx statuses f >>= λ a. pass (replied success (document a)))
  unfolding Answers serve inquire
  inquire-Answers raised statuses f document h t site =
      let within : Within raised (f site.world) = t site.world in
      elim (Result-cases (f site.world)) [
        | inr (e, q) ↦
            let r : Raises raised e = rw q at within in
            rw q (answer-IsDeclared R ctx success refusals raised statuses e h r)
        | inl (a, q) ↦ rw q refl
      ]

  pub plainly-Answers :
      {A : Type 0} {raised : List ℕ} (statuses : ℕ → Option ℕ) (call : Exec B A) (document : A → R)
      → Translates raised refusals statuses
      → Throws raised call
      → Answers {idem = idem} ctx success refusals (plainly idem ctx success statuses call document)
  unfolding Answers serve plainly
  plainly-Answers statuses call document h t =
      perform-Answers ctx success refusals statuses call _ h t (λ a site. refl)
