-- ===== src/Http/Retries.antt =====
-- The eight operations of server.go with an Idempotency-Key, sent again as a client does whose reply
-- was lost, or with the key of another request.
use eastbay_overland_rally_p.Prelude.{
  ℕ, String, Option, none, some, ◌≡◌, ◌≢◌, refl, inl, inr, Bool-cases, ◌==◌, string_eq, eq_iff,
}
use eastbay_overland_rally_p.Domain.{SubjectId}
use eastbay_overland_rally_p.Ports.{ok, Result-cases}
use eastbay_overland_rally_p.Ports.Idempotency.{IdempotencyStore, IdempotencyLaws}
use eastbay_overland_rally_p.Service.{Backend, Exec}
use eastbay_overland_rally_p.Http.Codec.{Codec, CodecLaws, Document, Format, IsFaithful}
use eastbay_overland_rally_p.Http.Handler.{
  Context, Server, Site, replied, key_reuse, serve, must, ◌>>=◌,
}
use eastbay_overland_rally_p.Http.Hashes.{digest_of}
use eastbay_overland_rally_p.Http.Idempotent.{Exchange, once}
use eastbay_overland_rally_p.Http.Exchanges.{exchange}
use eastbay_overland_rally_p.Http.Replay.{IsExchange}
use eastbay_overland_rally_p.Http.Repeats.{
  IsProvisioned, Relates, Repeats, Rejects, member-Relates, subject-Relates, body-Relates,
  must-Relates, once-Repeats, once-Rejects,
}
use eastbay_overland_rally_p.Http.Operations.{
  Operation, updates_profile, creates_draft, updates_trip, sets_visibility, cancels, adds_organizer,
  removes_organizer, sets_rsvp, Request, Response, format_of, hash_or_none, hash_of, handle,
}
use eastbay_overland_rally_p.Http.MemberHandlers
use eastbay_overland_rally_p.Http.PlanningHandlers

digest_of-nonempty :
    (c : Codec) → CodecLaws c → (d : Document) (hash : String) → digest_of c d ≡ ok hash → hash ≢ ""
unfolding digest_of
digest_of-nonempty c C d hash = elim (Result-cases (c.document d)) [
  | inr (e, p) ↦ rw p (λ h empty. absurd cc)
  | inl (raw, p) ↦ rw p (λ h empty. C.digest-nonempty raw cc)
]

digest_of-hash :
    (c : Codec) (d : Document) (hash : String)
    → hash_or_none c (some d) ≡ some hash
    → digest_of c d ≡ ok hash
digest_of-hash c d hash = elim (Result-cases (digest_of c d)) [
  | inr (e, p) ↦ rw p (λ h. absurd cc)
  | inl (found, p) ↦ rw p (λ h. cc)
]

module _ {B : Backend} {i : IdempotencyStore} (L : IdempotencyLaws i) (s : Server B (some i))
    (C : CodecLaws s.codec) (ctx : Context) where
  module _ {R A A' : Type 0} (f : Format R) (F : IsFaithful f) (method route key : String)
      (success : ℕ) (sub : SubjectId) (statuses : ℕ → Option ℕ) (call : Exec B A)
      (call' : Exec B A') (document : A → R) (document' : A' → R) where
    abbrev x : String → Exchange R
    x = exchange method route success f key sub

    x-IsExchange :
        (d : Document) (hash : String) → digest_of s.codec d ≡ ok hash → IsExchange (x hash)
    x-IsExchange d hash h = record {
      blank = refl;
      hashed = digest_of-nonempty s.codec C d hash h;
      faithful = F;
    }

    hashed-Repeats :
        (d : Document)
        → Repeats s ctx f
            (must (digest_of s.codec d) >>= λ hash.
              once (some i) s ctx (x hash) statuses call document)
            (must (digest_of s.codec d) >>= λ hash.
              once (some i) s ctx (x hash) statuses call' document')
    hashed-Repeats d = must-Relates s ctx f _ _ _ _ _ λ hash h. (
      hash,
      h,
      once-Repeats s ctx L (x hash) (x-IsExchange d hash h) statuses statuses call call' document
          document',
    )

    hashed-Rejects :
        (d d' : Document) (hash' : String)
        → hash_or_none s.codec (some d') ≡ some hash'
        → hash_or_none s.codec (some d) ≢ some hash'
        → Rejects s ctx f
            (must (digest_of s.codec d) >>= λ hash.
              once (some i) s ctx (x hash) statuses call document)
            (must (digest_of s.codec d') >>= λ hash.
              once (some i) s ctx (x hash) statuses call' document')
    hashed-Rejects d d' hash' h' differs = must-Relates s ctx f _ _ _ _ _ λ hash h. (
      hash',
      digest_of-hash s.codec d' hash' h',
      once-Rejects s ctx L (x hash) (x-IsExchange d hash h) statuses statuses call call' document
          document' (x hash') refl (λ same. differs (rw (h, same) refl)),
    )

  module _ (key : String) (named : key ≢ "") where
    handle-Repeats :
        (o : Operation) (q : Request o)
        → Repeats s ctx (format_of s.codec o) (handle s ctx key o q) (handle s ctx key o q)
    unfolding handle MemberHandlers.update_my_member_profile PlanningHandlers.create_trip_draft
        PlanningHandlers.update_trip PlanningHandlers.set_trip_draft_visibility
        PlanningHandlers.cancel_trip PlanningHandlers.cancel_with_key
        PlanningHandlers.add_trip_organizer PlanningHandlers.remove_trip_organizer
        PlanningHandlers.set_my_rsvp
    handle-Repeats updates_profile body = subject-Relates s ctx _ _ _ _ λ sub.
        body-Relates s ctx _ _ _ _ _ _
          λ b given. (b, given, hashed-Repeats _ C.profile _ _ _ _ sub _ _ _ _ _ _)
    handle-Repeats creates_draft body = member-Relates s ctx _ _ _ _ λ sub me me'.
        body-Relates s ctx _ _ _ _ _ _
          λ b given. (b, given, hashed-Repeats _ C.created _ _ _ _ sub _ _ _ _ _ _)
    handle-Repeats updates_trip (trip, body) = member-Relates s ctx _ _ _ _ λ sub me me'.
        body-Relates s ctx _ _ _ _ _ _
          λ b given. (b, given, hashed-Repeats _ C.trip _ _ _ _ sub _ _ _ _ _ _)
    handle-Repeats sets_visibility (trip, body) = member-Relates s ctx _ _ _ _ λ sub me me'.
        body-Relates s ctx _ _ _ _ _ _
          λ b given. (b, given, hashed-Repeats _ C.trip _ _ _ _ sub _ _ _ _ _ _)
    handle-Repeats cancels trip = member-Relates s ctx _ _ _ _ λ sub me me'.
        elim (Bool-cases (key == "")) [
          | inl empty ↦ absurd (named ((eq_iff key "").0 empty))
          | inr keyed ↦ rw keyed (hashed-Repeats _ C.trip _ _ _ _ sub _ _ _ _ _ _)
        ]
    handle-Repeats adds_organizer (trip, body) = member-Relates s ctx _ _ _ _ λ sub me me'.
        body-Relates s ctx _ _ _ _ _ _
          λ b given. (b, given, hashed-Repeats _ C.trip _ _ _ _ sub _ _ _ _ _ _)
    handle-Repeats removes_organizer (trip, member) =
        member-Relates s ctx _ _ _ _ λ sub me me'. hashed-Repeats _ C.trip _ _ _ _ sub _ _ _ _ _ _
    handle-Repeats sets_rsvp (trip, body) = member-Relates s ctx _ _ _ _ λ sub me me'.
        body-Relates s ctx _ _ _ _ _ _
          λ b given. (b, given, hashed-Repeats _ C.rsvp _ _ _ _ sub _ _ _ _ _ _)

    handle-Rejects :
        (o : Operation) (q q' : Request o) (hash' : String)
        → hash_of s.codec o q' ≡ some hash'
        → hash_of s.codec o q ≢ some hash'
        → Rejects s ctx (format_of s.codec o) (handle s ctx key o q) (handle s ctx key o q')
    unfolding handle MemberHandlers.update_my_member_profile PlanningHandlers.create_trip_draft
        PlanningHandlers.update_trip PlanningHandlers.set_trip_draft_visibility
        PlanningHandlers.cancel_trip PlanningHandlers.cancel_with_key
        PlanningHandlers.add_trip_organizer PlanningHandlers.remove_trip_organizer
        PlanningHandlers.set_my_rsvp
    handle-Rejects updates_profile body none hash' h' differs = absurd cc
    handle-Rejects updates_profile body (some b') hash' h' differs =
        subject-Relates s ctx _ _ _ _ λ sub. body-Relates s ctx _ _ body _ _ _ λ b given. (
          b',
          refl,
          hashed-Rejects _ C.profile _ _ _ _ sub _ _ _ _ _ _ _ hash' h' (rw given at differs),
        )
    handle-Rejects creates_draft body none hash' h' differs = absurd cc
    handle-Rejects creates_draft body (some b') hash' h' differs =
        member-Relates s ctx _ _ _ _ λ sub me me'. body-Relates s ctx _ _ body _ _ _ λ b given. (
          b',
          refl,
          hashed-Rejects _ C.created _ _ _ _ sub _ _ _ _ _ _ _ hash' h' (rw given at differs),
        )
    handle-Rejects updates_trip (trip, body) (trip', none) hash' h' differs = absurd cc
    handle-Rejects updates_trip (trip, body) (trip', some b') hash' h' differs =
        member-Relates s ctx _ _ _ _ λ sub me me'. body-Relates s ctx _ _ body _ _ _ λ b given. (
          b',
          refl,
          hashed-Rejects _ C.trip _ _ _ _ sub _ _ _ _ _ _ _ hash' h' (rw given at differs),
        )
    handle-Rejects sets_visibility (trip, body) (trip', none) hash' h' differs = absurd cc
    handle-Rejects sets_visibility (trip, body) (trip', some b') hash' h' differs =
        member-Relates s ctx _ _ _ _ λ sub me me'. body-Relates s ctx _ _ body _ _ _ λ b given. (
          b',
          refl,
          hashed-Rejects _ C.trip _ _ _ _ sub _ _ _ _ _ _ _ hash' h' (rw given at differs),
        )
    handle-Rejects adds_organizer (trip, body) (trip', none) hash' h' differs = absurd cc
    handle-Rejects adds_organizer (trip, body) (trip', some b') hash' h' differs =
        member-Relates s ctx _ _ _ _ λ sub me me'. body-Relates s ctx _ _ body _ _ _ λ b given. (
          b',
          refl,
          hashed-Rejects _ C.trip _ _ _ _ sub _ _ _ _ _ _ _ hash' h' (rw given at differs),
        )
    handle-Rejects sets_rsvp (trip, body) (trip', none) hash' h' differs = absurd cc
    handle-Rejects sets_rsvp (trip, body) (trip', some b') hash' h' differs =
        member-Relates s ctx _ _ _ _ λ sub me me'. body-Relates s ctx _ _ body _ _ _ λ b given. (
          b',
          refl,
          hashed-Rejects _ C.rsvp _ _ _ _ sub _ _ _ _ _ _ _ hash' h' (rw given at differs),
        )
    handle-Rejects removes_organizer (trip, member) (trip', member') hash' h' differs =
        member-Relates s ctx _ _ _ _
          λ sub me me'. hashed-Rejects _ C.trip _ _ _ _ sub _ _ _ _ _ _ _ hash' h' differs
    handle-Rejects cancels trip trip' hash' h' differs = member-Relates s ctx _ _ _ _ λ sub me me'.
        elim (Bool-cases (key == "")) [
          | inl empty ↦ absurd (named ((eq_iff key "").0 empty))
          | inr keyed ↦
              rw keyed (hashed-Rejects _ C.trip _ _ _ _ sub _ _ _ _ _ _ _ hash' h' differs)
        ]

module _ {B : Backend} {i : IdempotencyStore} (L : IdempotencyLaws i) (s : Server B (some i))
    (C : CodecLaws s.codec) (ctx : Context) (key : String) (o : Operation) (q : Request o) where
  -- A retry is safe. Let an operation with an idempotency key that is not empty have succeeded with a
  -- reply that can be written as JSON, over a store of replies that finds what was put into it, with
  -- JSON that can be read again and hashes that are not empty. Then the same request, on any later
  -- site that keeps the replies of then and where the subject is still bound to a member, is answered
  -- with the same status and the same JSON text, and it changes neither the world nor the replies.
  pub retry_replays :
      (site later : Site B (some i)) (status : ℕ) (r : Response o) (text : String)
      → key ≢ ""
      → (serve (handle s ctx key o q) site).0 ≡ ok (replied status r)
      → (format_of s.codec o).marshal r ≡ ok text
      → later.kept ≡ (serve (handle s ctx key o q) site).1.kept
      → IsProvisioned s ctx later.world
      → (r' : Response o) × (serve (handle s ctx key o q) later ≡ (ok (replied status r'), later))
        × ((format_of s.codec o).marshal r' ≡ ok text)
  unfolding Relates
  retry_replays site later status r text named =
      handle-Repeats L s C ctx key named o q site later status r text

  -- A key belongs to one request. Let an operation with an idempotency key that is not empty have
  -- succeeded with a reply that can be written as JSON, over a store of replies that finds what was
  -- put into it, with JSON that can be read again and hashes that are not empty. Then the same
  -- operation with the same key and a request that has a hash, another one than that of the first
  -- request, is refused with 409 IDEMPOTENCY_KEY_REUSE and changes nothing, on any later site that
  -- keeps the replies of then and where the subject is still bound to a member.
  pub reused_key_refused :
      (q' : Request o) (hash' : String) (site later : Site B (some i)) (status : ℕ) (r : Response o)
      (text : String)
      → key ≢ ""
      → hash_of s.codec o q' ≡ some hash'
      → hash_of s.codec o q ≢ some hash'
      → (serve (handle s ctx key o q) site).0 ≡ ok (replied status r)
      → (format_of s.codec o).marshal r ≡ ok text
      → later.kept ≡ (serve (handle s ctx key o q) site).1.kept
      → IsProvisioned s ctx later.world
      → serve (handle s ctx key o q') later ≡ (ok (key_reuse ctx), later)
  unfolding Relates
  reused_key_refused q' hash' site later status r text named h' differs =
      handle-Rejects L s C ctx key named o q q' hash' h' differs site later status r text
