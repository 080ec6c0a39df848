-- ===== src/Http/Histories.antt =====
-- Histories: any sequence of requests of the API, from any clients.
use eastbay_overland_rally_p.Prelude.{List, [], ◌∷◌, ◌≡◌, refl, ◌∙◌, inl, inr, Option}
use eastbay_overland_rally_p.Domain.{SubjectId}
use eastbay_overland_rally_p.Ports.{Result-cases}
use eastbay_overland_rally_p.Ports.Laws.{TripLaws}
use eastbay_overland_rally_p.Ports.Idempotency.{IdempotencyStore}
use eastbay_overland_rally_p.Service.{Backend, World, Exec, pure, lift, reads, ◌>>=◌}
use eastbay_overland_rally_p.Members.Types.{
  Settings, CreateMyMemberInput, UpdateMyMemberProfileInput,
}
use eastbay_overland_rally_p.Members.Profile.{
  valid_name, valid_address, update_name, update_group_alias, update_vehicle,
}
use eastbay_overland_rally_p.Members.Directory.{
  ensure_email_unique, update_email, or_not_provisioned,
}
use eastbay_overland_rally_p.Members.Accounts.{
  create_my_member, update_my_member_profile, unbound, new_member, clk_now, mint_member_id,
  insert_member, store_member,
}
use eastbay_overland_rally_p.Members.History.{AccountCall, joins, edits, account_call}
use eastbay_overland_rally_p.Trips.History.{
  IsKeyed, Follows, Follows-refl, Follows-trans, call-Follows,
}
use eastbay_overland_rally_p.Http.Handler.{Context, Server, Site}
use eastbay_overland_rally_p.Http.Requests.{ApiRequest, serve_request}
use eastbay_overland_rally_p.Http.Authority.{IsAuthorized, serve_request-IsAuthorized}

module _ (B : Backend) where
  -- the trips are as before, whatever is returned
  record KeepsTrips {A : Type 0} (m : Exec B A) : Type 0 where
    keeps : (w : World B) → (m w).1.trips ≡ w.trips

  bind-KeepsTrips :
      {A C : Type 0} (m : Exec B A) (f : A → Exec B C)
      → KeepsTrips m
      → ((a : A) → KeepsTrips (f a))
      → KeepsTrips (m >>= f)
  bind-KeepsTrips m f h k = record {
    keeps = λ w. elim (Result-cases (m w).0) [
      | inr (e, p) ↦ rw p (h.keeps w)
      | inl (a, p) ↦ rw p ((k a).keeps (m w).1 ∙ h.keeps w)
    ];
  }

  leaf : {A : Type 0} {m : Exec B A} → ((w : World B) → (m w).1.trips ≡ w.trips) → KeepsTrips m
  leaf h = record { keeps = h }

  create_my_member-KeepsTrips :
      (s : Settings) (sub : SubjectId) (input : CreateMyMemberInput)
      → KeepsTrips (create_my_member B s sub input)
  unfolding create_my_member
  create_my_member-KeepsTrips s sub input =
      bind-KeepsTrips (reads (λ w. unbound (B.members.get_by_subject sub w.members))) _
        (leaf (λ u. refl))
        (λ unit.
          bind-KeepsTrips (lift (valid_name input.display_name)) _ (leaf (λ u. refl)) (λ name.
            bind-KeepsTrips (lift (valid_address s "invalid email" "email" input.email)) _
              (leaf (λ u. refl))
              (λ email.
                bind-KeepsTrips (reads (ensure_email_unique B s email "")) _ (leaf (λ u. refl))
                  (λ free. bind-KeepsTrips (clk_now B s) _ (leaf (λ u. refl)) (λ now.
                    bind-KeepsTrips (mint_member_id B s) _ (leaf (λ u. refl)) (λ id.
                      let m = new_member id sub name email input now in
                      bind-KeepsTrips (insert_member B s m) (λ stored. pure m) (leaf (λ u. refl))
                        (λ stored. leaf {m = pure m} (λ u. refl))))))))

  update_my_member_profile-KeepsTrips :
      (s : Settings) (sub : SubjectId) (input : UpdateMyMemberProfileInput)
      → KeepsTrips (update_my_member_profile B s sub input)
  unfolding update_my_member_profile
  update_my_member_profile-KeepsTrips s sub input =
      bind-KeepsTrips (reads (λ w. or_not_provisioned (B.members.get_by_subject sub w.members))) _
        (leaf (λ u. refl))
        (λ m.
          bind-KeepsTrips (lift (update_name input.display_name m)) _ (leaf (λ u. refl)) (λ named.
            bind-KeepsTrips (reads (update_email B s input.email named)) _ (leaf (λ u. refl))
              (λ mailed.
                bind-KeepsTrips (lift (update_group_alias s input.group_alias_email mailed)) _
                  (leaf (λ u. refl))
                  (λ aliased. bind-KeepsTrips (clk_now B s) _ (leaf (λ u. refl)) (λ now.
                    let m' = record (update_vehicle input.vehicle_profile aliased) {
                      updated_at = now;
                    } in
                    bind-KeepsTrips (store_member B s m') (λ stored. pure m') (leaf (λ u. refl))
                      (λ stored. leaf {m = pure m'} (λ u. refl)))))))

  account_call-trips :
      (s : Settings) (w : World B) (sub : SubjectId) (c : AccountCall)
      → (account_call B s w (sub, c)).trips ≡ w.trips
  unfolding account_call
  account_call-trips s w sub (joins input) = (create_my_member-KeepsTrips s sub input).keeps w
  account_call-trips s w sub (edits input) =
      (update_my_member_profile-KeepsTrips s sub input).keeps w

module _ {B : Backend} {idem : Option IdempotencyStore} (s : Server B idem) where
  -- the site after the requests of a list, each with its context
  unfoldable pub serve_all : List (Context × ApiRequest) → Site B idem → Site B idem
  serve_all [] site = site
  serve_all ((ctx, q) ∷ qs) site = serve_all qs (serve_request s ctx q site).1

  authorized-Follows :
      (T : TripLaws B.trips) (ctx : Context) (w w' : World B)
      → IsKeyed B w
      → IsAuthorized s ctx w w'
      → Follows B w w'
  authorized-Follows T ctx w w' k (inl same) = Follows-refl B w w' k (rw same refl)
  authorized-Follows T ctx w w' k (inr (sub, bound, inl (me, known, (c, e)))) =
      rw e (call-Follows B T w k (me.id, c))
  authorized-Follows T ctx w w' k (inr (sub, bound, inr (c, e))) =
      Follows-refl B w w' k (rw e (account_call-trips B s.members w sub c))

  -- If the repository of trips keeps its laws and every trip that is read carries the identifier it
  -- is read under, then after any history of requests of the API, by any subjects and with any
  -- results, every trip is still stored under its identifier, with the same creator and time of
  -- creation, with an organizer if it had one, and with a status that only moved from draft to
  -- published or canceled and from published to canceled.
  pub serve_all-Follows :
      (T : TripLaws B.trips) (qs : List (Context × ApiRequest)) (site : Site B idem)
      → IsKeyed B site.world
      → Follows B site.world (serve_all qs site).world
  unfolding serve_all
  serve_all-Follows T [] site k = Follows-refl B site.world site.world k refl
  serve_all-Follows T ((ctx, q) ∷ qs) site k =
      let next = (serve_request s ctx q site).1 in
      let f =
        authorized-Follows T ctx site.world next.world k
          (serve_request-IsAuthorized s ctx q site) in
      Follows-trans B site.world next.world _ f (serve_all-Follows T qs next f.keyed)
