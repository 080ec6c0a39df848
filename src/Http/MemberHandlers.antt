-- ===== src/Http/MemberHandlers.antt =====
-- internal/adapters/httpapi/server.go, the handlers of the members. A handler takes the values of its
-- request object: parameters of the path and the query, the Idempotency-Key and the body, a pointer.
use eastbay_overland_rally_p.Prelude.{String, Bool, false, List, [], ◌∷◌, Option, none, some, map}
use eastbay_overland_rally_p.Ports.Idempotency.{IdempotencyStore}
use eastbay_overland_rally_p.Service.{Backend}
use eastbay_overland_rally_p.Members.Directory
use eastbay_overland_rally_p.Members.Accounts
use eastbay_overland_rally_p.Http.Oas.{
  MemberDirectoryEntry, CreateMemberRequest, CreateMemberResponse, MemberProfile,
  UpdateMyMemberProfileRequest, UpdateMyMemberProfileResponse,
}
use eastbay_overland_rally_p.Http.Convert.{directory_entry_from_domain, member_profile_from_domain}
use eastbay_overland_rally_p.Http.Inputs.{
  create_my_member_input_from_oas, update_my_member_profile_input_from_oas,
}
use eastbay_overland_rally_p.Http.Hashes.{hash_update_my_member_profile_body}
use eastbay_overland_rally_p.Http.Handler.{
  Context, Reply, replied, Server, Handler, pass, must, authenticate, caller_of, body_of, inquire,
  one_of, ◌>>=◌,
}
use eastbay_overland_rally_p.Http.Idempotent.{once, plainly}
use eastbay_overland_rally_p.Http.Exchanges.{profile_update_exchange}

-- a parameter that is left out is false
abbrev pub flag : Option Bool → Bool
flag none = false
flag (some b) = b

module _ {B : Backend} {idem : Option IdempotencyStore} (s : Server B idem) (ctx : Context) where
  unfoldable pub list_members :
      Option Bool → Handler B idem (List MemberDirectoryEntry) (Reply (List MemberDirectoryEntry))
  list_members include_inactive = do
    sub ← authenticate ctx
    _ ← caller_of s ctx sub
    ms ← inquire ctx (one_of []) (Directory.list_all B s.members sub (flag include_inactive))
    pass (replied 200 (map directory_entry_from_domain ms))

  unfoldable pub search_members :
      String → Handler B idem (List MemberDirectoryEntry) (Reply (List MemberDirectoryEntry))
  search_members q = do
    sub ← authenticate ctx
    _ ← caller_of s ctx sub
    ms ← inquire ctx (one_of (422 ∷ [])) (Directory.search_members B s.members q)
    pass (replied 200 (map directory_entry_from_domain ms))

  unfoldable pub create_my_member :
      Option CreateMemberRequest → Handler B idem CreateMemberResponse (Reply CreateMemberResponse)
  create_my_member body = do
    sub ← authenticate ctx
    b ← body_of ctx body
    plainly idem ctx 201 (one_of (409 ∷ 422 ∷ []))
        (Accounts.create_my_member B s.members sub (create_my_member_input_from_oas b))
        (λ m. record { member = member_profile_from_domain m })

  unfoldable pub get_my_member_profile : Handler B idem MemberProfile (Reply MemberProfile)
  get_my_member_profile = do
    sub ← authenticate ctx
    m ← inquire ctx (one_of (404 ∷ [])) (Directory.get_my_member_profile B s.members sub)
    pass (replied 200 (member_profile_from_domain m))

  unfoldable pub update_my_member_profile :
      String
      → Option UpdateMyMemberProfileRequest
      → Handler B idem UpdateMyMemberProfileResponse (Reply UpdateMyMemberProfileResponse)
  update_my_member_profile key body = do
    sub ← authenticate ctx
    b ← body_of ctx body
    hash ← must (hash_update_my_member_profile_body s.codec b)
    once idem s ctx (profile_update_exchange s.codec key sub hash) (one_of (404 ∷ 409 ∷ 422 ∷ []))
        (Accounts.update_my_member_profile B s.members sub
          (update_my_member_profile_input_from_oas b))
        (λ m. record { member = member_profile_from_domain m })
