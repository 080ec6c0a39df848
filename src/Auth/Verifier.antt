-- ===== src/Auth/Verifier.antt =====
-- internal/platform/auth/jwtverifier/verifier.go, Verifier: the cache of keys, its refreshes, and
-- Verify. Calls run one after the other: `refreshing` and `refreshDone`, by which a call waits for the
-- refresh of another one, are left out.
use eastbay_overland_rally_p.Prelude.{
  ℕ, ◌+◌, ℤ, pos, negsuc, suc, ltb_ℤ, ltb, leb, String, Bool, true, false, not, ◌&&◌, ◌||◌, [],
  Option, none, some, ◌==◌, string_eq, if◌then◌else◌,
}
use eastbay_overland_rally_p.Prelude.Assoc.{Assoc, lookup}
use eastbay_overland_rally_p.Domain.{Time}
use eastbay_overland_rally_p.Auth.Config.{JwtConfig}
use eastbay_overland_rally_p.Auth.Tokens.{
  Bytes, PublicKey, TokenLibrary, ParsedToken, parse_jwt, validate_claims, check,
}
use eastbay_overland_rally_p.Auth.Keys.{KeyLibrary, parse_jwks}

-- what an HTTP GET of the key set gives: nothing, or a status with a body that may break off
pub data Fetched : Type 0 where
  unreachable : Fetched
  response : ℕ → Option Bytes → Fetched

-- the code and the data that the verifier does not contain: `now n` is the n-th reading of the clock
-- and `fetch n` the n-th answer of the issuer
pub record Issuer : Type 0 where
  pub tokens : TokenLibrary
  pub keys : KeyLibrary
  pub now : ℕ → Time
  pub fetch : ℕ → Fetched

-- the fields of Verifier that change; `last_refresh` is none where the Go value is the zero time
pub record Cache : Type 0 where
  pub keys_by_kid : Assoc String PublicKey
  pub last_refresh : Option Time
  pub readings : ℕ
  pub fetches : ℕ

-- New
abbrev pub new_cache : Cache
new_cache = record { keys_by_kid = []; last_refresh = none; readings = 0; fetches = 0 }

-- A method: none for an error. Verify returns ErrUnauthorized for all of them.
abbrev pub Checked : Type 0 → Type 0
Checked A = Cache → Option A × Cache

module _ {A : Type 0} where
  abbrev pub yield : A → Checked A
  yield a v = (some a, v)

  abbrev pub lift : Option A → Checked A
  lift r v = (r, v)

  abbrev pub continue : {C : Type 0} → Option A → (A → Checked C) → Checked C
  continue none f v = (none, v)
  continue (some a) f v = f a v

  infixl 5 ◌>>=◌
  abbrev pub ◌>>=◌ : {C : Type 0} → Checked A → (A → Checked C) → Checked C
  ◌>>=◌ m f v = let (r, v') = m v in continue r f v'

infixl 5 ◌>>◌
abbrev pub ◌>>◌ : {C : Type 0} → Checked (Unit {0}) → Checked C → Checked C
m >> k = m >>= λ _. k

-- now.Sub(last) >= d
abbrev pub has_elapsed : Time → Time → ℤ → Bool
has_elapsed now last (pos d) = leb (last.instant + d) now.instant
has_elapsed now last (negsuc d) = leb last.instant (now.instant + suc d)

-- needsIntervalRefresh
abbrev pub needs_interval_refresh : JwtConfig → Time → Option Time → Bool
needs_interval_refresh cfg now none = false
needs_interval_refresh cfg now (some last) =
    ltb_ℤ (pos 0) cfg.jwks_refresh_interval && has_elapsed now last cfg.jwks_refresh_interval

-- allowedUnknownKidRefresh
abbrev pub allowed_unknown_kid_refresh : JwtConfig → Time → Option Time → Bool
allowed_unknown_kid_refresh cfg now none = true
allowed_unknown_kid_refresh cfg now (some last) =
    not (ltb_ℤ (pos 0) cfg.jwks_min_refresh_interval)
    || has_elapsed now last cfg.jwks_min_refresh_interval

abbrev pub is_unknown : Option PublicKey → Bool
is_unknown none = true
is_unknown (some k) = false

unfoldable pub should_refresh : JwtConfig → Time → String → Cache → Bool
should_refresh cfg now kid v =
    needs_interval_refresh cfg now v.last_refresh
    || is_unknown (lookup kid v.keys_by_kid) && allowed_unknown_kid_refresh cfg now v.last_refresh

-- the body of a response with a status of success
abbrev pub body_of : Fetched → Option Bytes
body_of unreachable = none
body_of (response status body) = if leb 200 status && ltb status 300 then body else none

abbrev pub parsed_set : KeyLibrary → Option Bytes → Option (Assoc String PublicKey)
parsed_set lib none = none
parsed_set lib (some b) = parse_jwks lib b

module _ (cfg : JwtConfig) (iss : Issuer) where
  abbrev pub clock_now : Checked Time
  clock_now v = (some (iss.now v.readings), record v { readings = v.readings + 1 })

  -- an answer of the issuer: the keys of a set that is good, else an error
  unfoldable pub fetch_keys : Checked (Assoc String PublicKey)
  fetch_keys v =
      (parsed_set iss.keys (body_of (iss.fetch v.fetches)), record v { fetches = v.fetches + 1 })

  abbrev pub store_keys : Assoc String PublicKey → Time → Checked (Unit {0})
  store_keys keys now v = (some tt, record v { keys_by_kid = keys; last_refresh = some now })

  unfoldable pub refresh : Checked (Unit {0})
  refresh = do keys ← fetch_keys; now ← clock_now; store_keys keys now

  abbrev pub refresh_if : Bool → Checked (Unit {0})
  refresh_if true = refresh
  refresh_if false = yield tt

  unfoldable pub maybe_refresh : String → Checked (Unit {0})
  maybe_refresh kid v =
      let now = iss.now v.readings in
      refresh_if (should_refresh cfg now kid v) (record v { readings = v.readings + 1 })

  abbrev pub get_key : String → Checked PublicKey
  get_key kid v = (lookup kid v.keys_by_kid, v)

  -- from the key to the subject
  unfoldable pub verify_with : ParsedToken → Checked String
  verify_with t = do
    key ← get_key t.header.kid
    lift (check (iss.tokens.verify_pkcs1v15_sha256 key t.signing_input t.signature))
    now ← clock_now
    lift (validate_claims iss.tokens cfg now t.claims)
    lift (check (not (t.claims.sub == "")))
    yield t.claims.sub

  unfoldable pub verify : String → Checked String
  verify token = do
    t ← lift (parse_jwt iss.tokens token)
    lift (check (t.header.alg == "RS256" && not (t.header.kid == "")))
    maybe_refresh t.header.kid
    verify_with t
