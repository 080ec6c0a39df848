-- ===== src/Auth/Examples.antt =====
-- A small issuer with one key, and a verifier for it.
use eastbay_overland_rally_p.Prelude.{
  pos, String, true, [], ◌∷◌, none, some, ◌≡◌, ◌≢◌, refl, arith, string_eq, ◌+ℤ◌,
}
use eastbay_overland_rally_p.Prelude.Assoc.{lookup, insert}
use eastbay_overland_rally_p.Text.{has_prefix, trim_space}
use eastbay_overland_rally_p.Demo.{at}
use eastbay_overland_rally_p.Http.Handler.{Context, subject_from_context}
use eastbay_overland_rally_p.Auth.Config.{JwtConfig}
use eastbay_overland_rally_p.Auth.Tokens.{
  PublicKey, TokenLibrary, ParsedToken, parse_jwt, split_dots, lists, aud_matches, unix,
  has_expired, is_early, validate_claims,
}
use eastbay_overland_rally_p.Auth.Keys.{
  KeyLibrary, set_bytes, low_bits, is_exponent, public_key, add_keys, parse_jwks,
}
use eastbay_overland_rally_p.Auth.Keys.Bounds.{IsExponent}
use eastbay_overland_rally_p.Auth.Verifier.{
  Issuer, Cache, unreachable, response, new_cache, fetch_keys, refresh, should_refresh,
  maybe_refresh, verify_with, verify,
}
use eastbay_overland_rally_p.Auth.Accepts.{IsTrusted}
use eastbay_overland_rally_p.Auth.Histories.{verify_all}
use eastbay_overland_rally_p.Auth.Provenance.{IsPublished, accepted_key-IsPublished}
use eastbay_overland_rally_p.Auth.Refreshes.{
  StaysRecent, IsWellFormed, recent_cache_quiet, failing_issuer_asked,
}
use eastbay_overland_rally_p.Auth.Middleware.{
  HttpRequest, handed_on, with_subject, new_auth_middleware, without_prefix, bearer,
  forwarded-IsTrusted,
}

abbrev settings : JwtConfig
settings = record {
  issuer = "https://issuer";
  audience = "planner";
  jwks_url = "https://issuer/keys";
  clock_skew = pos 0;
  jwks_refresh_interval = pos 300;
  jwks_min_refresh_interval = pos 10;
  http_timeout = pos 5;
}

-- every token is one of Ann's, signed by the key `k1`
abbrev small_tokens : TokenLibrary
small_tokens = record {
  decode_string = λ s. some (1 ∷ []);
  unmarshal_header = λ b. some (record { alg = "RS256"; kid = "k1"; typ = "JWT" });
  unmarshal_claims = λ b. some (record {
    iss = "https://issuer";
    sub = "ann";
    aud = 1 ∷ [];
    exp = some (pos 100);
    nbf = none;
  });
  unmarshal_string = λ b. some "planner";
  unmarshal_strings = λ b. none;
  verify_pkcs1v15_sha256 = λ key text sig. true;
}

abbrev small_keys : KeyLibrary
small_keys = record {
  decode_string = λ s. some (1 ∷ []);
  unmarshal_jwks = λ b.
      some (record { kty = "RSA"; kid = "k1"; alg = ""; use_of = ""; n = "AQ"; e = "AQ" } ∷ []);
}

abbrev issuer : Issuer
issuer = record {
  tokens = small_tokens;
  keys = small_keys;
  now = λ n. at 5;
  fetch = λ n. response 200 (some []);
}

abbrev silent : Issuer
silent = record {
  tokens = small_tokens;
  keys = small_keys;
  now = λ n. at 5;
  fetch = λ n. unreachable;
}

ann_accepted :
    (verify settings issuer "h.c.s" (verify_all settings issuer [] new_cache)).0 ≡ some "ann"
unfolding verify verify_all parse_jwt split_dots maybe_refresh should_refresh refresh fetch_keys
    parse_jwks add_keys public_key set_bytes low_bits is_exponent verify_with validate_claims
    aud_matches lists has_expired is_early unix lookup insert ◌+ℤ◌
ann_accepted = refl

accepted_key-IsPublished_example :
    (t : ParsedToken) × (parse_jwt small_tokens "h.c.s" ≡ some t)
    × ((key : PublicKey) × (true ≡ true)
        × IsPublished settings issuer
            (verify settings issuer "h.c.s" (verify_all settings issuer [] new_cache)).1.fetches
            t.header.kid
            key
        × IsExponent key.e)
accepted_key-IsPublished_example =
    accepted_key-IsPublished settings issuer [] "h.c.s" "ann" ann_accepted

abbrev bearer_of_ann : HttpRequest
bearer_of_ann = record { path = "/trips"; header = λ name. "Bearer h.c.s" }

abbrev bare : Context
bare = record { subject = none; request_id = "" }

trips_is_not_health : ◌≢◌ {A = String} "/trips" "/healthz"
trips_is_not_health h = absurd cc

ann_forwarded :
    (new_auth_middleware settings issuer bearer_of_ann bare new_cache).0
    ≡ handed_on (with_subject bare "ann")
unfolding new_auth_middleware has_prefix without_prefix trim_space verify parse_jwt split_dots
    maybe_refresh should_refresh refresh fetch_keys parse_jwks add_keys public_key set_bytes
    low_bits is_exponent verify_with validate_claims aud_matches lists has_expired is_early unix
    lookup insert ◌+ℤ◌
ann_forwarded = refl

forwarded-IsTrusted_example :
    (has_prefix "Bearer h.c.s" "Bearer " ≡ true)
    × ((sub : String) × (subject_from_context (with_subject bare "ann") ≡ some sub)
        × IsTrusted settings issuer
            (bearer "Bearer h.c.s")
            sub
            (new_auth_middleware settings issuer bearer_of_ann bare new_cache).1)
forwarded-IsTrusted_example =
    forwarded-IsTrusted settings issuer bearer_of_ann bare (with_subject bare "ann") new_cache
      trips_is_not_health ann_forwarded

abbrev fresh_cache : Cache
fresh_cache = record new_cache { last_refresh = some (at 5) }

stays_recent : StaysRecent settings issuer (at 5) 0 2
stays_recent n from before = record {
  interval = 300;
  interval_set = refl;
  interval_positive = omega arith;
  min_interval = 10;
  min_interval_set = refl;
  min_interval_positive = omega arith;
  before_interval = omega arith;
  before_min_interval = omega arith;
}

recent_cache_quiet_example :
    ((verify_all settings issuer ("h.c.s" ∷ []) fresh_cache).fetches ≡ 0)
    × ((verify_all settings issuer ("h.c.s" ∷ []) fresh_cache).keys_by_kid ≡ [])
recent_cache_quiet_example =
    recent_cache_quiet settings issuer ("h.c.s" ∷ []) fresh_cache (at 5) refl stays_recent

ann-IsWellFormed : IsWellFormed settings silent "h.c.s"
unfolding parse_jwt split_dots
ann-IsWellFormed = (_, refl, refl)

failing_issuer_asked_example :
    (verify_all settings silent ("h.c.s" ∷ "h.c.s" ∷ []) new_cache).fetches ≡ 2
failing_issuer_asked_example =
    failing_issuer_asked settings silent ("h.c.s" ∷ "h.c.s" ∷ []) new_cache
      (ann-IsWellFormed, (ann-IsWellFormed, tt)) (λ n. refl) refl refl
