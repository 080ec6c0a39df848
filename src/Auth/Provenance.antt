-- ===== src/Auth/Provenance.antt =====
-- Where the keys of the cache come from.
use eastbay_overland_rally_p.Prelude.{
  ℕ, ◌<◌, String, true, List, [], ◌∷◌, Option, none, some, ◌≡◌, inl, inr, arith, string_eq,
}
use eastbay_overland_rally_p.Prelude.Assoc.{Assoc, lookup}
use eastbay_overland_rally_p.Auth.Config.{JwtConfig}
use eastbay_overland_rally_p.Auth.Tokens.{Bytes, PublicKey, ParsedToken, parse_jwt}
use eastbay_overland_rally_p.Auth.Keys.{KeyLibrary}
use eastbay_overland_rally_p.Auth.Keys.Bounds.{IsExponent, AllValid, parse_jwks-AllValid}
use eastbay_overland_rally_p.Auth.Verifier.{
  Issuer, Cache, new_cache, maybe_refresh, verify, parsed_set, body_of,
}
use eastbay_overland_rally_p.Auth.Accepts.{verify-IsTrusted}
use eastbay_overland_rally_p.Auth.Histories.{
  verify_all, ticked, published, verify-keeps, refresh-cases, maybe_refresh-cases,
}

parsed_set-AllValid :
    (lib : KeyLibrary) (b : Option Bytes) (keys : Assoc String PublicKey)
    → parsed_set lib b ≡ some keys
    → AllValid keys
parsed_set-AllValid lib none keys h = absurd cc
parsed_set-AllValid lib (some b) keys h = parse_jwks-AllValid lib b keys h

module _ (cfg : JwtConfig) (iss : Issuer) where
  -- The key is under that name in a good set that the issuer answered with before.
  abbrev pub IsPublished : ℕ → String → PublicKey → Type 0
  IsPublished fetches kid key =
      (n : ℕ) × (n < fetches)
      × ((keys : Assoc String PublicKey) × (published cfg iss n ≡ some keys)
          × (lookup kid keys ≡ some key))

  HasProvenance : Cache → Type 0
  HasProvenance v =
      (kid : String) (key : PublicKey)
      → lookup kid v.keys_by_kid ≡ some key
      → IsPublished v.fetches kid key

  maybe_refresh-HasProvenance :
      (kid : String) (v : Cache) → HasProvenance v → HasProvenance (maybe_refresh cfg iss kid v).1
  unfolding HasProvenance
  maybe_refresh-HasProvenance kid v h = elim (maybe_refresh-cases cfg iss kid v) [
    | inl (quiet, e) ↦ rw e h
    | inr (due, e) ↦ elim (refresh-cases cfg iss (ticked cfg iss v)) [
      | inl failed ↦
          rw (e, failed)
            λ id key found. let (n, before, kept) = h id key found in (n, ground arith, kept)
      | inr (keys, good, renews) ↦
          rw (e, renews) λ id key found. (v.fetches, ground arith, (keys, good, found))
    ]
  ]

  verify_one :
      (token : String) (v : Cache) → HasProvenance v → HasProvenance (verify cfg iss token v).1
  unfolding HasProvenance
  verify_one token v h =
      verify-keeps cfg iss HasProvenance HasProvenance (λ u g. g) (λ u g. g) token v
        (λ kid. maybe_refresh-HasProvenance kid v h) h

  verify_all-HasProvenance :
      (tokens : List String) (v : Cache)
      → HasProvenance v
      → HasProvenance (verify_all cfg iss tokens v)
  unfolding verify_all
  verify_all-HasProvenance [] v h = h
  verify_all-HasProvenance (token ∷ tokens) v h =
      verify_all-HasProvenance tokens (verify cfg iss token v).1 (verify_one token v h)

  -- When a token is accepted after any history of calls of Verify on a new verifier, its signature is
  -- verified by a key that a good answer of the issuer holds, to the last refresh or before, under
  -- the key id of the token's header, and that has an exponent between 1 and 2^63 - 1.
  pub accepted_key-IsPublished :
      (tokens : List String) (token sub : String)
      → (verify cfg iss token (verify_all cfg iss tokens new_cache)).0 ≡ some sub
      → (t : ParsedToken) × (parse_jwt iss.tokens token ≡ some t)
        × ((key : PublicKey) × (iss.tokens.verify_pkcs1v15_sha256 key t.signing_input t.signature
              ≡ true)
            × IsPublished
                (verify cfg iss token (verify_all cfg iss tokens new_cache)).1.fetches
                t.header.kid
                key
            × IsExponent key.e)
  unfolding HasProvenance lookup
  accepted_key-IsPublished tokens token sub h =
      let v = verify_all cfg iss tokens new_cache in
      let r = verify-IsTrusted cfg iss token sub v h in
      let kept =
        verify_one token v
          (verify_all-HasProvenance tokens new_cache (λ kid key found. absurd cc)) in
      let (n, before, (keys, good, found)) = kept r.parsed.header.kid r.key r.known in
      (
        r.parsed,
        r.parses,
        (
          r.key,
          r.signed,
          (n, before, (keys, good, found)),
          parsed_set-AllValid iss.keys (body_of (iss.fetch n)) keys good r.parsed.header.kid r.key
              found,
        ),
      )
