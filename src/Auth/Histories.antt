-- ===== src/Auth/Histories.antt =====
-- Any sequence of calls of Verify, and what the cache of keys holds meanwhile.
use eastbay_overland_rally_p.Prelude.{
  ℕ, ◌+◌, String, true, false, not, ◌&&◌, List, [], ◌∷◌, Option, none, some, ◌≡◌, refl, ◌⊎◌, inl,
  inr, Bool-cases, Option-cases, ◌==◌, string_eq,
}
use eastbay_overland_rally_p.Prelude.Assoc.{Assoc, lookup}
use eastbay_overland_rally_p.Auth.Config.{JwtConfig}
use eastbay_overland_rally_p.Auth.Tokens.{PublicKey, ParsedToken, parse_jwt, validate_claims}
use eastbay_overland_rally_p.Auth.Verifier.{
  Issuer, Cache, parsed_set, body_of, fetch_keys, refresh, should_refresh, maybe_refresh,
  verify_with, verify,
}

module _ (cfg : JwtConfig) (iss : Issuer) where
  -- the cache after the tokens of a list have been verified, whatever the results are
  unfoldable pub verify_all : List String → Cache → Cache
  verify_all [] v = v
  verify_all (token ∷ tokens) v = verify_all tokens (verify cfg iss token v).1

  -- one more reading of the clock
  abbrev pub ticked : Cache → Cache
  ticked v = record v { readings = v.readings + 1 }

  -- `P` holds after the refresh of a call, and `Q` after at most one more reading of the clock
  module _ (P Q : Cache → Type 0) (stays : (v : Cache) → P v → Q v)
      (ticks : (v : Cache) → P v → Q (ticked v)) where
    verify_with-keeps : (t : ParsedToken) (v : Cache) → P v → Q (verify_with cfg iss t v).1
    unfolding verify_with
    verify_with-keeps t v h = elim (Option-cases (lookup t.header.kid v.keys_by_kid)) [
      | inl unknown ↦ rw unknown (stays v h)
      | inr (key, k) ↦
          elim (Bool-cases (iss.tokens.verify_pkcs1v15_sha256 key t.signing_input t.signature)) [
            | inr forged ↦ rw (k, forged) (stays v h)
            | inl signed ↦
                elim (Option-cases (validate_claims iss.tokens cfg (iss.now v.readings) t.claims)) [
                  | inl stale ↦ rw (k, signed, stale) (ticks v h)
                  | inr (unit, good) ↦ elim (Bool-cases (t.claims.sub == "")) [
                    | inl empty ↦ rw (k, signed, good, empty) (ticks v h)
                    | inr named ↦ rw (k, signed, good, named) (ticks v h)
                  ]
                ]
          ]
    ]

    -- Verify keeps what refreshes and readings of the clock keep.
    pub verify-keeps :
        (token : String) (v : Cache)
        → ((kid : String) → P (maybe_refresh cfg iss kid v).1)
        → P v
        → Q (verify cfg iss token v).1
    unfolding verify
    verify-keeps token v refreshed h = elim (Option-cases (parse_jwt iss.tokens token)) [
      | inl broken ↦ rw broken (stays v h)
      | inr (t, p) ↦ elim (Bool-cases (t.header.alg == "RS256" && not (t.header.kid == ""))) [
        | inr other ↦ rw (p, other) (stays v h)
        | inl fits ↦ elim (Option-cases (maybe_refresh cfg iss t.header.kid v).0) [
          | inl failed ↦ rw (p, fits, failed) (stays _ (refreshed t.header.kid))
          | inr (unit, fresh) ↦ rw (p, fits, fresh) (verify_with-keeps t _ (refreshed t.header.kid))
        ]
      ]
    ]

  -- the answer of the issuer to the n-th request, where it is a good set of keys
  abbrev pub published : ℕ → Option (Assoc String PublicKey)
  published n = parsed_set iss.keys (body_of (iss.fetch n))

  -- the cache with the keys of a set that was just fetched
  abbrev pub renewed : Assoc String PublicKey → Cache → Cache
  renewed keys v = record v {
    keys_by_kid = keys;
    last_refresh = some (iss.now v.readings);
    readings = v.readings + 1;
    fetches = v.fetches + 1;
  }

  pub refresh-cases :
      (v : Cache)
      → (refresh cfg iss v ≡ (none, record v { fetches = v.fetches + 1 }))
        ⊎ ((keys : Assoc String PublicKey) × (published v.fetches ≡ some keys)
            × (refresh cfg iss v ≡ (some tt, renewed keys v)))
  unfolding refresh fetch_keys
  refresh-cases v = elim (Option-cases (published v.fetches)) [
    | inl failed ↦ inl (rw failed refl)
    | inr (keys, good) ↦ inr (keys, good, rw good refl)
  ]

  -- Without a refresh the clock was read, and nothing else happened.
  pub maybe_refresh-cases :
      (kid : String) (v : Cache)
      → ((should_refresh cfg (iss.now v.readings) kid v ≡ false)
          × (maybe_refresh cfg iss kid v ≡ (some tt, ticked v)))
        ⊎ ((should_refresh cfg (iss.now v.readings) kid v ≡ true)
            × (maybe_refresh cfg iss kid v ≡ refresh cfg iss (ticked v)))
  unfolding maybe_refresh
  maybe_refresh-cases kid v = elim (Bool-cases (should_refresh cfg (iss.now v.readings) kid v)) [
    | inr quiet ↦ inl (quiet, rw quiet refl)
    | inl due ↦ inr (due, rw due refl)
  ]
