-- ===== src/Auth/Refreshes.antt =====
-- When the verifier asks the issuer for keys: maybeRefresh over histories of calls of Verify.
use eastbay_overland_rally_p.Prelude.{
  ℕ, ◌+◌, ◌*◌, ◌<◌, ◌≤◌, pos, String, true, false, not, ◌&&◌, List, [], ◌∷◌, length, none, some,
  ◌≡◌, refl, ◌∙◌, inl, inr, arith, All, ◌==◌, string_eq,
}
use eastbay_overland_rally_p.Prelude.Assoc.{lookup}
use eastbay_overland_rally_p.Domain.{Time}
use eastbay_overland_rally_p.Auth.Config.{JwtConfig}
use eastbay_overland_rally_p.Auth.Tokens.{ParsedToken, parse_jwt}
use eastbay_overland_rally_p.Auth.Verifier.{Issuer, Cache, should_refresh, maybe_refresh, verify}
use eastbay_overland_rally_p.Auth.Histories.{
  verify_all, ticked, published, verify-keeps, refresh-cases, maybe_refresh-cases,
}

-- Both intervals are positive, and the clock has not passed either of them since `last`.
pub record IsRecent (cfg : JwtConfig) (last now : Time) : Type 0 where
  pub interval : ℕ
  pub interval_set : cfg.jwks_refresh_interval ≡ pos interval
  pub interval_positive : 0 < interval
  pub min_interval : ℕ
  pub min_interval_set : cfg.jwks_min_refresh_interval ≡ pos min_interval
  pub min_interval_positive : 0 < min_interval
  pub before_interval : now.instant < last.instant + interval
  pub before_min_interval : now.instant < last.instant + min_interval

recent-quiet :
    (cfg : JwtConfig) (last now : Time) (kid : String) (v : Cache)
    → IsRecent cfg last now
    → v.last_refresh ≡ some last
    → should_refresh cfg now kid v ≡ false
unfolding should_refresh
recent-quiet cfg last now kid v r e =
    rw (e, r.interval_set, r.min_interval_set)
      (ground (
        arith, r.interval_positive, r.min_interval_positive, r.before_interval,
        r.before_min_interval,
      ))

module _ (cfg : JwtConfig) (iss : Issuer) where
  -- the readings of the clock from `from` on, `count` of them, are all recent
  abbrev pub StaysRecent : Time → ℕ → ℕ → Type 0
  StaysRecent last from count =
      (n : ℕ) → from ≤ n → n < from + count → IsRecent cfg last (iss.now n)

  -- the keys, the time of the last refresh and the number of requests are those of `v`, and the clock
  -- was read at most `count` times since
  abbrev SameKeys : Cache → ℕ → Cache → Type 0
  SameKeys v count u =
      (u.keys_by_kid ≡ v.keys_by_kid)
      × (u.last_refresh ≡ v.last_refresh)
      × (u.fetches ≡ v.fetches)
      × (v.readings ≤ u.readings)
      × (u.readings ≤ v.readings + count)

  verify-SameKeys :
      (token : String) (v : Cache) (last : Time)
      → v.last_refresh ≡ some last
      → IsRecent cfg last (iss.now v.readings)
      → SameKeys v 2 (verify cfg iss token v).1
  verify-SameKeys token v last e recent =
      verify-keeps cfg iss (SameKeys v 1) (SameKeys v 2)
        (λ u (k, l, f, a, b). (k, l, f, a, ground arith))
        (λ u (k, l, f, a, b). (k, l, f, ground arith, ground arith)) token v
        (λ kid. elim (maybe_refresh-cases cfg iss kid v) [
          | inl (quiet, same) ↦ rw same (refl, refl, refl, ground arith, ground arith)
          | inr (due, r) ↦
              let quiet : should_refresh cfg (iss.now v.readings) kid v ≡ false =
                recent-quiet cfg last (iss.now v.readings) kid v recent e in
              absurd cc
        ])
        (refl, refl, refl, ground arith, ground arith)

  -- Requests to the issuer are limited after a refresh. Let the last refresh be at a time since when
  -- neither the refresh interval nor the minimal one, both positive, has passed at any of the next
  -- readings of the clock, two for each token. Then any history of calls of Verify, with known and
  -- unknown key ids, makes no request to the issuer and keeps the keys.
  pub recent_cache_quiet :
      (tokens : List String) (v : Cache) (last : Time)
      → v.last_refresh ≡ some last
      → StaysRecent last v.readings (2 * length tokens)
      → ((verify_all cfg iss tokens v).fetches ≡ v.fetches)
        × ((verify_all cfg iss tokens v).keys_by_kid ≡ v.keys_by_kid)
  unfolding verify_all
  recent_cache_quiet [] v last e recent = (refl, refl)
  recent_cache_quiet (token ∷ tokens) v last e recent =
      let (k, l, f, a, b) =
        verify-SameKeys token v last e (recent v.readings (ground arith) (ground arith)) in
      let (fs, ks) =
        recent_cache_quiet tokens (verify cfg iss token v).1 last (l ∙ e)
          (λ n from before. recent n (ground arith) (ground arith)) in
      (fs ∙ f, ks ∙ k)

  -- a token of three parts that decode, which names RS256 and a key
  abbrev pub IsWellFormed : String → Type 0
  IsWellFormed token =
      (t : ParsedToken) × (parse_jwt iss.tokens token ≡ some t)
      × ((t.header.alg == "RS256" && not (t.header.kid == "")) ≡ true)

  -- no set of keys was ever stored
  abbrev IsEmpty : Cache → Type 0
  IsEmpty v = (v.keys_by_kid ≡ []) × (v.last_refresh ≡ none)

  first_refresh :
      (kid : String) (v : Cache) → IsEmpty v → should_refresh cfg (iss.now v.readings) kid v ≡ true
  unfolding should_refresh lookup
  first_refresh kid v (k, l) = rw (k, l) refl

  failed_refresh :
      (kid : String) (v : Cache)
      → published cfg iss v.fetches ≡ none
      → IsEmpty v
      → maybe_refresh cfg iss kid v
        ≡ (none, record v { readings = v.readings + 1; fetches = v.fetches + 1 })
  failed_refresh kid v failing empty = elim (maybe_refresh-cases cfg iss kid v) [
    | inl (quiet, e) ↦
        let due : should_refresh cfg (iss.now v.readings) kid v ≡ true =
          first_refresh kid v empty in
        absurd cc
    | inr (due, e) ↦ elim (refresh-cases cfg iss (ticked cfg iss v)) [
      | inl failed ↦ e ∙ failed
      | inr (keys, good, renews) ↦ let bad : none ≡ some keys = rw failing at good in absurd cc
    ]
  ]

  failing_verify :
      (token : String) (v : Cache)
      → IsWellFormed token
      → published cfg iss v.fetches ≡ none
      → IsEmpty v
      → verify cfg iss token v
        ≡ (none, record v { readings = v.readings + 1; fetches = v.fetches + 1 })
  unfolding verify
  failing_verify token v (t, p, fits) failing empty =
      rw (p, fits, failed_refresh t.header.kid v failing empty) refl

  -- While no answer of the issuer is a good set of keys and none was stored before, every token that
  -- is well-formed costs a request to the issuer, whatever the minimal refresh interval is: a refresh
  -- that fails does not count as the last refresh.
  pub failing_issuer_asked :
      (tokens : List String) (v : Cache)
      → All IsWellFormed tokens
      → ((n : ℕ) → published cfg iss n ≡ none)
      → v.keys_by_kid ≡ []
      → v.last_refresh ≡ none
      → (verify_all cfg iss tokens v).fetches ≡ v.fetches + length tokens
  unfolding verify_all
  failing_issuer_asked [] v good failing k l = omega arith
  failing_issuer_asked (token ∷ tokens) v good failing k l =
      rw (failing_verify token v good.0 (failing v.fetches) (k, l), verify_all)
        (omega (
          arith,
          failing_issuer_asked tokens
              (record v { readings = v.readings + 1; fetches = v.fetches + 1 }) good.1 failing k l,
        ))
