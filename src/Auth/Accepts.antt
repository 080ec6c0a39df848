-- ===== src/Auth/Accepts.antt =====
-- What it takes for Verify to accept a token.
use eastbay_overland_rally_p.Prelude.{
  ℕ, ◌+◌, String, Bool, true, false, not, ◌&&◌, none, some, ◌≡◌, ◌≢◌, refl, inl, inr, Bool-cases,
  Option-cases, ◌==◌, string_eq, eq_iff,
}
use eastbay_overland_rally_p.Prelude.Assoc.{lookup}
use eastbay_overland_rally_p.Domain.{Time}
use eastbay_overland_rally_p.Prelude.{ℤ}
use eastbay_overland_rally_p.Auth.Config.{JwtConfig}
use eastbay_overland_rally_p.Auth.Tokens.{
  PublicKey, ParsedToken, JwtClaims, parse_jwt, aud_matches, has_expired, is_early, validate_claims,
  check,
}
use eastbay_overland_rally_p.Auth.Verifier.{Issuer, Cache, maybe_refresh, verify_with, verify}

module _ (cfg : JwtConfig) (iss : Issuer) where
  -- the claims are those of a token of the issuer for this audience that is valid at that time
  pub record IsCurrent (now : Time) (c : JwtClaims) : Type 0 where
    pub issuer : c.iss ≡ cfg.issuer
    pub audience : aud_matches iss.tokens c.aud cfg.audience ≡ true
    pub exp : ℤ
    pub expires : c.exp ≡ some exp
    pub not_expired : has_expired now exp cfg.clock_skew ≡ false
    pub not_early : is_early now c.nbf cfg.clock_skew ≡ false

  -- The cache `v` holds the key that signed the token, and the clock was read last at `now`.
  pub record IsTrusted (token sub : String) (v : Cache) : Type 0 where
    pub parsed : ParsedToken
    pub parses : parse_jwt iss.tokens token ≡ some parsed
    pub rs256 : parsed.header.alg ≡ "RS256"
    pub named : parsed.header.kid ≢ ""
    pub key : PublicKey
    pub known : lookup parsed.header.kid v.keys_by_kid ≡ some key
    pub signed : iss.tokens.verify_pkcs1v15_sha256 key parsed.signing_input parsed.signature ≡ true
    pub now : ℕ
    pub read_last : v.readings ≡ now + 1
    pub current : IsCurrent (iss.now now) parsed.claims
    pub subject : sub ≡ parsed.claims.sub
    pub nonempty : sub ≢ ""

check_inv : (b : Bool) → check b ≡ some tt → b ≡ true
check_inv true h = refl
check_inv false h = absurd cc

same_value : {a b : String} → some a ≡ some b → b ≡ a
same_value h = cc

differs : (a b : String) → (a == b) ≡ false → (c : String) → c ≡ a → c ≢ b
differs a b h c same e = let equal : (a == b) ≡ true = (eq_iff a b).1 cc in absurd cc

not_inv : (b : Bool) → not b ≡ true → b ≡ false
not_inv false h = refl
not_inv true h = absurd cc

and_inv : (a b : Bool) → (a && b) ≡ true → (a ≡ true) × (b ≡ true)
and_inv true true h = (refl, refl)
and_inv true false h = absurd cc
and_inv false b h = absurd cc

module _ (cfg : JwtConfig) (iss : Issuer) where
  validate_claims-IsCurrent :
      (now : Time) (c : JwtClaims)
      → validate_claims iss.tokens cfg now c ≡ some tt
      → IsCurrent cfg iss now c
  unfolding validate_claims
  validate_claims-IsCurrent now c h = elim (Bool-cases (c.iss == cfg.issuer)) [
    | inr other ↦ let bad : none ≡ some tt = rw other at h in absurd cc
    | inl same ↦ elim (Bool-cases (aud_matches iss.tokens c.aud cfg.audience)) [
      | inr missing ↦ let bad : none ≡ some tt = rw (same, missing) at h in absurd cc
      | inl listed ↦ elim (Option-cases c.exp) [
        | inl without ↦ let bad : none ≡ some tt = rw (same, listed, without) at h in absurd cc
        | inr (exp, e) ↦ elim (Bool-cases (has_expired now exp cfg.clock_skew)) [
          | inl late ↦ let bad : none ≡ some tt = rw (same, listed, e, late) at h in absurd cc
          | inr fresh ↦
              let last : check (not (is_early now c.nbf cfg.clock_skew)) ≡ some tt =
                rw (same, listed, e, fresh) at h in
              record {
                issuer = (eq_iff c.iss cfg.issuer).0 same;
                audience = listed;
                exp = exp;
                expires = e;
                not_expired = fresh;
                not_early = not_inv _ (check_inv _ last);
              }
        ]
      ]
    ]
  ]

  -- from the key to the subject
  verify_with-Trusted :
      (t : ParsedToken) (v : Cache) (sub : String)
      → (verify_with cfg iss t v).0 ≡ some sub
      → (key : PublicKey) × (lookup t.header.kid v.keys_by_kid ≡ some key)
        × (iss.tokens.verify_pkcs1v15_sha256 key t.signing_input t.signature ≡ true)
        × IsCurrent cfg iss (iss.now v.readings) t.claims
        × (sub ≡ t.claims.sub)
        × (sub ≢ "")
        × ((verify_with cfg iss t v).1 ≡ record v { readings = v.readings + 1 })
  unfolding verify_with
  verify_with-Trusted t v sub h = elim (Option-cases (lookup t.header.kid v.keys_by_kid)) [
    | inl unknown ↦ let bad : none ≡ some sub = rw unknown at h in absurd cc
    | inr (key, k) ↦
        elim (Bool-cases (iss.tokens.verify_pkcs1v15_sha256 key t.signing_input t.signature)) [
          | inr forged ↦ let bad : none ≡ some sub = rw (k, forged) at h in absurd cc
          | inl signed ↦
              elim (Option-cases (validate_claims iss.tokens cfg (iss.now v.readings) t.claims)) [
                | inl stale ↦ let bad : none ≡ some sub = rw (k, signed, stale) at h in absurd cc
                | inr (unit, good) ↦ elim (Bool-cases (t.claims.sub == "")) [
                  | inl empty ↦
                      let bad : none ≡ some sub = rw (k, signed, good, empty) at h in absurd cc
                  | inr named ↦
                      let found : some t.claims.sub ≡ some sub = rw (k, signed, good, named) at h in
                      (
                        key,
                        k,
                        signed,
                        validate_claims-IsCurrent (iss.now v.readings) t.claims good,
                        cc,
                        differs t.claims.sub "" named sub (same_value found),
                        rw (k, signed, good, named) refl,
                      )
                ]
              ]
        ]
  ]

  -- When Verify accepts a token, the token has three parts that decode, its header names RS256 and a
  -- key, the cache then holds that key and it verifies the signature, the claims name the configured
  -- issuer and audience, expire, have not expired and are not early but for the clock skew at a
  -- reading of the clock during the call, and the returned subject is that of the claims, not empty.
  pub verify-IsTrusted :
      (token sub : String) (v : Cache)
      → (verify cfg iss token v).0 ≡ some sub
      → IsTrusted cfg iss token sub (verify cfg iss token v).1
  unfolding verify
  verify-IsTrusted token sub v h = elim (Option-cases (parse_jwt iss.tokens token)) [
    | inl broken ↦ let bad : none ≡ some sub = rw broken at h in absurd cc
    | inr (t, p) ↦ elim (Bool-cases (t.header.alg == "RS256" && not (t.header.kid == ""))) [
      | inr other ↦ let bad : none ≡ some sub = rw (p, other) at h in absurd cc
      | inl fits ↦ elim (Option-cases (maybe_refresh cfg iss t.header.kid v).0) [
        | inl failed ↦ let bad : none ≡ some sub = rw (p, fits, failed) at h in absurd cc
        | inr (unit, fresh) ↦
            let v' = (maybe_refresh cfg iss t.header.kid v).1 in
            let accepted : (verify_with cfg iss t v').0 ≡ some sub = rw (p, fits, fresh) at h in
            let (key, known, signed, current, subject, nonempty, last) =
              verify_with-Trusted t v' sub accepted in
            let (alg, kid) = and_inv _ _ fits in
            rw (p, fits, fresh, last)
              (record {
                parsed = t;
                parses = p;
                rs256 = (eq_iff t.header.alg "RS256").0 alg;
                named = differs t.header.kid "" (not_inv _ kid) t.header.kid refl;
                key = key;
                known = known;
                signed = signed;
                now = v'.readings;
                read_last = refl;
                current = current;
                subject = subject;
                nonempty = nonempty;
              })
      ]
    ]
  ]
