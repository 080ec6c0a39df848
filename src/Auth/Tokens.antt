-- ===== src/Auth/Tokens.antt =====
-- internal/platform/auth/jwtverifier/verifier.go, the parts of a token: parseJWT and its types,
-- audMatches and validateClaims.
-- Bytes are numbers. base64, JSON, SHA-256 and RSA belong to the standard library and are parameters.
use Prim.Native.Char.{Char, code}
use Prim.Native.String.{[] as ε, ◌∷◌ as ◌▹◌, ◌++◌ as ◌·◌}
use eastbay_overland_rally_p.Prelude.{
  ℕ, ℤ, pos, negsuc, ◌+◌, ◌-◌, ◌*◌, zero, suc, ◌+ℤ◌, ltb_ℤ, leb, String, Bool, true, false, not,
  List, [], ◌∷◌, Option, none, some, ◌==◌, string_eq, nat_eq, if◌then◌else◌,
}
use eastbay_overland_rally_p.Domain.{Time}
use eastbay_overland_rally_p.Auth.Config.{JwtConfig}

abbrev pub Bytes : Type 0
Bytes = List ℕ

pub record JwtHeader : Type 0 where
  pub alg : String
  pub kid : String
  pub typ : String

-- `aud` is the text of the JSON value, empty when it is left out; times are seconds since 1970
pub record JwtClaims : Type 0 where
  pub iss : String
  pub sub : String
  pub aud : Bytes
  pub exp : Option ℤ
  pub nbf : Option ℤ

-- rsa.PublicKey
pub record PublicKey : Type 0 where
  pub n : ℕ
  pub e : ℕ

-- what parseJWT returns
pub record ParsedToken : Type 0 where
  pub header : JwtHeader
  pub claims : JwtClaims
  pub signing_input : String
  pub signature : Bytes

-- base64.RawURLEncoding, json.Unmarshal into each type, and rsa.VerifyPKCS1v15 on the SHA-256 of a
-- text
pub record TokenLibrary : Type 0 where
  pub decode_string : String → Option Bytes
  pub unmarshal_header : Bytes → Option JwtHeader
  pub unmarshal_claims : Bytes → Option JwtClaims
  pub unmarshal_string : Bytes → Option String
  pub unmarshal_strings : Bytes → Option (List String)
  pub verify_pkcs1v15_sha256 : PublicKey → String → Bytes → Bool

infixl 5 ◌>>=◌ ◌>>◌
abbrev pub ◌>>=◌ : {A B : Type 0} → Option A → (A → Option B) → Option B
none >>= f = none
some a >>= f = f a

-- `if !cond { return err }`
abbrev pub check : Bool → Option {0} Unit
check true = some tt
check false = none

abbrev pub ◌>>◌ : {B : Type 0} → Option {0} Unit → Option B → Option B
m >> k = m >>= λ _. k

-- one more character in front of the first part
abbrev pub in_first : Char → String × List String → String × List String
in_first c (part, parts) = if code c == 46 then (ε, part ∷ parts) else (c ▹ part, parts)

-- strings.Split(s, "."): the first part and the others
unfoldable pub split_dots : String → String × List String
split_dots ε = (ε, [])
split_dots (c ▹ s) = in_first c (split_dots s)

-- the three parts of a token
abbrev pub three_parts : String × List String → Option (String × String × String)
three_parts (a, b ∷ c ∷ []) = some (a, b, c)
three_parts _ = none

module _ (lib : TokenLibrary) where
  unfoldable pub parse_jwt : String → Option ParsedToken
  parse_jwt token = do
    (p, q, r) ← three_parts (split_dots token)
    header_bytes ← lib.decode_string p
    claims_bytes ← lib.decode_string q
    sig ← lib.decode_string r
    h ← lib.unmarshal_header header_bytes
    c ← lib.unmarshal_claims claims_bytes
    some (record { header = h; claims = c; signing_input = p · "." · q; signature = sig })

  -- v == expected for an element
  unfoldable pub lists : List String → String → Bool
  lists [] expected = false
  lists (v ∷ vs) expected = if v == expected then true else lists vs expected

  abbrev pub lists_if_any : Option (List String) → String → Bool
  lists_if_any none expected = false
  lists_if_any (some vs) expected = lists vs expected

  -- aud can be a string or an array of strings
  abbrev pub string_or_array : Option String → Option (List String) → String → Bool
  string_or_array (some s) vs expected = s == expected
  string_or_array none vs expected = lists_if_any vs expected

  unfoldable pub aud_matches : Bytes → String → Bool
  aud_matches [] expected = false
  aud_matches (b ∷ bs) expected =
      string_or_array (lib.unmarshal_string (b ∷ bs)) (lib.unmarshal_strings (b ∷ bs)) expected

-- the nanoseconds of time.Unix(s, 0) on the scale of Time, where 1970 begins after 62167219200
-- seconds; for seconds that a time.Time can hold
unfoldable pub unix : ℤ → ℤ
unix (pos s) = pos ((62167219200 + s) * 1000000000)
unix (negsuc s) =
    if leb (suc s) 62167219200
    then pos ((62167219200 - suc s) * 1000000000)
    else negsuc ((suc s - 62167219200) * 1000000000 - 1)

abbrev pub negated : ℤ → ℤ
negated (pos zero) = pos 0
negated (pos (suc n)) = negsuc n
negated (negsuc n) = pos (suc n)

-- now.After(time.Unix(exp, 0).Add(skew))
unfoldable pub has_expired : Time → ℤ → ℤ → Bool
has_expired now exp skew = ltb_ℤ (unix exp +ℤ skew) (pos now.instant)

-- c.Nbf != nil && now.Before(time.Unix(*c.Nbf, 0).Add(-skew))
unfoldable pub is_early : Time → Option ℤ → ℤ → Bool
is_early now none skew = false
is_early now (some nbf) skew = ltb_ℤ (pos now.instant) (unix nbf +ℤ negated skew)

-- validateClaims at a reading of the clock
unfoldable pub validate_claims : TokenLibrary → JwtConfig → Time → JwtClaims → Option {0} Unit
validate_claims lib cfg now c = do
  check (c.iss == cfg.issuer)
  check (aud_matches lib c.aud cfg.audience)
  exp ← c.exp
  check (not (has_expired now exp cfg.clock_skew))
  check (not (is_early now c.nbf cfg.clock_skew))
