-- ===== src/Auth/Keys.antt =====
-- internal/platform/auth/jwtverifier/verifier.go, the key sets of the issuer: jwks, jwk and parseJWKS.
pub mod Bounds
use eastbay_overland_rally_p.Prelude.{
  ℕ, ◌+◌, ◌*◌, ◌%◌, ltb, String, Bool, true, false, not, ◌&&◌, ◌||◌, List, [], ◌∷◌, Option, none,
  some, ◌==◌, string_eq, nat_eq, if◌then◌else◌,
}
use eastbay_overland_rally_p.Prelude.Assoc.{Assoc, insert}
use eastbay_overland_rally_p.Auth.Tokens.{Bytes, PublicKey, ◌>>=◌, ◌>>◌, check}

pub record Jwk : Type 0 where
  pub kty : String
  pub kid : String
  pub alg : String
  pub use_of : String
  pub n : String
  pub e : String

-- base64.RawURLEncoding, and json.Unmarshal into the keys of a set
pub record KeyLibrary : Type 0 where
  pub decode_string : String → Option Bytes
  pub unmarshal_jwks : Bytes → Option (List Jwk)

-- big.Int.SetBytes: big-endian
unfoldable pub set_bytes : ℕ → Bytes → ℕ
set_bytes n [] = n
set_bytes n (b ∷ bs) = set_bytes (n * 256 + b % 256) bs

-- Int64 takes the low 64 bits, of which the highest is the sign
unfoldable pub low_bits : ℕ → ℕ
low_bits n = n % 18446744073709551616

-- not `e <= 0 || e > maxInt`
unfoldable pub is_exponent : ℕ → Bool
is_exponent e = ltb 0 e && ltb e 9223372036854775808

-- a key that the loop does not skip
abbrev pub is_usable : Jwk → Bool
is_usable k = k.kty == "RSA" && not (k.kid == "") && not (k.n == "") && not (k.e == "")

abbrev pub some_keys : Assoc String PublicKey → Option (Assoc String PublicKey)
some_keys [] = none
some_keys (k ∷ ks) = some (k ∷ ks)

module _ (lib : KeyLibrary) where
  unfoldable pub public_key : Jwk → Option PublicKey
  public_key k = do
    nb ← lib.decode_string k.n
    eb ← lib.decode_string k.e
    let e = low_bits (set_bytes 0 eb)
    check (is_exponent e)
    some (record { n = set_bytes 0 nb; e = e })

  -- the body of the loop, which skips a key that is not usable
  abbrev pub add_key : Bool → Jwk → Assoc String PublicKey → Option (Assoc String PublicKey)
  add_key false k out = some out
  add_key true k out = do key ← public_key k; some (insert k.kid key out)

  -- the loop of parseJWKS
  unfoldable pub add_keys : List Jwk → Assoc String PublicKey → Option (Assoc String PublicKey)
  add_keys [] out = some out
  add_keys (k ∷ ks) out = do out' ← add_key (is_usable k) k out; add_keys ks out'

  unfoldable pub parse_jwks : Bytes → Option (Assoc String PublicKey)
  parse_jwks b = do set ← lib.unmarshal_jwks b; out ← add_keys set []; some_keys out
