-- ===== src/Auth/Keys/Bounds.antt =====
-- The keys that parseJWKS lets through.
use eastbay_overland_rally_p.Prelude.{
  ℕ, ◌<◌, String, true, List, [], ◌∷◌, none, some, ◌≡◌, sym, inl, inr, arith, Bool-cases,
  Option-cases, ◌==◌, string_eq,
}
use eastbay_overland_rally_p.Prelude.Assoc.{Assoc, lookup, insert, lookup-insert}
use eastbay_overland_rally_p.Auth.Tokens.{Bytes, PublicKey}
use eastbay_overland_rally_p.Auth.Keys.{
  KeyLibrary, Jwk, set_bytes, low_bits, is_exponent, is_usable, public_key, add_keys, some_keys,
  parse_jwks,
}

-- an exponent that fits the signed 64 bits of a Go int, and is positive
abbrev pub IsExponent : ℕ → Type 0
IsExponent e = (0 < e) × (e < 9223372036854775808)

abbrev pub AllValid : Assoc String PublicKey → Type 0
AllValid keys = (kid : String) (key : PublicKey) → lookup kid keys ≡ some key → IsExponent key.e

same_key : {a b : PublicKey} → some a ≡ some b → b ≡ a
same_key h = cc

same_keys : {a b : Assoc String PublicKey} → some a ≡ some b → a ≡ b
same_keys h = cc

is_exponent-IsExponent : (e : ℕ) → is_exponent e ≡ true → IsExponent e
unfolding is_exponent
is_exponent-IsExponent e h = ground arith

module _ (lib : KeyLibrary) where
  public_key-IsExponent :
      (k : Jwk) (key : PublicKey) → public_key lib k ≡ some key → IsExponent key.e
  unfolding public_key
  public_key-IsExponent k key h = elim (Option-cases (lib.decode_string k.n)) [
    | inl broken ↦ let bad : none ≡ some key = rw broken at h in absurd cc
    | inr (nb, p) ↦ elim (Option-cases (lib.decode_string k.e)) [
      | inl broken ↦ let bad : none ≡ some key = rw (p, broken) at h in absurd cc
      | inr (eb, q) ↦ elim (Bool-cases (is_exponent (low_bits (set_bytes 0 eb)))) [
        | inr wrong ↦ let bad : none ≡ some key = rw (p, q, wrong) at h in absurd cc
        | inl right ↦
            let made : some (record { n = set_bytes 0 nb; e = low_bits (set_bytes 0 eb) })
                ≡ some key =
              rw (p, q, right) at h in
            rw (same_key made) (is_exponent-IsExponent _ right)
      ]
    ]
  ]

  insert-AllValid :
      (kid : String) (key : PublicKey) (keys : Assoc String PublicKey)
      → IsExponent key.e
      → AllValid keys
      → AllValid (insert kid key keys)
  insert-AllValid kid key keys e all other found h = elim (Bool-cases (kid == other)) [
    | inl same ↦
        let here : some key ≡ some found = rw (lookup-insert kid other key keys, same) at h in
        rw (same_key here) e
    | inr differs ↦ all other found (rw (lookup-insert kid other key keys, differs) at h)
  ]

  add_keys-AllValid :
      (ks : List Jwk) (out keys : Assoc String PublicKey)
      → AllValid out
      → add_keys lib ks out ≡ some keys
      → AllValid keys
  unfolding add_keys
  add_keys-AllValid [] out keys all h =
      let done : some out ≡ some keys = h in rw (sym (same_keys done)) all
  add_keys-AllValid (k ∷ ks) out keys all h = elim (Bool-cases (is_usable k)) [
    | inr skipped ↦ add_keys-AllValid ks out keys all (rw skipped at h)
    | inl used ↦ elim (Option-cases (public_key lib k)) [
      | inl broken ↦ let bad : none ≡ some keys = rw (used, broken) at h in absurd cc
      | inr (key, p) ↦
          add_keys-AllValid ks (insert k.kid key out) keys
            (insert-AllValid k.kid key out (public_key-IsExponent k key p) all) (rw (used, p) at h)
    ]
  ]

  some_keys-AllValid :
      (out keys : Assoc String PublicKey) → AllValid out → some_keys out ≡ some keys → AllValid keys
  some_keys-AllValid [] keys all h = absurd cc
  some_keys-AllValid (k ∷ ks) keys all h = rw (sym (same_keys h)) all

  -- Every key of a set that is parsed has an exponent between 1 and 2^63 - 1.
  pub parse_jwks-AllValid :
      (b : Bytes) (keys : Assoc String PublicKey) → parse_jwks lib b ≡ some keys → AllValid keys
  unfolding parse_jwks lookup
  parse_jwks-AllValid b keys h = elim (Option-cases (lib.unmarshal_jwks b)) [
    | inl broken ↦ let bad : none ≡ some keys = rw broken at h in absurd cc
    | inr (set, p) ↦ elim (Option-cases (add_keys lib set [])) [
      | inl broken ↦ let bad : none ≡ some keys = rw (p, broken) at h in absurd cc
      | inr (out, q) ↦
          some_keys-AllValid out keys (add_keys-AllValid set [] out (λ id key none_of. absurd cc) q)
            (rw (p, q) at h)
    ]
  ]
