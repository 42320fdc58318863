-- ===== src/Crypto/Token32.antt =====
-- The TOKEN32 credentials of apps/api/src/crypto/token32.util.ts. The services take them as a
-- `Credentials` record; `token32` is that record as this file implements it.
pub mod RoundTrip
use sol_arch.Prelude.{
  ℕ, String, Bool, true, false, not, ◌&&◌, List, [], ◌∷◌, ◌++◌, ◌==◌, eqb, length, text_length,
  if◌then◌else◌,
}
use sol_arch.Platform.{Credentials}

-- Node's Buffer and crypto.
pub record Digest : Type 0 where
  pub base64url_decode : String → List ℕ
  pub base64url_encode : List ℕ → String
  pub utf8 : String → List ℕ
  -- `Buffer.from(text, 'hex')`
  pub hex_decode : String → List ℕ
  -- `createHmac('sha256', pepper)` over the bytes, in hexadecimal
  pub hmac_hex : String → List ℕ → String

-- `timingSafeEqual`
unfoldable pub same_bytes : List ℕ → List ℕ → Bool
same_bytes [] [] = true
same_bytes [] (b ∷ q) = false
same_bytes (a ∷ p) [] = false
same_bytes (a ∷ p) (b ∷ q) = let rest = same_bytes p q in eqb a b && rest

module _ (d : Digest) where
  -- `toRawTokenBytes`, for a text
  unfoldable pub to_raw_token_bytes : String → List ℕ
  to_raw_token_bytes token =
      if eqb (text_length token) 43 then d.base64url_decode token else d.utf8 token

  -- the HMAC of a token behind a domain, which ends in a zero byte
  unfoldable pub hash_token : String → String → String → String
  unfolding to_raw_token_bytes
  hash_token name token pepper = d.hmac_hex pepper (d.utf8 name ++ 0 ∷ to_raw_token_bytes token)

  -- `verifyIntentClientSecret` and `verifyDeviceRefreshToken`, by their domain
  unfoldable pub verify_token : String → String → String → String → Bool
  unfolding hash_token same_bytes
  verify_token name token stored pepper =
      let computed = hash_token name token pepper in
      not (token == "")
      && not (stored == "")
      && eqb (text_length computed) (text_length stored)
      && same_bytes (d.hex_decode computed) (d.hex_decode stored)

  -- `validateToken32`
  unfoldable pub validate_token32 : String → Bool
  validate_token32 token =
      let bytes = d.base64url_decode token in
      not (token == "")
      && eqb (text_length token) 43
      && eqb (length bytes) 32
      && (d.base64url_encode bytes == token)

  abbrev pub intent_domain : String
  intent_domain = "SolArch/payment-intent-client-secret/v1"

  abbrev pub refresh_domain : String
  refresh_domain = "SolArch/device-refresh-token/v1"

  abbrev pub token32 : Credentials
  token32 = record {
    validate = validate_token32;
    hash_intent = hash_token intent_domain;
    hash_refresh = hash_token refresh_domain;
    verify_intent = verify_token intent_domain;
    verify_refresh = verify_token refresh_domain;
  }
