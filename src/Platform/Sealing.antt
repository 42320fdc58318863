-- ===== src/Platform/Sealing.antt =====
-- The cryptography behind a license: Node's crypto, @hpke/core, tweetnacl and canonicalize.
use sol_arch.Prelude.{ℕ, String, Bool, Option, List}

pub record Rights : Type 0 where
  pub export : Bool
  pub max_devices : ℕ
  -- `open`
  pub may_open : Bool
  pub watermark_enabled : Bool

-- The payload of a license, less the constants `version: 1` and `status: 'active'`. The times are
-- milliseconds, always of a whole second, where the source prints them by `formatExactSecondUtc`.
pub record LicensePayload : Type 0 where
  pub key_id : String
  pub license_id : String
  pub entitlement_id : String
  pub archive_id : String
  pub archive_fingerprint : String
  pub buyer_wallet : String
  pub device_public_key : String
  pub issued_at : ℕ
  pub offline_valid_until : ℕ
  pub request_nonce : String
  pub rights : Rights

-- `WrappedContentKey`, less its constants
pub record WrappedContentKey : Type 0 where
  pub enc : String
  pub ciphertext : String

pub record Sealing : Type 0 where
  pub utf8 : String → List ℕ
  pub sha256 : List ℕ → List ℕ
  -- `hkdfSync('sha256', secret, salt, info, length)`
  pub hkdf : List ℕ → List ℕ → List ℕ → ℕ → List ℕ
  -- AES-256-GCM by key, iv, additional data, tag and ciphertext; `none` is a throw
  pub open_gcm : List ℕ → List ℕ → List ℕ → List ℕ → List ℕ → Option (List ℕ)
  -- and by key, iv, additional data and plaintext: the ciphertext and the tag
  pub seal_gcm : List ℕ → List ℕ → List ℕ → List ℕ → List ℕ × List ℕ
  -- HPKE base mode by recipient, info, plaintext and additional data: `enc` and the ciphertext
  pub hpke_seal : List ℕ → List ℕ → List ℕ → List ℕ → Option (List ℕ × List ℕ)
  -- the `canonicalize` package on a payload, and on a payload with its wrapped key
  pub canonical_payload : LicensePayload → String
  pub canonical_envelope : LicensePayload → WrappedContentKey → String
  -- `nacl.sign.detached(message, secretKey)`
  pub sign_detached : List ℕ → String → List ℕ
