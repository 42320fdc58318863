-- ===== src/Licensing/Seal.antt =====
-- The last part of `activateDevice` and `refreshLicense`: the payload, the wrapped key, the signature.
use sol_arch.Prelude.{ℕ, ◌+◌, ◌*◌, ◌/◌, String, true, false, Option}
use sol_arch.Action.{Result, ok, ◌&&=◌}
use sol_arch.Platform.{Platform, Env}
use sol_arch.Platform.Sealing.{Sealing, LicensePayload, WrappedContentKey, Rights}
use sol_arch.Db.{Vault}
use sol_arch.Crypto.Custody.{unseal}
use sol_arch.Crypto.Wrap.{wrap_content_key, sign_license_envelope}

-- What the handlers are given beside the request: the libraries, the environment, the custody files.
pub record Services : Type 0 where
  pub platform : Platform
  pub sealing : Sealing
  pub env : Env
  pub vault : Vault

-- The response, less the refresh token.
pub record Envelope : Type 0 where
  pub payload : LicensePayload
  pub server_signature : String
  pub wrapped_content_key : WrappedContentKey

abbrev pub offline_window : ℕ
offline_window = 259200 * 1000

abbrev pub recovery_window : ℕ
recovery_window = 10 * 60 * 1000

abbrev pub exact_second : ℕ → ℕ
exact_second now = now / 1000 * 1000

abbrev pub rights : Rights
rights = record { export = false; max_devices = 1; may_open = true; watermark_enabled = true }

-- The ids that a payload names.
pub record Subject : Type 0 where
  pub license_id : String
  pub entitlement_id : String
  pub archive_id : String
  pub archive_fingerprint : String
  pub buyer_wallet : String
  pub device_public_key : String
  pub request_nonce : String

unfoldable pub license_payload : Env → Subject → ℕ → LicensePayload
license_payload env s issued_at = record {
  key_id = env.license_key_id;
  license_id = s.license_id;
  entitlement_id = s.entitlement_id;
  archive_id = s.archive_id;
  archive_fingerprint = s.archive_fingerprint;
  buyer_wallet = s.buyer_wallet;
  device_public_key = s.device_public_key;
  issued_at = issued_at;
  offline_valid_until = issued_at + offline_window;
  request_nonce = s.request_nonce;
  rights = rights;
}

unfoldable pub seal : Services → LicensePayload → Option String → Result Envelope
unfolding unseal wrap_content_key sign_license_envelope
seal v payload content_key_ref =
    unseal v.platform v.sealing v.env.ack_kek_secret v.vault payload.archive_id
      payload.archive_fingerprint content_key_ref
    &&= λ key.
        wrap_content_key v.platform v.sealing payload.device_public_key key payload &&= λ wrapped.
        ok (record {
          payload = payload;
          server_signature =
              sign_license_envelope v.platform v.sealing payload wrapped v.env.license_signing_key;
          wrapped_content_key = wrapped;
        })
