-- ===== src/Crypto/Wrap.antt =====
-- `wrapContentKey` of apps/api/src/crypto/hpke.util.ts and `signLicenseEnvelope` of ed25519.util.ts.
use sol_arch.Prelude.{ℕ, String, List, ◌++◌}
use sol_arch.Failure.{internal}
use sol_arch.Action.{Result, ok, unless_throw, or_throw, ◌&&=◌}
use sol_arch.Platform.{Platform}
use sol_arch.Platform.Sealing.{Sealing, LicensePayload, WrappedContentKey}
use sol_arch.Crypto.DeviceKey.{is_device_key}
use sol_arch.Crypto.Custody.{domain}

module _ (p : Platform) (s : Sealing) where
  unfoldable pub wrap_content_key : String → List ℕ → LicensePayload → Result WrappedContentKey
  unfolding is_device_key
  wrap_content_key device key payload =
      let canonical = s.utf8 (s.canonical_payload payload) in
      let info = domain p s "SolArch/content-key-wrap/info/v1" ++ s.sha256 canonical in
      let aad = domain p s "SolArch/content-key-wrap/aad/v1" ++ canonical in
      unless_throw (is_device_key p device) internal &&= λ _.
      or_throw internal (s.hpke_seal (p.base64_decode device) info key aad) &&= λ sealed.
      ok (record { enc = p.base64_encode sealed.0; ciphertext = p.base64_encode sealed.1 })

  unfoldable pub sign_license_envelope : LicensePayload → WrappedContentKey → String → String
  sign_license_envelope payload wrapped secret_key =
      let message =
        domain p s "SolArch/license-signature/v1"
        ++ s.utf8 (s.canonical_envelope payload wrapped) in
      p.base64_encode (s.sign_detached message secret_key)
