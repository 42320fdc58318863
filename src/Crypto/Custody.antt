-- ===== src/Crypto/Custody.antt =====
-- apps/api/src/modules/uploads/ack-custody.service.ts: the content key of an archive sealed into its
-- custody file, and back. A file that does not parse is `none`.
pub mod RoundTrip
use sol_arch.Prelude.{
  ℕ, String, ◌&&◌, Option, List, [], ◌∷◌, ◌++◌, ◌==◌, eqb, length, truthy, is_some, append_text,
}
use sol_arch.Table.{find}
use sol_arch.Db.{AckCustodyEnvelope, Vault}
use sol_arch.Failure.{unavailable, internal, plain}
use sol_arch.Action.{Result, unless_throw, or_throw, ok, ◌&&=◌}
use sol_arch.Platform.{Platform}
use sol_arch.Platform.Sealing.{Sealing}

module _ (p : Platform) (s : Sealing) where
  -- a text as bytes, with the zero byte that ends a domain
  abbrev pub domain : String → List ℕ
  domain text = s.utf8 text ++ 0 ∷ []

  abbrev zeros : List ℕ
  zeros =
      0 ∷ 0 ∷ 0 ∷ 0 ∷ 0 ∷ 0 ∷ 0 ∷ 0 ∷ 0 ∷ 0 ∷ 0 ∷ 0 ∷ 0 ∷ 0 ∷ 0 ∷ 0 ∷ 0 ∷ 0 ∷ 0 ∷ 0 ∷ 0 ∷ 0 ∷ 0 ∷ 0
      ∷ 0 ∷ 0 ∷ 0 ∷ 0 ∷ 0 ∷ 0 ∷ 0 ∷ 0 ∷ []

  -- `deriveKey`
  unfoldable pub derive_key : String → List ℕ
  derive_key secret = s.hkdf (s.utf8 secret) zeros (domain "SolArch/ack-custody-kek/v1") 32

  -- `aad`
  abbrev pub bound_to : String → String → List ℕ
  bound_to archive_id fingerprint = s.utf8 (append_text archive_id (append_text ":" fingerprint))

  unfoldable pub decrypt : String → String → String → AckCustodyEnvelope → Option (List ℕ)
  unfolding derive_key
  decrypt secret archive_id fingerprint e =
      s.open_gcm (derive_key secret) (p.base64_decode e.iv) (bound_to archive_id fingerprint)
        (p.base64_decode e.tag) (p.base64_decode e.ciphertext)

  -- `unseal`
  unfoldable pub unseal : String → Vault → String → String → Option String → Result (List ℕ)
  unfolding decrypt
  unseal secret vault archive_id fingerprint content_key_ref =
      unless_throw (is_some (truthy content_key_ref)) (unavailable plain) &&= λ _.
      or_throw (unavailable plain) (find archive_id vault) &&= λ file.
      or_throw (unavailable plain) file &&= λ e.
      unless_throw ((e.archive_id == archive_id) && (e.archive_fingerprint == fingerprint))
        (unavailable plain)
      &&= λ _. or_throw (unavailable plain) (decrypt secret archive_id fingerprint e) &&= λ key.
          unless_throw (eqb (length key) 32) (unavailable plain) &&= λ _. ok key

  unfoldable pub seal_key : String → List ℕ → String → String → List ℕ → AckCustodyEnvelope
  unfolding derive_key
  seal_key secret iv archive_id fingerprint ack =
      let sealed = s.seal_gcm (derive_key secret) iv (bound_to archive_id fingerprint) ack in
      record {
        archive_id = archive_id;
        archive_fingerprint = fingerprint;
        iv = p.base64_encode iv;
        tag = p.base64_encode sealed.1;
        ciphertext = p.base64_encode sealed.0;
      }

  -- `seal`, by the random `iv`: the custody file to write
  unfoldable pub seal : String → List ℕ → String → String → List ℕ → Result AckCustodyEnvelope
  unfolding seal_key
  seal secret iv archive_id fingerprint ack = unless_throw (eqb (length ack) 32) internal &&= λ _.
      ok (seal_key secret iv archive_id fingerprint ack)
