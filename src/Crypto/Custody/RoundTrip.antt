-- ===== src/Crypto/Custody/RoundTrip.antt =====
-- What is sealed is unsealed.
use sol_arch.Prelude.{
  ℕ, String, ◌≡◌, refl, true, some, List, arith, eq_refl, eqb, length, is_some, truthy,
}
use sol_arch.Table.{put}
use sol_arch.Table.Laws.{find-put_self}
use sol_arch.Db.{AckCustodyEnvelope, Vault}
use sol_arch.Action.{ok}
use sol_arch.Platform.{Platform}
use sol_arch.Platform.Sealing.{Sealing}
use sol_arch.Crypto.Custody.{seal, seal_key, unseal, decrypt, derive_key, bound_to}

-- AES-256-GCM opens what it sealed, and Base64 decodes what it encoded.
pub record OpensSealed (p : Platform) (s : Sealing) : Type 0 where
  pub opens :
      (key iv aad text : List ℕ)
      → s.open_gcm key iv aad (s.seal_gcm key iv aad text).1 (s.seal_gcm key iv aad text).0
        ≡ some text
  pub decodes : (bytes : List ℕ) → p.base64_decode (p.base64_encode bytes) ≡ bytes

module _ (p : Platform) (s : Sealing) where
  decrypt-seal_key :
      (h : OpensSealed p s) (secret id fingerprint : String) (iv ack : List ℕ)
      → decrypt p s secret id fingerprint (seal_key p s secret iv id fingerprint ack) ≡ some ack
  unfolding decrypt seal_key
  decrypt-seal_key h secret id fingerprint iv ack =
      let key = derive_key p s secret in
      let sealed = s.seal_gcm key iv (bound_to p s id fingerprint) ack in
      rw (decrypt, seal_key, h.decodes iv, h.decodes sealed.1, h.decodes sealed.0)
        (h.opens key iv (bound_to p s id fingerprint) ack)

  seal_ok :
      (secret id fingerprint : String) (iv ack : List ℕ) (e : AckCustodyEnvelope)
      → seal p s secret iv id fingerprint ack ≡ ok e
      → (e ≡ seal_key p s secret iv id fingerprint ack) × (eqb (length ack) 32 ≡ true)
  unfolding seal
  seal_ok secret id fingerprint iv ack e h = ground arith

  -- A custody file that `seal` wrote opens to the sealed key, for the archive and the fingerprint it
  -- was sealed for, by any reference that is not empty.
  pub unseal-seal :
      (h : OpensSealed p s) (secret id fingerprint reference : String) (iv ack : List ℕ)
      (e : AckCustodyEnvelope) (vault : Vault)
      → is_some (truthy (some reference)) ≡ true
      → seal p s secret iv id fingerprint ack ≡ ok e
      → unseal p s secret (put id (some e) vault) id fingerprint (some reference) ≡ ok ack
  unfolding unseal seal_key
  unseal-seal h secret id fingerprint reference iv ack e vault named sealed =
      let facts = seal_ok secret id fingerprint iv ack e sealed in
      let found = find-put_self id (some e) vault in
      let opened = decrypt-seal_key h secret id fingerprint iv ack in
      rw (named, found, facts.0, opened, eq_refl id, eq_refl fingerprint, facts.1) refl
