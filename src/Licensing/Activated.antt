-- ===== src/Licensing/Activated.antt =====
-- What an activation's license says, and on what authority.
use sol_arch.Prelude.{ℕ, ◌+◌, String, ◌≡◌, sym, ap, ◌∙◌, false, some, eq_iff}
use sol_arch.Table.{find}
use sol_arch.Db.{Entitlement, Db}
use sol_arch.Action.{ok}
use sol_arch.Action.Returns.{
  bind_ok, lift_bind_ok, gets_bind_ok, transaction_ok, pure_ok, or_throw_ok, unless_throw_ok,
}
use sol_arch.Platform.{Credentials}
use sol_arch.Licensing.Request.{ActivateRequest}
use sol_arch.Licensing.Authority.{is_exceeded}
use sol_arch.Licensing.Seal.{Services, exact_second, offline_window, license_payload}
use sol_arch.Licensing.Activate.{
  ActivateDraw, ActivateResponse, Binding, issue_license, activate_locked, activate_device,
}
use sol_arch.Licensing.Authorized.{Authorized, authority-Authorized}
use sol_arch.Licensing.Atomic.{paid_entitlement-Reads}
use sol_arch.Licensing.Sound.{sealed_payload, deadline}

-- A license for the entitlement that the payload names, on the device of the request.
pub record IsActivation (dto : ActivateRequest) (now : ℕ) (r : ActivateResponse) (db : Db)
    : Type 0 where
  pub entitlement : Entitlement
  pub stored : find r.license.payload.entitlement_id db.entitlements ≡ some entitlement
  pub authorized :
      Authorized entitlement db (exact_second now) r.license.payload.archive_fingerprint
  pub names_archive : r.license.payload.archive_id ≡ entitlement.archive_id
  pub names_buyer : r.license.payload.buyer_wallet ≡ entitlement.buyer_wallet
  pub names_device :
      (r.license.payload.device_public_key ≡ dto.device_public_key)
      × (r.license.payload.device_public_key ≡ entitlement.device_public_key)
  pub issued : r.license.payload.issued_at ≡ exact_second now
  pub three_days : r.license.payload.offline_valid_until ≡ r.license.payload.issued_at + 259200000
  pub in_time : is_exceeded entitlement.expires_at r.license.payload.offline_valid_until ≡ false

module _ (v : Services) (creds : Credentials) (draw : ActivateDraw) (now : ℕ)
    (dto : ActivateRequest) where
  issued_payload :
      (id : String) (e : Entitlement) (hash fingerprint : String) (b : Binding) (db db' : Db)
      (r : ActivateResponse)
      → issue_license v creds draw id e dto hash now fingerprint b db ≡ (ok r, db')
      → r.license.payload
        ≡ license_payload v.env
            (record {
              license_id = b.license_id;
              entitlement_id = id;
              archive_id = e.archive_id;
              archive_fingerprint = fingerprint;
              buyer_wallet = e.buyer_wallet;
              device_public_key = dto.device_public_key;
              request_nonce = dto.request_nonce;
            })
            (exact_second now)
  unfolding issue_license license_payload
  issued_payload id e hash fingerprint b db db' r done =
      let (_, db1, _, at_archive) = bind_ok _ _ db done in
      let (sealed, is_sealed, at_lease) = lift_bind_ok _ _ db1 (gets_bind_ok _ _ db1 at_archive) in
      let (_, db2, _, at_end) = bind_ok _ _ db1 at_lease in
      ap (λ x. x.license.payload) ((pure_ok _ db2 at_end).0)
      ∙ sealed_payload v creds _ _ sealed is_sealed

  locked-IsActivation :
      (intent_id secret hash id : String) (db db' : Db) (r : ActivateResponse)
      → activate_locked v creds draw now intent_id secret dto hash id db ≡ (ok r, db')
      → IsActivation dto now r db
  unfolding activate_locked license_payload
  locked-IsActivation intent_id secret hash id db db' r done =
      let (_, _, at_row) = lift_bind_ok _ _ db (gets_bind_ok _ _ db (gets_bind_ok _ _ db done)) in
      let (e, stored, at_device) = lift_bind_ok _ _ db at_row in
      let (_, device, at_authority) = lift_bind_ok _ _ db at_device in
      let (fingerprint, allowed, at_deadline) =
        lift_bind_ok _ _ db (gets_bind_ok _ _ db at_authority) in
      let (_, in_time, at_nonce) = lift_bind_ok _ _ db at_deadline in
      let (_, _, at_binding) = lift_bind_ok _ _ db (gets_bind_ok _ _ db at_nonce) in
      let (b, _, issued) = lift_bind_ok _ _ db (gets_bind_ok _ _ db at_binding) in
      let payload = issued_payload id e hash fingerprint b db db' r issued in
      let same =
        (eq_iff e.device_public_key dto.device_public_key).0 (unless_throw_ok _ _ device) in
      record {
        entitlement = e;
        stored = rw (ap (λ p. p.entitlement_id) payload) (or_throw_ok _ _ stored);
        authorized =
            rw (ap (λ p. p.archive_fingerprint) payload)
              (authority-Authorized e db (exact_second now) fingerprint allowed);
        names_archive = ap (λ p. p.archive_id) payload;
        names_buyer = ap (λ p. p.buyer_wallet) payload;
        names_device = (
          ap (λ p. p.device_public_key) payload,
          ap (λ p. p.device_public_key) payload ∙ sym same,
        );
        issued = ap (λ p. p.issued_at) payload;
        three_days =
            ap (λ p. p.offline_valid_until) payload
            ∙ ap (λ n. n + 259200000) (sym (ap (λ p. p.issued_at) payload));
        in_time =
            rw (ap (λ p. p.offline_valid_until) payload)
              (deadline e (exact_second now + offline_window) in_time);
      }

  -- Where `activateDevice` returns, the entitlement that the payload names is stored, active, for one
  -- device, and paid by a confirmed payment whose intent names the same buyer, archive, device and
  -- fingerprint; the archive still has that fingerprint and is not blocked; and the payload names the
  -- entitlement's archive and buyer and the device of the request, which is the entitlement's, lasts three
  -- days from the second of the request, and does not outlast the entitlement.
  pub activate_device-IsActivation :
      (intent_id header : String) (db db' : Db) (r : ActivateResponse)
      → activate_device v creds draw now intent_id header dto db ≡ (ok r, db')
      → IsActivation dto now r db
  unfolding activate_device
  activate_device-IsActivation intent_id header db db' r done =
      let (hash, _, at_secret) = lift_bind_ok _ _ db done in
      let (secret, _, at_entitlement) = lift_bind_ok _ _ db at_secret in
      let (found, db1, looked, locked) = bind_ok _ _ db at_entitlement in
      let same =
        ap (λ x. x.1) (sym looked)
        ∙ (paid_entitlement-Reads v creds intent_id secret dto.device_public_key).same db in
      rw (same) at
        (locked-IsActivation intent_id secret hash found.0 db1 db' r (transaction_ok _ db1 locked))
