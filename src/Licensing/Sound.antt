-- ===== src/Licensing/Sound.antt =====
-- What a refreshed license says, and on what authority.
use sol_arch.Prelude.{
  ℕ, ◌+◌, String, ◌≡◌, sym, ap, ◌∙◌, List, true, false, Option, some, arith, eq_iff,
}
use sol_arch.Table.{find}
use sol_arch.Db.{Entitlement, Activation, License, Db, is_lease_active}
use sol_arch.Action.{Result, ok, err, ◌&&=◌}
use sol_arch.Action.Returns.{bind_ok, lift_bind_ok, gets_bind_ok, pure_ok, throw_if_ok}
use sol_arch.Platform.{Credentials}
use sol_arch.Platform.Sealing.{LicensePayload, WrappedContentKey}
use sol_arch.Crypto.Custody.{unseal}
use sol_arch.Crypto.Wrap.{wrap_content_key, sign_license_envelope}
use sol_arch.Licensing.Request.{RefreshRequest}
use sol_arch.Licensing.Authority.{is_exceeded, assert_offline_deadline, assert_active_license}
use sol_arch.Licensing.Seal.{
  Services, Envelope, exact_second, offline_window, license_payload, seal,
}
use sol_arch.Licensing.Refresh.{is_refresh_bound, renew, renew_lease, refresh_license}
use sol_arch.Licensing.Granted.{Granted, refresh_license-Granted}
use sol_arch.Licensing.Authorized.{ok_same, Authorized, authority-Authorized}

-- What a license says of its holder, in the envelope and in the rows behind it.
pub record IsGrant (id : String) (dto : RefreshRequest) (now : ℕ) (r : Envelope) (db : Db)
    : Type 0 where
  pub license : License
  pub entitlement : Entitlement
  pub stored : find id db.licenses ≡ some license
  pub live : is_lease_active license.status ≡ true
  pub entitled : find license.entitlement_id db.entitlements ≡ some entitlement
  pub authorized : Authorized entitlement db (exact_second now) r.payload.archive_fingerprint
  pub names_license : r.payload.license_id ≡ id
  pub names_entitlement : r.payload.entitlement_id ≡ license.entitlement_id
  pub names_archive :
      (r.payload.archive_id ≡ license.archive_id) × (dto.archive_id ≡ license.archive_id)
  pub names_buyer : r.payload.buyer_wallet ≡ entitlement.buyer_wallet
  pub names_device :
      (r.payload.device_public_key ≡ license.device_public_key)
      × (r.payload.device_public_key ≡ entitlement.device_public_key)
  pub issued : r.payload.issued_at ≡ exact_second now
  pub three_days : r.payload.offline_valid_until ≡ r.payload.issued_at + 259200000
  pub in_time : is_exceeded entitlement.expires_at r.payload.offline_valid_until ≡ false

bound_ids :
    (dto : RefreshRequest) (l : License) (a : Activation)
    → is_refresh_bound dto l a ≡ true
    → (l.archive_id ≡ dto.archive_id) × (l.device_public_key ≡ dto.device_public_key)
unfolding is_refresh_bound
bound_ids dto l a h = (
  ground (arith, h, eq_iff l.archive_id dto.archive_id),
  ground (arith, h, eq_iff l.device_public_key dto.device_public_key),
)

live_license :
    (l : License) {u : Unit {0}} → assert_active_license l ≡ ok u → is_lease_active l.status ≡ true
unfolding assert_active_license
live_license l h = ground arith

pub deadline :
    (e : Entitlement) (until : ℕ) {u : Unit {0}}
    → assert_offline_deadline e until ≡ ok u
    → is_exceeded e.expires_at until ≡ false
unfolding assert_offline_deadline
deadline e until h = throw_if_ok _ _ h

module _ (v : Services) (creds : Credentials) where
  pub sealed_payload :
      (payload : LicensePayload) (ref : Option String) (s : Envelope)
      → seal v payload ref ≡ ok s
      → s.payload ≡ payload
  unfolding seal
  sealed_payload payload ref s e =
      by_key
        (unseal v.platform v.sealing v.env.ack_kek_secret v.vault payload.archive_id
          payload.archive_fingerprint ref)
        e
    where
      by_key :
          (key : Result (List ℕ))
          → (key &&= λ k.
              wrap_content_key v.platform v.sealing payload.device_public_key k payload
              &&= λ wrapped. ok (record {
                payload = payload;
                server_signature =
                    sign_license_envelope v.platform v.sealing payload wrapped
                      v.env.license_signing_key;
                wrapped_content_key = wrapped;
              }))
            ≡ ok s
          → s.payload ≡ payload
      by_key (err x) e = absurd (cc e)
      by_key (ok k) e =
          by_wrap (wrap_content_key v.platform v.sealing payload.device_public_key k payload) e
        where
          by_wrap :
              (w : Result WrappedContentKey)
              → (w &&= λ wrapped. ok (record {
                payload = payload;
                server_signature =
                    sign_license_envelope v.platform v.sealing payload wrapped
                      v.env.license_signing_key;
                wrapped_content_key = wrapped;
              }))
                ≡ ok s
              → s.payload ≡ payload
          by_wrap (err x) e = absurd (cc e)
          by_wrap (ok wrapped) e = ap (λ x. x.payload) (ok_same e)

  -- The payload in the response.
  renewed_payload :
      (now : ℕ) (id : String) (l : License) (e : Entitlement) (dto : RefreshRequest)
      (hash fingerprint : String) (db db' : Db) (r : Envelope)
      → renew v creds now id l e dto hash fingerprint db ≡ (ok r, db')
      → r.payload
        ≡ license_payload v.env
            (record {
              license_id = id;
              entitlement_id = l.entitlement_id;
              archive_id = l.archive_id;
              archive_fingerprint = fingerprint;
              buyer_wallet = e.buyer_wallet;
              device_public_key = dto.device_public_key;
              request_nonce = dto.request_nonce;
            })
            (exact_second now)
  unfolding renew renew_lease license_payload
  renewed_payload now id l e dto hash fingerprint db db' r done =
      let (_, db1, _, at_archive) = bind_ok _ _ db done in
      let (sealed, is_sealed, at_license) =
        lift_bind_ok _ _ db1 (gets_bind_ok _ _ db1 at_archive) in
      let (_, db2, _, at_activation) = bind_ok _ _ db1 at_license in
      let (_, db3, _, at_end) = bind_ok _ _ db2 at_activation in
      rw ((pure_ok _ db3 at_end).0) (sealed_payload _ _ sealed is_sealed)

  Granted-IsGrant :
      (now : ℕ) (id : String) (dto : RefreshRequest) (db db' : Db) (r : Envelope)
      → Granted v creds now id dto db db' r
      → IsGrant id dto now r db
  unfolding license_payload
  Granted-IsGrant now id dto db db' r g =
      let payload =
        renewed_payload now id g.license g.entitlement dto g.hash g.fingerprint db db' r
          g.renewed in
      let (archive, device) = bound_ids dto g.license g.activation g.bound in
      let held = (eq_iff g.entitlement.device_public_key dto.device_public_key).0 g.device in
      record {
        license = g.license;
        entitlement = g.entitlement;
        stored = g.stored;
        live = live_license g.license g.active;
        entitled = g.entitled;
        authorized =
            rw (ap (λ p. p.archive_fingerprint) payload)
              (authority-Authorized g.entitlement db (exact_second now) g.fingerprint g.allowed);
        names_license = ap (λ p. p.license_id) payload;
        names_entitlement = ap (λ p. p.entitlement_id) payload;
        names_archive = (ap (λ p. p.archive_id) payload, sym archive);
        names_buyer = ap (λ p. p.buyer_wallet) payload;
        names_device = (
          ap (λ p. p.device_public_key) payload ∙ sym device,
          ap (λ p. p.device_public_key) payload ∙ sym held,
        );
        issued = ap (λ p. p.issued_at) payload;
        three_days =
            ap (λ p. p.offline_valid_until) payload
            ∙ ap (λ n. n + 259200000) (sym (ap (λ p. p.issued_at) payload));
        in_time =
            rw (ap (λ p. p.offline_valid_until) payload)
              (deadline g.entitlement (exact_second now + offline_window) g.in_time);
      }

  -- Where `refreshLicense` returns, the license is stored and active, its entitlement is active, for one
  -- device, paid by a confirmed payment whose intent names the same buyer, archive, device and
  -- fingerprint; the archive still has that fingerprint and is not blocked; and the payload names this
  -- license, entitlement, archive, buyer, device and fingerprint, lasts three days from the second of the
  -- request, and does not outlast the entitlement.
  pub refresh_license-IsGrant :
      (now : ℕ) (id header : String) (dto : RefreshRequest) (db db' : Db) (r : Envelope)
      → refresh_license v creds now id header dto db ≡ (ok r, db')
      → IsGrant id dto now r db
  refresh_license-IsGrant now id header dto db db' r done =
      Granted-IsGrant now id dto db db' r
        (refresh_license-Granted v creds now id dto db db' r header done)
