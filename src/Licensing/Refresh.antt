-- ===== src/Licensing/Refresh.antt =====
-- `refreshLicense`
use sol_arch.Prelude.{
  ℕ, ◌+◌, String, Bool, false, ◌&&◌, Option, none, some, ◌==◌, is_text, if◌then◌else◌,
}
use sol_arch.Table.{find, first}
use sol_arch.Failure.{
  unauthorized, conflict, internal, invalid_refresh_credential, device_binding_mismatch,
  request_nonce_replay,
}
use sol_arch.Db.{Archive, Entitlement, Activation, License, Db}
use sol_arch.Db.Leases.{has_nonce, insert_nonce, renew_license, touch_activation}
use sol_arch.Action.{
  Action, pure, gets, lift, throw_if, unless_throw, or_throw, transaction, ◌>>=◌, ◌>>◌,
}
use sol_arch.Platform.{Env, Credentials}
use sol_arch.Payments.Verify.{bearer}
use sol_arch.Licensing.Request.{RefreshRequest, validate_refresh_request}
use sol_arch.Licensing.Authority.{
  authority, assert_entitlement_authority, assert_offline_deadline, assert_active_license,
  assert_active_activation,
}
use sol_arch.Licensing.Seal.{
  Services, Envelope, exact_second, offline_window, license_payload, seal,
}

abbrev token_of : License → String
token_of l = elim l.refresh_token_hmac [ none ↦ "" | some hmac ↦ hmac ]

-- The license that a refresh token belongs to, if it is the license of the request.
unfoldable pub license_of_token : Credentials → Env → String → String → Db → Option License
license_of_token creds env license_id token db =
    let hmac = creds.hash_refresh token env.device_refresh_hmac_secret in
    elim (first (λ l. is_text l.refresh_token_hmac hmac) db.licenses) [
      | none ↦ none
      | some (id, l) ↦
          if creds.verify_refresh token (token_of l) env.device_refresh_hmac_secret
            && (id == license_id)
          then some l
          else none
    ]

abbrev still_held : Credentials → Env → String → Option License → Bool
still_held creds env token none = false
still_held creds env token (some l) =
    creds.verify_refresh token (token_of l) env.device_refresh_hmac_secret

-- The license, its activation and the request agree.
unfoldable pub is_refresh_bound : RefreshRequest → License → Activation → Bool
is_refresh_bound dto l a =
    (l.archive_id == dto.archive_id)
    && (l.device_public_key == dto.device_public_key)
    && (a.entitlement_id == l.entitlement_id)

abbrev content_key_ref_of : Option Archive → Option String
content_key_ref_of none = none
content_key_ref_of (some a) = a.content_key_ref

module _ (v : Services) (creds : Credentials) where
  -- the new lease: its payload, its envelope, and the rows that it changes
  unfoldable pub renew_lease :
      ℕ → String → License → Entitlement → RefreshRequest → String → Action Envelope
  unfolding license_payload seal
  renew_lease now license_id l e dto fingerprint = do
    let payload =
        license_payload v.env
          (record {
            license_id = license_id;
            entitlement_id = l.entitlement_id;
            archive_id = l.archive_id;
            archive_fingerprint = fingerprint;
            buyer_wallet = e.buyer_wallet;
            device_public_key = dto.device_public_key;
            request_nonce = dto.request_nonce;
          })
          (exact_second now)
    archive ← gets (λ db. find e.archive_id db.archives)
    sealed ← lift (seal v payload (content_key_ref_of archive))
    renew_license license_id (record {
      issued_at = payload.issued_at;
      offline_valid_until = payload.offline_valid_until;
      server_signature = sealed.server_signature;
    })
    touch_activation l.device_activation_id (exact_second now)
    pure sealed

  unfoldable pub renew :
      ℕ → String → License → Entitlement → RefreshRequest → String → String → Action Envelope
  unfolding renew_lease
  renew now license_id l e dto nonce_hash fingerprint =
      insert_nonce license_id nonce_hash >> renew_lease now license_id l e dto fingerprint

  -- The body of the transaction.
  unfoldable pub refresh_locked : ℕ → String → String → RefreshRequest → String → Action Envelope
  unfolding is_refresh_bound authority assert_entitlement_authority assert_offline_deadline
      assert_active_license assert_active_activation renew
  refresh_locked now license_id token dto nonce_hash = do
    found ← gets (λ db. find license_id db.licenses)
    lift (
        unless_throw (still_held creds v.env token found) (unauthorized invalid_refresh_credential))
    l ← lift (or_throw (unauthorized invalid_refresh_credential) found)
    entitled ← gets (λ db. find l.entitlement_id db.entitlements)
    e ← lift (or_throw internal entitled)
    activated ← gets (λ db. find l.device_activation_id db.activations)
    a ← lift (or_throw internal activated)
    lift (unless_throw (is_refresh_bound dto l a) (conflict device_binding_mismatch))
    lift (assert_active_license l)
    lift (assert_active_activation (some a) dto.device_public_key)
    lift (
        unless_throw (e.device_public_key == dto.device_public_key)
          (conflict device_binding_mismatch))
    joined ← gets (authority e)
    fingerprint ← lift (assert_entitlement_authority joined (exact_second now))
    lift (assert_offline_deadline e (exact_second now + offline_window))
    replayed ← gets (has_nonce license_id nonce_hash)
    lift (throw_if replayed (conflict request_nonce_replay))
    renew now license_id l e dto nonce_hash fingerprint

  -- `refreshLicense`
  unfoldable pub refresh_license : ℕ → String → String → RefreshRequest → Action Envelope
  unfolding validate_refresh_request bearer license_of_token refresh_locked
  refresh_license now license_id header dto = do
    nonce_hash ← lift (validate_refresh_request v.platform dto)
    token ←
        lift (
          or_throw (unauthorized invalid_refresh_credential) (bearer creds "DeviceRefresh " header))
    credential ← gets (license_of_token creds v.env license_id token)
    lift (or_throw (unauthorized invalid_refresh_credential) credential)
    transaction (refresh_locked now license_id token dto nonce_hash)
