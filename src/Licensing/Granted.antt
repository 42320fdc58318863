-- ===== src/Licensing/Granted.antt =====
-- What `refreshLicense` has checked when it returns.
use sol_arch.Prelude.{ℕ, ◌+◌, String, ◌≡◌, arith, true, false, some, ◌==◌}
use sol_arch.Table.{find}
use sol_arch.Db.{Entitlement, Activation, License, Db}
use sol_arch.Db.Leases.{has_nonce}
use sol_arch.Action.{ok}
use sol_arch.Action.Returns.{
  lift_bind_ok, gets_bind_ok, transaction_ok, throw_if_ok, unless_throw_ok, or_throw_ok,
}
use sol_arch.Platform.{Credentials}
use sol_arch.Licensing.Request.{RefreshRequest, hash_request_nonce, validate_refresh_request}
use sol_arch.Licensing.Authority.{
  authority, assert_entitlement_authority, assert_offline_deadline, assert_active_license,
}
use sol_arch.Licensing.Seal.{Services, Envelope, exact_second, offline_window}
use sol_arch.Licensing.Refresh.{is_refresh_bound, renew, refresh_locked, refresh_license}

pub record Granted (v : Services) (creds : Credentials) (now : ℕ) (id : String)
    (dto : RefreshRequest) (db db' : Db) (r : Envelope) : Type 0 where
  pub license : License
  pub entitlement : Entitlement
  pub activation : Activation
  pub hash : String
  pub fingerprint : String
  pub stored : find id db.licenses ≡ some license
  pub entitled : find license.entitlement_id db.entitlements ≡ some entitlement
  pub activated : find license.device_activation_id db.activations ≡ some activation
  pub bound : is_refresh_bound dto license activation ≡ true
  pub active : assert_active_license license ≡ ok tt
  pub device : (entitlement.device_public_key == dto.device_public_key) ≡ true
  pub allowed :
      assert_entitlement_authority (authority entitlement db) (exact_second now) ≡ ok fingerprint
  pub in_time : assert_offline_deadline entitlement (exact_second now + offline_window) ≡ ok tt
  pub hashed : hash_request_nonce v.platform dto.request_nonce ≡ some hash
  pub fresh : has_nonce id hash db ≡ false
  pub renewed : renew v creds now id license entitlement dto hash fingerprint db ≡ (ok r, db')

module _ (v : Services) (creds : Credentials) (now : ℕ) (id : String) (dto : RefreshRequest)
    (db db' : Db) (r : Envelope) where
  locked-Granted :
      (token hash : String)
      → hash_request_nonce v.platform dto.request_nonce ≡ some hash
      → refresh_locked v creds now id token dto hash db ≡ (ok r, db')
      → Granted v creds now id dto db db' r
  unfolding refresh_locked
  locked-Granted token hash hashed done =
      let (_, _, at_license) = lift_bind_ok _ _ db (gets_bind_ok _ _ db done) in
      let (license, stored, at_entitlement) = lift_bind_ok _ _ db at_license in
      let (entitlement, entitled, at_activation) =
        lift_bind_ok _ _ db (gets_bind_ok _ _ db at_entitlement) in
      let (activation, activated, at_bound) =
        lift_bind_ok _ _ db (gets_bind_ok _ _ db at_activation) in
      let (_, bound, at_active) = lift_bind_ok _ _ db at_bound in
      let (_, active, at_device_active) = lift_bind_ok _ _ db at_active in
      let (_, _, at_device) = lift_bind_ok _ _ db at_device_active in
      let (_, device, at_authority) = lift_bind_ok _ _ db at_device in
      let (fingerprint, allowed, at_deadline) =
        lift_bind_ok _ _ db (gets_bind_ok _ _ db at_authority) in
      let (_, in_time, at_nonce) = lift_bind_ok _ _ db at_deadline in
      let (_, fresh, renewed) = lift_bind_ok _ _ db (gets_bind_ok _ _ db at_nonce) in
      record {
        license = license;
        entitlement = entitlement;
        activation = activation;
        hash = hash;
        fingerprint = fingerprint;
        stored = or_throw_ok _ _ stored;
        entitled = or_throw_ok _ _ entitled;
        activated = or_throw_ok _ _ activated;
        bound = unless_throw_ok _ _ bound;
        active = active;
        device = unless_throw_ok _ _ device;
        allowed = allowed;
        in_time = in_time;
        hashed = hashed;
        fresh = throw_if_ok _ _ fresh;
        renewed = renewed;
      }

  request_hashed :
      {hash : String}
      → validate_refresh_request v.platform dto ≡ ok hash
      → hash_request_nonce v.platform dto.request_nonce ≡ some hash
  unfolding validate_refresh_request
  request_hashed e = ground arith

  pub refresh_license-Granted :
      (header : String)
      → refresh_license v creds now id header dto db ≡ (ok r, db')
      → Granted v creds now id dto db db' r
  unfolding refresh_license
  refresh_license-Granted header done =
      let (hash, valid, at_token) = lift_bind_ok _ _ db done in
      let (token, _, at_credential) = lift_bind_ok _ _ db at_token in
      let (_, _, locked) = lift_bind_ok _ _ db (gets_bind_ok _ _ db at_credential) in
      locked-Granted token hash (request_hashed valid) (transaction_ok _ db locked)
