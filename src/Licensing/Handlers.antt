-- ===== src/Licensing/Handlers.antt =====
-- What each write of the leases keeps, `activateDevice` and `refreshLicense` keep.
use sol_arch.Prelude.{ℕ, String}
use sol_arch.Db.{Entitlement, Activation, License, Db}
use sol_arch.Db.Leases.{
  Lease, insert_nonce, insert_activation, increment_devices, insert_license, renew_license,
  replace_license, touch_activation,
}
use sol_arch.Action.Keeps.{Keeps, keeps_rules}
use sol_arch.Platform.{Credentials}
use sol_arch.Licensing.Request.{ActivateRequest, RefreshRequest}
use sol_arch.Licensing.Seal.{Services}
use sol_arch.Licensing.Activate.{
  ActivateDraw, Binding, paid_entitlement, bind_device, store_lease, issue_license, activate_locked,
  activate_device,
}
use sol_arch.Licensing.Refresh.{renew_lease, renew, refresh_locked, refresh_license}

pub record KeptByLeases (P : Db → Type 0) : Type 0 where
  pub on_nonce : (credential hash : String) → Keeps P (insert_nonce credential hash)
  pub on_activation : (id : String) (a : Activation) → Keeps P (insert_activation id a)
  pub on_count : (id : String) → Keeps P (increment_devices id)
  pub on_license : (id : String) (l : License) (hmac : String) → Keeps P (insert_license id l hmac)
  pub on_renew : (id : String) (lease : Lease) → Keeps P (renew_license id lease)
  pub on_replace :
      (id : String) (lease : Lease) (hmac : String) → Keeps P (replace_license id lease hmac)
  pub on_touch : (id : String) (now : ℕ) → Keeps P (touch_activation id now)

module _ {P : Db → Type 0} (w : KeptByLeases P) (v : Services) (creds : Credentials) where
  open w use {on_nonce, on_activation, on_count, on_license, on_renew, on_replace, on_touch}

  pub bind_device-Keeps :
      (id : String) (dto : ActivateRequest) (hash : String) (now : ℕ) (b : Binding)
      → Keeps P (bind_device v creds id dto hash now b)
  unfolding bind_device
  bind_device-Keeps id dto hash now b =
      search (keeps_rules, on_nonce, on_activation, on_count) depth 8

  pub store_lease-Keeps :
      (id : String) (e : Entitlement) (device : String) (b : Binding) (lease : Lease)
      (hmac : String)
      → Keeps P (store_lease v creds id e device b lease hmac)
  unfolding store_lease
  store_lease-Keeps id e device b lease hmac = search (keeps_rules, on_license, on_replace) depth 8

  issue_license-Keeps :
      (draw : ActivateDraw) (id : String) (e : Entitlement) (dto : ActivateRequest) (hash : String)
      (now : ℕ) (fingerprint : String) (b : Binding)
      → Keeps P (issue_license v creds draw id e dto hash now fingerprint b)
  unfolding issue_license
  issue_license-Keeps draw id e dto hash now fingerprint b =
      search (keeps_rules, bind_device-Keeps, store_lease-Keeps) depth 12

  activate_locked-Keeps :
      (draw : ActivateDraw) (now : ℕ) (intent_id secret : String) (dto : ActivateRequest)
      (hash id : String)
      → Keeps P (activate_locked v creds draw now intent_id secret dto hash id)
  unfolding activate_locked
  activate_locked-Keeps draw now intent_id secret dto hash id =
      search (keeps_rules, issue_license-Keeps) depth 40

  paid_entitlement-Keeps :
      (intent_id secret device : String)
      → Keeps P (paid_entitlement creds v.env intent_id secret device)
  unfolding paid_entitlement
  paid_entitlement-Keeps intent_id secret device = search (keeps_rules) depth 20

  pub activate_device-Keeps :
      (draw : ActivateDraw) (now : ℕ) (intent_id header : String) (dto : ActivateRequest)
      → Keeps P (activate_device v creds draw now intent_id header dto)
  unfolding activate_device
  activate_device-Keeps draw now intent_id header dto =
      search (keeps_rules, paid_entitlement-Keeps, activate_locked-Keeps) depth 12

  pub renew_lease-Keeps :
      (now : ℕ) (id : String) (l : License) (e : Entitlement) (dto : RefreshRequest)
      (fingerprint : String)
      → Keeps P (renew_lease v creds now id l e dto fingerprint)
  unfolding renew_lease
  renew_lease-Keeps now id l e dto fingerprint = search (keeps_rules, on_renew, on_touch) depth 16

  renew-Keeps :
      (now : ℕ) (id : String) (l : License) (e : Entitlement) (dto : RefreshRequest)
      (hash fingerprint : String)
      → Keeps P (renew v creds now id l e dto hash fingerprint)
  unfolding renew
  renew-Keeps now id l e dto hash fingerprint =
      search (keeps_rules, on_nonce, renew_lease-Keeps) depth 16

  refresh_locked-Keeps :
      (now : ℕ) (id token : String) (dto : RefreshRequest) (hash : String)
      → Keeps P (refresh_locked v creds now id token dto hash)
  unfolding refresh_locked
  refresh_locked-Keeps now id token dto hash = search (keeps_rules, renew-Keeps) depth 50

  pub refresh_license-Keeps :
      (now : ℕ) (id header : String) (dto : RefreshRequest)
      → Keeps P (refresh_license v creds now id header dto)
  unfolding refresh_license
  refresh_license-Keeps now id header dto = search (keeps_rules, refresh_locked-Keeps) depth 12
