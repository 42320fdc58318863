-- ===== src/Licensing/Device.antt =====
-- One device for an entitlement: the invariant of the activations.
use sol_arch.Prelude.{
  ℕ, suc, String, ◌≡◌, refl, Bool, true, false, not, ◌||◌, Option, none, some, arith, eq_iff,
  is_some, ◌==◌, if◌then◌else◌, is_text,
}
use sol_arch.Table.{find, put, first}
use sol_arch.Table.Laws.{IsKeyed, find-put, put-IsKeyed, first-none}
use sol_arch.Db.{Entitlement, Activation, License, Db}
use sol_arch.Db.Leases.{
  Lease, has_nonce, insert_nonce, device_of, insert_activation, count_device, increment_devices,
  license_refused, insert_license, change_license, with_lease, with_token, other_token,
  renew_license, replace_license, see_device, touch_activation,
}
use sol_arch.Failure.{internal}
use sol_arch.Action.{throw, modify, ◌>>=◌}
use sol_arch.Action.Keeps.{Keeps, if_leaves}
use sol_arch.Platform.{Credentials}
use sol_arch.Licensing.Request.{ActivateRequest, RefreshRequest}
use sol_arch.Licensing.Seal.{Services}
use sol_arch.Licensing.Activate.{ActivateDraw, activate_device}
use sol_arch.Licensing.Refresh.{refresh_license}
use sol_arch.Licensing.Handlers.{KeptByLeases, activate_device-Keeps, refresh_license-Keeps}

-- An entitlement has one activation at most, on the device that it was bought for.
pub record OneDevice (db : Db) : Type 0 where
  pub keyed : IsKeyed db.activations
  pub one :
      (a b : String) (x y : Activation)
      → find a db.activations ≡ some x
      → find b db.activations ≡ some y
      → x.entitlement_id ≡ y.entitlement_id
      → a ≡ b
  pub bound :
      (a : String) (x : Activation)
      → find a db.activations ≡ some x
      → device_of (find x.entitlement_id db.entitlements) x.device_public_key ≡ true

insert_new :
    (db : Db) (id : String) (a : Activation)
    → find id db.activations ≡ none
    → first (λ b. b.entitlement_id == a.entitlement_id) db.activations ≡ none
    → device_of (find a.entitlement_id db.entitlements) a.device_public_key ≡ true
    → OneDevice db
    → OneDevice (record db { activations = put id a db.activations })
insert_new db id a fresh alone device h = record {
  keyed = put-IsKeyed id a db.activations h.keyed;
  one = λ j k x y f g e. ground (
    arith,
    find-put id j a db.activations,
    find-put id k a db.activations,
    h.one j k x y,
    first-none (λ b. b.entitlement_id == a.entitlement_id) db.activations j x alone,
    first-none (λ b. b.entitlement_id == a.entitlement_id) db.activations k y alone,
    eq_iff id j,
    eq_iff id k,
    eq_iff x.entitlement_id a.entitlement_id,
    eq_iff y.entitlement_id a.entitlement_id,
  );
  bound = λ j x f. ground (arith, find-put id j a db.activations, h.bound j x, eq_iff id j);
}

insert_activation-Keeps : (id : String) (a : Activation) → Keeps OneDevice (insert_activation id a)
unfolding insert_activation ◌>>=◌
insert_activation-Keeps id a = record {
  at = λ db h.
      at_tests db (find id db.activations)
        (first (λ b. b.entitlement_id == a.entitlement_id) db.activations)
        (device_of (find a.entitlement_id db.entitlements) a.device_public_key) refl refl refl h;
}
  where
    at_tests :
        (db : Db) (found : Option Activation) (other : Option (String × Activation)) (device : Bool)
        → find id db.activations ≡ found
        → first (λ b. b.entitlement_id == a.entitlement_id) db.activations ≡ other
        → device_of (find a.entitlement_id db.entitlements) a.device_public_key ≡ device
        → OneDevice db
        → OneDevice
            (if is_some found || is_some other || not device
              then throw {A = Unit {0}} internal db
              else modify (λ d. record d { activations = put id a d.activations }) db).1
    at_tests db (some x) other device e f g h = h
    at_tests db none (some x) device e f g h = h
    at_tests db none none false e f g h = h
    at_tests db none none true e f g h = insert_new db id a e f g h

increment_devices-Keeps : (id : String) → Keeps OneDevice (increment_devices id)
unfolding increment_devices ◌>>=◌
increment_devices-Keeps id = record { at = λ db h. at_row db (find id db.entitlements) refl h }
  where
    at_row :
        (db : Db) (found : Option Entitlement)
        → find id db.entitlements ≡ found
        → OneDevice db
        → OneDevice (count_device id found db).1
    at_row db none e h = h
    at_row db (some x) e h = record {
      keyed = h.keyed;
      one = h.one;
      bound = λ j y f. ground (
        arith,
        h.bound j y,
        find-put id y.entitlement_id (record x { devices_activated = suc x.devices_activated })
            db.entitlements,
        eq_iff id y.entitlement_id,
      );
    }

touch_activation-Keeps : (id : String) (now : ℕ) → Keeps OneDevice (touch_activation id now)
unfolding touch_activation ◌>>=◌
touch_activation-Keeps id now = record { at = λ db h. at_row db (find id db.activations) refl h }
  where
    at_row :
        (db : Db) (found : Option Activation)
        → find id db.activations ≡ found
        → OneDevice db
        → OneDevice (see_device id now found db).1
    at_row db none e h = h
    at_row db (some a) e h = record {
      keyed = put-IsKeyed id (record a { last_seen_at = now }) db.activations h.keyed;
      one = λ j k x y f g same. ground (
        arith,
        find-put id j (record a { last_seen_at = now }) db.activations,
        find-put id k (record a { last_seen_at = now }) db.activations,
        h.one j k x y,
        h.one id k a y,
        h.one j id x a,
        eq_iff id j,
        eq_iff id k,
      );
      bound = λ j x f. ground (
        arith,
        find-put id j (record a { last_seen_at = now }) db.activations,
        h.bound j x,
        h.bound id a,
        eq_iff id j,
      );
    }

insert_nonce-Keeps : (credential hash : String) → Keeps OneDevice (insert_nonce credential hash)
unfolding insert_nonce ◌>>=◌
insert_nonce-Keeps credential hash = record {
  at = λ db h.
      if_leaves OneDevice (has_nonce credential hash db) _ _ (λ _. h)
        (λ _. record { keyed = h.keyed; one = h.one; bound = h.bound });
}

insert_license-Keeps :
    (id : String) (l : License) (hmac : String) → Keeps OneDevice (insert_license id l hmac)
unfolding insert_license ◌>>=◌
insert_license-Keeps id l hmac = record {
  at = λ db h.
      if_leaves OneDevice (license_refused id l hmac db) _ _ (λ _. h)
        (λ _. record { keyed = h.keyed; one = h.one; bound = h.bound });
}

change_license_keeps :
    (id : String) (change : License → License) (found : Option License) (db : Db)
    → OneDevice db
    → OneDevice (change_license id change found db).1
unfolding ◌>>=◌
change_license_keeps id change none db h = h
change_license_keeps id change (some l) db h = record {
  keyed = h.keyed;
  one = h.one;
  bound = h.bound;
}

renew_license-Keeps : (id : String) (lease : Lease) → Keeps OneDevice (renew_license id lease)
unfolding renew_license
renew_license-Keeps id lease = record {
  at = λ db h. change_license_keeps id (with_lease lease) (find id db.licenses) db h;
}

replace_license-Keeps :
    (id : String) (lease : Lease) (hmac : String) → Keeps OneDevice (replace_license id lease hmac)
unfolding replace_license ◌>>=◌
replace_license-Keeps id lease hmac = record {
  at = λ db h.
      if_leaves OneDevice
        (other_token id (first (λ m. is_text m.refresh_token_hmac hmac) db.licenses)) _ _ (λ _. h)
        (λ _. change_license_keeps id (with_token lease hmac) (find id db.licenses) db h);
}

OneDevice-KeptByLeases : KeptByLeases OneDevice
OneDevice-KeptByLeases = record {
  on_nonce = insert_nonce-Keeps;
  on_activation = insert_activation-Keeps;
  on_count = increment_devices-Keeps;
  on_license = insert_license-Keeps;
  on_renew = renew_license-Keeps;
  on_replace = replace_license-Keeps;
  on_touch = touch_activation-Keeps;
}

module _ (v : Services) (creds : Credentials) where
  -- If every entitlement has at most one activation, on the device that it was bought for, then the
  -- same holds after `activateDevice` and after `refreshLicense`, whether they return or throw.
  pub licensing-OneDevice :
      (draw : ActivateDraw) (now : ℕ) (id header : String) (dto : ActivateRequest)
      (again : RefreshRequest) (db : Db)
      → OneDevice db
      → OneDevice (activate_device v creds draw now id header dto db).1
        × OneDevice (refresh_license v creds now id header again db).1
  licensing-OneDevice draw now id header dto again db h = (
    (activate_device-Keeps OneDevice-KeptByLeases v creds draw now id header dto).at db h,
    (refresh_license-Keeps OneDevice-KeptByLeases v creds now id header again).at db h,
  )
