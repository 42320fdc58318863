-- ===== src/Db/Leases.antt =====
-- The writes of activations, licenses and request nonces, with the unique indices and foreign keys
-- of apps/api/prisma/migrations that can refuse them.
use sol_arch.Prelude.{
  ℕ, suc, String, Bool, false, not, ◌&&◌, ◌||◌, Option, none, some, ◌∷◌, ◌==◌, is_text, is_some,
  any, if◌then◌else◌,
}
use sol_arch.Table.{find, put, first}
use sol_arch.Failure.{internal}
use sol_arch.Db.{Entitlement, Activation, License, Nonce, Db}
use sol_arch.Action.{Action, throw, modify}

abbrev pub is_nonce : String → String → Nonce → Bool
is_nonce credential hash n =
    (n.credential_record_id == credential) && (n.request_nonce_hash == hash)

-- `requestNonceRecord.findUnique`
unfoldable pub has_nonce : String → String → Db → Bool
has_nonce credential hash db = any (is_nonce credential hash) db.nonces

-- `requestNonceRecord.create`; the pair is unique
unfoldable pub insert_nonce : String → String → Action (Unit {0})
insert_nonce credential hash db =
    if has_nonce credential hash db
    then throw internal db
    else modify
        (λ d. record d {
          nonces =
              record { credential_record_id = credential; request_nonce_hash = hash } ∷ d.nonces;
        })
        db

-- FOREIGN KEY ("entitlement_id", "device_public_key")
abbrev pub device_of : Option Entitlement → String → Bool
device_of none device = false
device_of (some e) device = e.device_public_key == device

-- `deviceActivation.create`; `entitlement_id` is unique
unfoldable pub insert_activation : String → Activation → Action (Unit {0})
insert_activation id a db =
    if is_some (find id db.activations)
      || is_some (first (λ b. b.entitlement_id == a.entitlement_id) db.activations)
      || not (device_of (find a.entitlement_id db.entitlements) a.device_public_key)
    then throw internal db
    else modify (λ d. record d { activations = put id a d.activations }) db

abbrev pub count_device : String → Option Entitlement → Action (Unit {0})
count_device id none = throw internal
count_device id (some e) = modify (λ db. record db {
  entitlements = put id (record e { devices_activated = suc e.devices_activated }) db.entitlements;
})

-- `entitlement.update({ where: { id }, data: { devicesActivated: { increment: 1 } } })`
unfoldable pub increment_devices : String → Action (Unit {0})
increment_devices id db = count_device id (find id db.entitlements) db

abbrev pub license_refused : String → License → String → Db → Bool
license_refused id l hmac db =
    is_some (find id db.licenses)
    || is_some (first (λ m. is_text m.refresh_token_hmac hmac) db.licenses)
    || not (is_some (find l.entitlement_id db.entitlements))
    || not (is_some (find l.device_activation_id db.activations))

-- `deviceLicense.create`; `refresh_token_hmac` is unique
unfoldable pub insert_license : String → License → String → Action (Unit {0})
insert_license id l hmac db =
    if license_refused id l hmac db
    then throw internal db
    else modify
        (λ d. record d {
          licenses = put id (record l { refresh_token_hmac = some hmac }) d.licenses;
        })
        db

-- The columns that a new lease sets.
pub record Lease : Type 0 where
  pub issued_at : ℕ
  pub offline_valid_until : ℕ
  pub server_signature : String

abbrev pub with_lease : Lease → License → License
with_lease lease l = record l {
  issued_at = lease.issued_at;
  offline_valid_until = lease.offline_valid_until;
  server_signature = lease.server_signature;
}

abbrev pub store_license : String → License → Action (Unit {0})
store_license id l = modify (λ db. record db { licenses = put id l db.licenses })

abbrev pub change_license : String → (License → License) → Option License → Action (Unit {0})
change_license id change none = throw internal
change_license id change (some l) = store_license id (change l)

-- `deviceLicense.update({ where: { id }, data })`, without the refresh token
unfoldable pub renew_license : String → Lease → Action (Unit {0})
renew_license id lease db = change_license id (with_lease lease) (find id db.licenses) db

abbrev pub with_token : Lease → String → License → License
with_token lease hmac l = record (with_lease lease l) { refresh_token_hmac = some hmac }

abbrev pub other_token : String → Option (String × License) → Bool
other_token id none = false
other_token id (some (j, l)) = not (j == id)

-- The same with a new refresh token; no other license may have it.
unfoldable pub replace_license : String → Lease → String → Action (Unit {0})
replace_license id lease hmac db =
    if other_token id (first (λ m. is_text m.refresh_token_hmac hmac) db.licenses)
    then throw internal db
    else change_license id (with_token lease hmac) (find id db.licenses) db

abbrev pub see_device : String → ℕ → Option Activation → Action (Unit {0})
see_device id now none = throw internal
see_device id now (some a) =
    modify
      (λ db. record db { activations = put id (record a { last_seen_at = now }) db.activations })

-- `deviceActivation.update({ where: { id }, data: { lastSeenAt } })`
unfoldable pub touch_activation : String → ℕ → Action (Unit {0})
touch_activation id now db = see_device id now (find id db.activations) db
