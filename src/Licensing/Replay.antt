-- ===== src/Licensing/Replay.antt =====
-- A request nonce serves once.
use sol_arch.Prelude.{
  ℕ, String, ◌≡◌, ◌≢◌, sym, ap, Bool, true, false, Option, none, some, arith, eq_refl, ◌==◌, ◌∷◌,
  ◌||◌, if◌then◌else◌, is_some, not, is_text,
}
use sol_arch.Table.{find, first}
use sol_arch.Failure.{internal}
use sol_arch.Db.{Entitlement, Activation, License, Db}
use sol_arch.Db.Leases.{
  Lease, has_nonce, insert_nonce, insert_activation, count_device, increment_devices,
  insert_license, license_refused, device_of, change_license, with_lease, with_token, other_token,
  renew_license, replace_license, see_device, touch_activation,
}
use sol_arch.Action.{Result, ok, Action, throw, modify, ◌>>=◌}
use sol_arch.Action.Keeps.{Keeps, if_leaves}
use sol_arch.Action.Returns.{bind_ok}
use sol_arch.Platform.{Credentials}
use sol_arch.Licensing.Request.{RefreshRequest, hash_request_nonce}
use sol_arch.Licensing.Seal.{Services, Envelope}
use sol_arch.Licensing.Refresh.{renew, refresh_license}
use sol_arch.Licensing.Granted.{refresh_license-Granted}
use sol_arch.Licensing.Handlers.{KeptByLeases, renew_lease-Keeps}

module _ (c n : String) where
  abbrev pub IsUsed : Db → Type 0
  IsUsed db = has_nonce c n db ≡ true

  insert_nonce-IsUsed : (credential hash : String) → Keeps IsUsed (insert_nonce credential hash)
  unfolding insert_nonce has_nonce ◌>>=◌
  insert_nonce-IsUsed credential hash = record {
    at = λ db h. if_leaves IsUsed (has_nonce credential hash db) _ _ (λ _. h) (λ _. ground arith);
  }

  count-IsUsed : (id : String) → Keeps IsUsed (increment_devices id)
  unfolding increment_devices has_nonce ◌>>=◌
  count-IsUsed id = record { at = λ db h. at_row db (find id db.entitlements) h }
    where
      at_row :
          (db : Db) (found : Option Entitlement) → IsUsed db → IsUsed (count_device id found db).1
      at_row db none h = h
      at_row db (some e) h = h

  activation-IsUsed : (id : String) (a : Activation) → Keeps IsUsed (insert_activation id a)
  unfolding insert_activation has_nonce ◌>>=◌
  activation-IsUsed id a = record {
    at = λ db h.
        if_leaves IsUsed
          (is_some (find id db.activations)
            || is_some (first (λ b. b.entitlement_id == a.entitlement_id) db.activations)
            || not (device_of (find a.entitlement_id db.entitlements) a.device_public_key))
          _ _ (λ _. h) (λ _. h);
  }

  license-IsUsed :
      (id : String) (l : License) (hmac : String) → Keeps IsUsed (insert_license id l hmac)
  unfolding insert_license has_nonce ◌>>=◌
  license-IsUsed id l hmac = record {
    at = λ db h. if_leaves IsUsed (license_refused id l hmac db) _ _ (λ _. h) (λ _. h);
  }

  change-IsUsed :
      (id : String) (change : License → License) (found : Option License) (db : Db)
      → IsUsed db
      → IsUsed (change_license id change found db).1
  unfolding has_nonce ◌>>=◌
  change-IsUsed id change none db h = h
  change-IsUsed id change (some l) db h = h

  renew-IsUsed : (id : String) (lease : Lease) → Keeps IsUsed (renew_license id lease)
  unfolding renew_license
  renew-IsUsed id lease = record {
    at = λ db h. change-IsUsed id (with_lease lease) (find id db.licenses) db h;
  }

  replace-IsUsed :
      (id : String) (lease : Lease) (hmac : String) → Keeps IsUsed (replace_license id lease hmac)
  unfolding replace_license ◌>>=◌
  replace-IsUsed id lease hmac = record {
    at = λ db h.
        if_leaves IsUsed
          (other_token id (first (λ m. is_text m.refresh_token_hmac hmac) db.licenses)) _ _ (λ _. h)
          (λ _. change-IsUsed id (with_token lease hmac) (find id db.licenses) db h);
  }

  touch-IsUsed : (id : String) (now : ℕ) → Keeps IsUsed (touch_activation id now)
  unfolding touch_activation has_nonce ◌>>=◌
  touch-IsUsed id now = record { at = λ db h. at_row db (find id db.activations) h }
    where
      at_row :
          (db : Db) (found : Option Activation) → IsUsed db → IsUsed (see_device id now found db).1
      at_row db none h = h
      at_row db (some a) h = h

  pub IsUsed-KeptByLeases : KeptByLeases IsUsed
  IsUsed-KeptByLeases = record {
    on_nonce = insert_nonce-IsUsed;
    on_activation = activation-IsUsed;
    on_count = count-IsUsed;
    on_license = license-IsUsed;
    on_renew = renew-IsUsed;
    on_replace = replace-IsUsed;
    on_touch = touch-IsUsed;
  }

  -- A nonce that was written is there.
  pub insert_nonce_ok :
      (db db' : Db) {u : Unit {0}} → insert_nonce c n db ≡ (ok u, db') → IsUsed db'
  unfolding insert_nonce has_nonce ◌>>=◌
  insert_nonce_ok db db' e = at_test (has_nonce c n db) e
    where
      used_now :
          (d : Db)
          → IsUsed (record d {
            nonces = record { credential_record_id = c; request_nonce_hash = n } ∷ d.nonces;
          })
      used_now d = ground (arith, eq_refl c, eq_refl n)

      at_test :
          {u : Unit {0}} (used : Bool)
          → (if used
              then throw internal db
              else modify
                  (λ d. record d {
                    nonces = record { credential_record_id = c; request_nonce_hash = n } ∷ d.nonces;
                  })
                  db)
            ≡ (ok u, db')
          → IsUsed db'
      at_test true e = absurd (cc e)
      at_test false e = rw (ap (λ r. r.1) (sym e)) (used_now db)

keeps_ok :
    {A : Type 0} {P : Db → Type 0} {m : Action A} {db db' : Db} {r : Result A}
    → m db ≡ (r, db')
    → Keeps P m
    → P db
    → P db'
keeps_ok {db} e k h = rw (ap (λ r. r.1) (sym e)) (k.at db h)

module _ (v : Services) (creds : Credentials) where
  renew_uses :
      (now : ℕ) (id : String) (l : License) (e : Entitlement) (dto : RefreshRequest)
      (hash fingerprint : String) (db db' : Db) (r : Envelope)
      → renew v creds now id l e dto hash fingerprint db ≡ (ok r, db')
      → IsUsed id hash db'
  unfolding renew
  renew_uses now id l e dto hash fingerprint db db' r done =
      let (_, db1, written, rest) = bind_ok _ _ db done in
      let used = insert_nonce_ok id hash db db1 written in
      keeps_ok {P = IsUsed id hash} rest
        (renew_lease-Keeps (IsUsed-KeptByLeases id hash) v creds now id l e dto fingerprint) used

  -- A nonce that is used for the license is refused.
  refused :
      (now : ℕ) (id header : String) (dto : RefreshRequest) (hash : String) (db db' : Db)
      (r : Envelope)
      → hash_request_nonce v.platform dto.request_nonce ≡ some hash
      → IsUsed id hash db
      → refresh_license v creds now id header dto db ≢ (ok r, db')
  refused now id header dto hash db db' r hashed used done =
      let granted = refresh_license-Granted v creds now id dto db db' r header done in
      ground (arith, granted.fresh, granted.hashed, hashed, used)

  -- After `refreshLicense` has returned for a license, a request with the same nonce for that license
  -- never returns in a database that has kept the nonces, whatever its token, time and other fields.
  pub refresh_no_replay :
      (now again : ℕ) (id header other : String) (dto replay : RefreshRequest)
      (db db' later after : Db) (r s : Envelope)
      → refresh_license v creds now id header dto db ≡ (ok r, db')
      → replay.request_nonce ≡ dto.request_nonce
      → ((c n : String) → has_nonce c n db' ≡ true → has_nonce c n later ≡ true)
      → refresh_license v creds again id other replay later ≢ (ok s, after)
  refresh_no_replay now again id header other dto replay db db' later after r s done same kept =
      let granted = refresh_license-Granted v creds now id dto db db' r header done in
      let used =
        renew_uses now id granted.license granted.entitlement dto granted.hash granted.fingerprint
          db db' r granted.renewed in
      refused again id other replay granted.hash later after s (rw same granted.hashed)
        (kept id granted.hash used)
