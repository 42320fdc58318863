-- ===== src/Licensing/Activate.antt =====
-- `activateDevice`
use sol_arch.Prelude.{
  ℕ, ◌+◌, ◌-◌, String, Bool, true, false, ◌&&◌, ◌||◌, Option, none, some, [], ◌∷◌, ◌==◌, leb, ltb,
  length, if◌then◌else◌,
}
use sol_arch.Table.{Table, find, first, select}
use sol_arch.Failure.{
  unauthorized, forbidden, conflict, gone, unavailable, invalid_intent_credential,
  device_binding_mismatch, payment_not_confirmed, backend_unavailable, payment_intent_expired,
  device_limit_reached, request_nonce_replay,
}
use sol_arch.Db.{Archive, Entitlement, Activation, License, LeaseStatus, Db, is_payment_confirmed}
use sol_arch.Db.Leases.{
  Lease, has_nonce, insert_nonce, insert_activation, increment_devices, insert_license,
  replace_license,
}
use sol_arch.Action.{
  Result, ok, err, Action, pure, gets, lift, throw_if, unless_throw, or_throw, transaction, when,
  ◌>>=◌, ◌>>◌, ◌&&=◌,
}
use sol_arch.Platform.{Env, Credentials}
use sol_arch.Payments.Commit.{payment_of, entitlement_of}
use sol_arch.Payments.Verify.{bearer, intent_of_secret}
use sol_arch.Licensing.Request.{ActivateRequest, validate_activation_request}
use sol_arch.Licensing.Authority.{
  authority, assert_entitlement_authority, assert_offline_deadline, assert_active_license,
  assert_active_activation,
}
use sol_arch.Licensing.Seal.{
  Services, Envelope, exact_second, offline_window, recovery_window, license_payload, seal,
}

-- What one activation draws at random.
pub record ActivateDraw : Type 0 where
  pub activation_id : String
  pub license_id : String
  pub refresh_token : String

pub record ActivateResponse : Type 0 where
  pub license : Envelope
  pub device_refresh_token : String

-- The entitlement that a client secret leads to: its intent's payment, and that payment's entitlement.
unfoldable pub paid_entitlement :
    Credentials → Env → String → String → String → Action (String × Entitlement)
unfolding intent_of_secret payment_of entitlement_of
paid_entitlement creds env intent_id secret device = do
  found ← gets (intent_of_secret creds env intent_id secret)
  intent ← lift (or_throw (unauthorized invalid_intent_credential) found)
  lift (unless_throw (intent.device_public_key == device) (conflict device_binding_mismatch))
  paid ← gets (payment_of intent_id)
  payment ← lift (or_throw (forbidden payment_not_confirmed) paid)
  lift (unless_throw (is_payment_confirmed payment.1.status) (forbidden payment_not_confirmed))
  entitled ← gets (entitlement_of payment.0)
  lift (or_throw (unavailable backend_unavailable) entitled)

-- the secret is that of the intent behind the locked entitlement, and that intent is the request's
abbrev locked_credential : Credentials → Env → String → String → Option Entitlement → Db → Bool
locked_credential creds env intent_id secret found db = elim found [
  | none ↦ false
  | some e ↦ elim (find e.payment_id db.payments) [
    | none ↦ false
    | some q ↦ elim (find q.payment_intent_id db.intents) [
      | none ↦ false
      | some i ↦
          creds.verify_intent secret i.client_secret_hmac env.intent_hmac_secret
          && (q.payment_intent_id == intent_id)
    ]
  ]
]

-- The activation and the license that the request is about, and whether they are new.
pub record Binding : Type 0 where
  pub activation_id : String
  pub license_id : String
  pub is_new : Bool

unfoldable pub is_license_bound : String → Entitlement → String → String → License → Bool
is_license_bound entitlement_id e activation_id device l =
    (l.entitlement_id == entitlement_id)
    && (l.device_activation_id == activation_id)
    && (l.archive_id == e.archive_id)
    && (l.device_public_key == device)

abbrev sole_license : Table License → Result (String × License)
sole_license (row ∷ []) = ok row
sole_license _ = err (unavailable backend_unavailable)

-- An activation of the device exists: its only license is issued again, within ten minutes.
unfoldable pub recover_binding :
    String → Entitlement → String → ℕ → String → Activation → Table License → Result Binding
unfolding is_license_bound
recover_binding entitlement_id e device issued_at activation_id a licenses =
    assert_active_activation (some a) device &&= λ _.
    throw_if (ltb recovery_window (issued_at - a.activated_at)) (gone payment_intent_expired)
    &&= λ _. sole_license licenses &&= λ row. assert_active_license row.1 &&= λ _.
        unless_throw (is_license_bound entitlement_id e activation_id device row.1)
          (conflict device_binding_mismatch)
        &&= λ _. ok (record { activation_id = activation_id; license_id = row.0; is_new = false })

abbrev new_binding : ActivateDraw → Entitlement → Table Activation → Result Binding
new_binding draw e activations =
    throw_if (leb 1 (length activations) || leb 1 e.devices_activated)
      (conflict device_limit_reached)
    &&= λ _.
        ok (record {
          activation_id = draw.activation_id;
          license_id = draw.license_id;
          is_new = true;
        })

unfoldable pub choose_binding :
    ActivateDraw → String → Entitlement → String → ℕ → Db → Result Binding
unfolding recover_binding
choose_binding draw entitlement_id e device issued_at db =
    let activations = select (λ a. a.entitlement_id == entitlement_id) db.activations in
    elim (first (λ a. a.device_public_key == device) activations) [
      | none ↦ new_binding draw e activations
      | some (id, a) ↦
          recover_binding entitlement_id e device issued_at id a
            (select (λ l. l.device_activation_id == id) db.licenses)
    ]

abbrev pub new_activation : String → ActivateRequest → ℕ → Activation
new_activation entitlement_id dto now = record {
  entitlement_id = entitlement_id;
  device_public_key = dto.device_public_key;
  device_label = dto.device_name;
  viewer_version = dto.viewer_version;
  activated_at = now;
  last_seen_at = now;
  status = "active";
}

abbrev pub new_license : String → Entitlement → String → String → Lease → License
new_license entitlement_id e activation_id device lease = record {
  entitlement_id = entitlement_id;
  device_activation_id = activation_id;
  archive_id = e.archive_id;
  device_public_key = device;
  status = LeaseStatus.active;
  server_signature = lease.server_signature;
  issued_at = lease.issued_at;
  offline_valid_until = lease.offline_valid_until;
  refresh_token_hmac = none;
}

abbrev content_key_ref_of : Option Archive → Option String
content_key_ref_of none = none
content_key_ref_of (some a) = a.content_key_ref

module _ (v : Services) (creds : Credentials) where
  -- the nonce, the activation and the count
  unfoldable pub bind_device : String → ActivateRequest → String → ℕ → Binding → Action (Unit {0})
  bind_device entitlement_id dto nonce_hash now binding = do
    insert_nonce entitlement_id nonce_hash
    when binding.is_new (
        insert_activation binding.activation_id (new_activation entitlement_id dto now)
        >> increment_devices entitlement_id)

  -- the license, with its new refresh token
  unfoldable pub store_lease :
      String → Entitlement → String → Binding → Lease → String → Action (Unit {0})
  store_lease entitlement_id e device binding lease hmac =
      if binding.is_new
      then insert_license binding.license_id
          (new_license entitlement_id e binding.activation_id device lease) hmac
      else replace_license binding.license_id lease hmac

  unfoldable pub issue_license :
      ActivateDraw
      → String
      → Entitlement
      → ActivateRequest
      → String
      → ℕ
      → String
      → Binding
      → Action ActivateResponse
  unfolding bind_device store_lease license_payload seal
  issue_license draw entitlement_id e dto nonce_hash now fingerprint binding = do
    bind_device entitlement_id dto nonce_hash now binding
    let payload =
        license_payload v.env
          (record {
            license_id = binding.license_id;
            entitlement_id = entitlement_id;
            archive_id = e.archive_id;
            archive_fingerprint = fingerprint;
            buyer_wallet = e.buyer_wallet;
            device_public_key = dto.device_public_key;
            request_nonce = dto.request_nonce;
          })
          (exact_second now)
    archive ← gets (λ db. find e.archive_id db.archives)
    sealed ← lift (seal v payload (content_key_ref_of archive))
    store_lease entitlement_id e dto.device_public_key binding
        (record {
          issued_at = payload.issued_at;
          offline_valid_until = payload.offline_valid_until;
          server_signature = sealed.server_signature;
        })
        (creds.hash_refresh draw.refresh_token v.env.device_refresh_hmac_secret)
    pure (record { license = sealed; device_refresh_token = draw.refresh_token })

  -- The body of the transaction.
  unfoldable pub activate_locked :
      ActivateDraw
      → ℕ
      → String
      → String
      → ActivateRequest
      → String
      → String
      → Action ActivateResponse
  unfolding authority assert_entitlement_authority assert_offline_deadline choose_binding
      issue_license
  activate_locked draw now intent_id secret dto nonce_hash entitlement_id = do
    found ← gets (λ db. find entitlement_id db.entitlements)
    held ← gets (locked_credential creds v.env intent_id secret found)
    lift (unless_throw held (unauthorized invalid_intent_credential))
    e ← lift (or_throw (unauthorized invalid_intent_credential) found)
    lift (
        unless_throw (e.device_public_key == dto.device_public_key)
          (conflict device_binding_mismatch))
    joined ← gets (authority e)
    fingerprint ← lift (assert_entitlement_authority joined (exact_second now))
    lift (assert_offline_deadline e (exact_second now + offline_window))
    replayed ← gets (has_nonce entitlement_id nonce_hash)
    lift (throw_if replayed (conflict request_nonce_replay))
    chosen ← gets (choose_binding draw entitlement_id e dto.device_public_key (exact_second now))
    binding ← lift chosen
    issue_license draw entitlement_id e dto nonce_hash now fingerprint binding

  -- `activateDevice`
  unfoldable pub activate_device :
      ActivateDraw → ℕ → String → String → ActivateRequest → Action ActivateResponse
  unfolding validate_activation_request bearer paid_entitlement activate_locked
  activate_device draw now intent_id header dto = do
    nonce_hash ← lift (validate_activation_request v.platform dto)
    secret ←
        lift
          (or_throw (unauthorized invalid_intent_credential) (bearer creds "SolArchIntent " header))
    entitlement ← paid_entitlement creds v.env intent_id secret dto.device_public_key
    transaction (activate_locked draw now intent_id secret dto nonce_hash entitlement.0)
