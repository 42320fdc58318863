-- ===== src/Payments/Verify.antt =====
-- `verifyPayment`: from the credential of an intent to its payment and entitlement.
pub mod ChainStatus
pub mod Proven
pub mod Sound
use sol_arch.Prelude.{
  ℕ, String, Bool, ◌&&◌, Option, none, some, ◌==◌, leb, ltb, is_text, truthy, trim, strip_prefix,
  if◌then◌else◌,
}
use sol_arch.Table.{first}
use sol_arch.Failure.{
  bad_request, unauthorized, forbidden, conflict, gone, unavailable, invalid_request,
  invalid_intent_credential, device_binding_mismatch, payment_failed, payment_intent_expired,
  backend_unavailable,
}
use sol_arch.Db.{PaymentIntent, Issuance, Payment, Db, IntentStatus, IssuanceStatus, is_confirmed}
use sol_arch.Db.Writes.{set_intent_status, close_issuance}
use sol_arch.Action.{
  Result, ok, err, Action, pure, throw, gets, lift, unless_throw, or_throw, ◌>>=◌, ◌>>◌, ◌&&=◌,
}
use sol_arch.Platform.{Platform, Env, Credentials}
use sol_arch.Platform.Chain.{Chain, Rpc, answer, rpc_error, SignatureStatus, is_finalized}
use sol_arch.Crypto.DeviceKey.{is_device_key}
use sol_arch.Payments.Checks.{
  assert_archive_fingerprint_snapshot, assert_confirmed_payment_bindings, is_canonical_signature,
  signature_from_serialized,
}
use sol_arch.Payments.Issue.{active_issuance}
use sol_arch.Payments.Evidence.{Landed, or_backend, landed, checklist}
use sol_arch.Payments.Commit.{
  Purchase, Verified, payment_of, entitlement_of, fingerprint_in, commit,
}

pub record VerifyRequest : Type 0 where
  pub device_public_key : String
  pub transaction_signature : Option String

pub record Confirmed : Type 0 where
  pub purchase : Purchase
  pub archive_id : String
  pub archive_fingerprint : String
  pub device_public_key : String

pub data VerifyResponse : Type 0 where
  pending awaiting_finality : VerifyResponse
  confirmed : Confirmed → VerifyResponse

-- The token behind the scheme's name in an `Authorization` header.
unfoldable pub bearer : Credentials → String → String → Option String
bearer creds scheme header = elim (strip_prefix scheme header) [
  | none ↦ none
  | some rest ↦ if creds.validate (trim rest) then some (trim rest) else none
]

-- The intent that a client secret belongs to, if it is the intent of the request.
unfoldable pub intent_of_secret : Credentials → Env → String → String → Db → Option PaymentIntent
intent_of_secret creds env intent_id secret db =
    let hmac = creds.hash_intent secret env.intent_hmac_secret in
    elim (first (λ i. i.client_secret_hmac == hmac) db.intents) [
      | none ↦ none
      | some (id, i) ↦
          if creds.verify_intent secret i.client_secret_hmac env.intent_hmac_secret
            && (id == intent_id)
          then some i
          else none
    ]

unfoldable pub authenticate : Credentials → Env → String → String → Action PaymentIntent
unfolding bearer intent_of_secret
authenticate creds env intent_id header = do
  secret ←
      lift
        (or_throw (unauthorized invalid_intent_credential) (bearer creds "SolArchIntent " header))
  found ← gets (intent_of_secret creds env intent_id secret)
  lift (or_throw (unauthorized invalid_intent_credential) found)

-- The device of the request, and the states that are closed.
unfoldable pub open_intent : PaymentIntent → String → Result (Unit {0})
open_intent i device =
    unless_throw (i.device_public_key == device) (conflict device_binding_mismatch) &&= λ _.
    elim i.status [
      | IntentStatus.failed ↦ err (forbidden payment_failed)
      | IntentStatus.expired ↦ err (gone payment_intent_expired)
      | _ ↦ ok tt
    ]

abbrev pub confirmed_response : PaymentIntent → Purchase → VerifyResponse
confirmed_response i purchase = confirmed (record {
  purchase = purchase;
  archive_id = i.archive_id;
  archive_fingerprint = i.archive_fingerprint;
  device_public_key = i.device_public_key;
})

-- A payment that is recorded already: its entitlement and its bindings.
unfoldable pub recorded : PaymentIntent → String → Payment → Action VerifyResponse
unfolding entitlement_of assert_confirmed_payment_bindings
recorded i payment_id payment = do
  found ← gets (entitlement_of payment_id)
  entitlement ← lift (or_throw (unavailable backend_unavailable) found)
  lift (assert_confirmed_payment_bindings i payment)
  pure (confirmed_response i (record { payment_id = payment_id; entitlement_id = entitlement.0 }))

-- The idempotent answer for an intent that is confirmed.
unfoldable pub already_confirmed : String → PaymentIntent → Action VerifyResponse
unfolding payment_of recorded
already_confirmed intent_id i = do
  found ← gets (payment_of intent_id)
  payment ← lift (or_throw (unavailable backend_unavailable) found)
  recorded i payment.0 payment.1

-- An issuance with the signature that it is looked up by.
pub record Candidate : Type 0 where
  pub issuance_id : String
  pub issuance : Issuance
  pub signature : String

module _ (p : Platform) where
  -- the signature that is stored, or that the serialized transaction carries
  unfoldable pub stored_or_recovered : Issuance → Result String
  stored_or_recovered s = elim (truthy s.expected_transaction_signature) [
    | some signature ↦
        if is_canonical_signature p signature
        then ok signature
        else err (unavailable backend_unavailable)
    | none ↦ signature_from_serialized p s.serialized_transaction
  ]

  abbrev named_issuance : String → String → Db → Option (String × Issuance)
  named_issuance intent_id signature db =
      first
        (λ s.
          (s.payment_intent_id == intent_id) && is_text s.expected_transaction_signature signature)
        db.issuances

  abbrev pub active_candidate : Option (String × Issuance) → Action (Option Candidate)
  active_candidate none = pure none
  active_candidate (some (id, s)) = do
    signature ← lift (stored_or_recovered s)
    pure (some (record { issuance_id = id; issuance = s; signature = signature }))

  -- The issuance that the request names, or else the active one.
  unfoldable pub candidate : String → Option String → Action (Option Candidate)
  unfolding stored_or_recovered
  candidate intent_id (some signature) = do
    found ← gets (named_issuance intent_id signature)
    named ← lift (or_throw (bad_request invalid_request) found)
    pure (some (record { issuance_id = named.0; issuance = named.1; signature = signature }))
  candidate intent_id none = do active ← gets (active_issuance intent_id); active_candidate active

-- `expired` written and thrown, once the intent's time is over
abbrev pub expire_when : Bool → String → VerifyResponse → Action VerifyResponse
expire_when late intent_id response =
    if late
    then (set_intent_status intent_id IntentStatus.expired >> throw (gone payment_intent_expired))
    else pure response

-- What the status of the signature leads to before the transaction itself is read: an answer, or
-- the slot of a finalized success.
pub data Progress : Type 0 where
  answered : VerifyResponse → Progress
  at_slot : ℕ → Progress

module _ (chain : Chain) (now : ℕ) (intent_id : String) (i : PaymentIntent) (c : Candidate) where
  abbrev is_late : Bool
  is_late = leb i.expires_at now

  -- no status: the issuance ends with its block height
  unfoldable pub unseen : Action VerifyResponse
  unseen = do
    height ← lift (or_backend chain.block_height)
    if ltb c.issuance.last_valid_block_height height
        then (close_issuance c.issuance_id IssuanceStatus.expired
            >> expire_when is_late intent_id pending)
        else pure pending

  -- an error that is final
  unfoldable pub failed_on_chain : Action VerifyResponse
  failed_on_chain = do
    close_issuance c.issuance_id IssuanceStatus.failed
    if is_late
        then (set_intent_status intent_id IntentStatus.failed >> throw (forbidden payment_failed))
        else pure pending

  -- no error, and not final yet
  unfoldable pub unsettled : SignatureStatus → Action VerifyResponse
  unsettled s =
      if s.failed
      then pure pending
      else (set_intent_status intent_id IntentStatus.awaiting_finality >> pure awaiting_finality)

  abbrev pub finalized_status : SignatureStatus → Action Progress
  finalized_status s =
      if s.failed
      then (failed_on_chain >>= λ r. pure (answered r))
      else (lift (or_throw (unavailable backend_unavailable) s.slot) >>= λ slot.
          pure (at_slot slot))

  unfoldable pub seen : SignatureStatus → Action Progress
  unfolding failed_on_chain unsettled
  seen s =
      if is_finalized s.confirmation
      then finalized_status s
      else (unsettled s >>= λ r. pure (answered r))

  abbrev pub status_progress : Option SignatureStatus → Action Progress
  status_progress none = unseen >>= λ r. pure (answered r)
  status_progress (some s) = seen s

  -- Section 4: the status of the signature
  unfoldable pub chain_status : Action Progress
  unfolding unseen seen
  chain_status = do
    status ← lift (or_backend (chain.signature_status c.signature))
    status_progress status

  abbrev pub verified : ℕ → Landed → Verified
  verified slot l = record {
    intent_id = intent_id;
    issuance_id = c.issuance_id;
    signature = c.signature;
    buyer_wallet = c.issuance.construction_account;
    slot = slot;
    block_height = l.block_height;
  }

  module _ (p : Platform) (env : Env) (draw : Purchase) where
    unfoldable pub check_and_commit : ℕ → Landed → Action VerifyResponse
    check_and_commit slot l =
        if l.tx.failed
        then (close_issuance c.issuance_id IssuanceStatus.failed >> pure pending)
        else do
          lift (checklist p env i c.issuance l)
          purchase ← commit draw (verified slot l)
          pure (confirmed_response i purchase)

    abbrev pub on_progress : Progress → Action VerifyResponse
    on_progress (answered r) = pure r
    on_progress (at_slot slot) = do
      l ← lift (landed chain c.signature slot)
      check_and_commit slot l

    -- Sections 4 to 7, for an issuance whose signature is not recorded yet.
    unfoldable pub verify_on_chain : Action VerifyResponse
    unfolding check_and_commit chain_status
    verify_on_chain = do progress ← chain_status; on_progress progress

module _ (p : Platform) (env : Env) (creds : Credentials) (chain : Chain) (draw : Purchase)
    (now : ℕ) where
  abbrev pub recorded_elsewhere :
      String → PaymentIntent → Candidate → Option (String × Payment) → Action VerifyResponse
  recorded_elsewhere intent_id i c none = verify_on_chain chain now intent_id i c p env draw
  recorded_elsewhere intent_id i c (some (id, q)) = do
    lift (unless_throw (q.payment_intent_id == intent_id) (conflict invalid_request))
    recorded i id q

  -- A committed payment is idempotent, for the exact issuance.
  unfoldable pub verify_candidate :
      String → PaymentIntent → Option Candidate → Action VerifyResponse
  unfolding recorded verify_on_chain
  verify_candidate intent_id i none = expire_when (leb i.expires_at now) intent_id pending
  verify_candidate intent_id i (some c) = do
    existing ← gets (λ db. first (λ q. q.transaction_signature == c.signature) db.payments)
    recorded_elsewhere intent_id i c existing

  -- Sections 2 to 7, for an authenticated intent.
  unfoldable pub verify_intent : String → VerifyRequest → PaymentIntent → Action VerifyResponse
  unfolding verify_candidate already_confirmed candidate open_intent
  verify_intent intent_id dto i = do
    lift (open_intent i dto.device_public_key)
    fingerprint ← gets (fingerprint_in i.archive_id)
    lift (assert_archive_fingerprint_snapshot i fingerprint)
    if is_confirmed i.status
        then already_confirmed intent_id i
        else (candidate p intent_id (truthy dto.transaction_signature) >>= λ found.
            verify_candidate intent_id i found)

  -- the checks that come before the credential
  unfoldable pub well_formed : VerifyRequest → Result (Unit {0})
  well_formed dto =
      elim dto.transaction_signature [
        | none ↦ ok tt
        | some s ↦ unless_throw (is_canonical_signature p s) (bad_request invalid_request)
      ]
      &&= λ _. unless_throw (is_device_key p dto.device_public_key) (bad_request invalid_request)

  -- `verifyPayment`
  unfoldable pub verify_payment : String → String → VerifyRequest → Action VerifyResponse
  unfolding well_formed authenticate verify_intent
  verify_payment intent_id header dto = do
    lift (well_formed dto)
    i ← authenticate creds env intent_id header
    verify_intent intent_id dto i
