-- ===== src/Payments/Commit.antt =====
-- Section 7 of `verifyPayment`: the transaction that turns a verified issuance into a payment and an
-- entitlement.
pub mod Outcome
pub mod Sound
pub mod Once
pub mod Legacy
pub mod Live
use sol_arch.Prelude.{
  ℕ, String, Bool, false, ◌&&◌, Option, none, some, ◌==◌, is_text, if◌then◌else◌,
}
use sol_arch.Table.{find, first}
use sol_arch.Failure.{bad_request, unavailable, invalid_request, backend_unavailable}
use sol_arch.Db.{
  PaymentIntent, Issuance, Payment, Entitlement, Db, IssuanceStatus, PaymentStatus, LeaseStatus,
  is_confirmed, is_issuance_active,
}
use sol_arch.Db.Writes.{
  confirm_intent, set_issuance_status, insert_payment, insert_entitlement, insert_event,
}
use sol_arch.Action.{Action, pure, gets, lift, unless_throw, or_throw, transaction, ◌>>=◌, ◌>>◌}
use sol_arch.Payments.Checks.{
  assert_archive_fingerprint_snapshot, assert_confirmed_payment_bindings,
}

-- The ids of a payment and of its entitlement.
pub record Purchase : Type 0 where
  pub payment_id : String
  pub entitlement_id : String

-- What the verification hands over: the issuance, its signature, its buyer and where it landed.
pub record Verified : Type 0 where
  pub intent_id : String
  pub issuance_id : String
  pub signature : String
  pub buyer_wallet : String
  pub slot : ℕ
  pub block_height : ℕ

-- The payment of an intent, with its id.
unfoldable pub payment_of : String → Db → Option (String × Payment)
payment_of intent_id db = first (λ q. q.payment_intent_id == intent_id) db.payments

unfoldable pub entitlement_of : String → Db → Option (String × Entitlement)
entitlement_of payment_id db = first (λ e. e.payment_id == payment_id) db.entitlements

abbrev pub fingerprint_in : String → Db → Option String
fingerprint_in archive_id db = elim (find archive_id db.archives) [
  | none ↦ none
  | some a ↦ a.archive_fingerprint
]

abbrev entitled : String → Payment → Db → Option (String × Payment × String)
entitled id payment db = elim (entitlement_of id db) [
  | none ↦ none
  | some (e, _) ↦ some (id, payment, e)
]

-- The payment of an intent that is confirmed, with its entitlement's id.
unfoldable pub settled_purchase : String → PaymentIntent → Db → Option (String × Payment × String)
unfolding payment_of entitlement_of
settled_purchase intent_id intent db =
    if is_confirmed intent.status
    then elim (payment_of intent_id db) [ none ↦ none | some (id, q) ↦ entitled id q db ]
    else none

-- The issuance by id, intent and expected signature.
unfoldable pub locked_issuance : Verified → Db → Option Issuance
locked_issuance v db = elim (find v.issuance_id db.issuances) [
  | none ↦ none
  | some s ↦
      if (s.payment_intent_id == v.intent_id)
        && is_text s.expected_transaction_signature v.signature
      then some s
      else none
]

abbrev pub is_eligible : Option Issuance → Bool
is_eligible none = false
is_eligible (some s) = is_issuance_active s.status

unfoldable pub new_payment : Verified → PaymentIntent → Payment
new_payment v intent = record {
  payment_intent_id = v.intent_id;
  archive_id = intent.archive_id;
  buyer_wallet = v.buyer_wallet;
  transaction_signature = v.signature;
  device_public_key = intent.device_public_key;
  status = PaymentStatus.confirmed;
  slot = v.slot;
  block_height = v.block_height;
}

unfoldable pub new_entitlement : Verified → PaymentIntent → String → Entitlement
new_entitlement v intent payment_id = record {
  archive_id = intent.archive_id;
  buyer_wallet = v.buyer_wallet;
  device_public_key = intent.device_public_key;
  payment_id = payment_id;
  status = LeaseStatus.active;
  max_devices = 1;
  devices_activated = 0;
  expires_at = none;
}

-- The five writes; `draw` holds the new ids.
unfoldable pub record_purchase : Purchase → Verified → PaymentIntent → Action Purchase
unfolding new_payment new_entitlement
record_purchase draw v intent = do
  set_issuance_status v.issuance_id IssuanceStatus.consumed
  confirm_intent v.intent_id v.buyer_wallet
  insert_payment draw.payment_id (new_payment v intent)
  insert_entitlement draw.entitlement_id (new_entitlement v intent draw.payment_id)
  insert_event (record { archive_id = intent.archive_id; payment_id = draw.payment_id })
  pure draw

abbrev settle_or_record :
    Purchase → Verified → PaymentIntent → Option (String × Payment × String) → Action Purchase
settle_or_record draw v intent (some (id, payment, entitlement)) = do
  lift (assert_confirmed_payment_bindings intent payment)
  pure (record { payment_id = id; entitlement_id = entitlement })
settle_or_record draw v intent none = do
  issuance ← gets (locked_issuance v)
  lift (unless_throw (is_eligible issuance) (bad_request invalid_request))
  record_purchase draw v intent

unfoldable pub commit_locked : Purchase → Verified → Action Purchase
unfolding record_purchase settled_purchase locked_issuance
commit_locked draw v = do
  found ← gets (λ db. find v.intent_id db.intents)
  intent ← lift (or_throw (unavailable backend_unavailable) found)
  fingerprint ← gets (fingerprint_in intent.archive_id)
  lift (assert_archive_fingerprint_snapshot intent fingerprint)
  settled ← gets (settled_purchase v.intent_id intent)
  settle_or_record draw v intent settled

-- `this.prisma.$transaction(…)` of `verifyPayment`
unfoldable pub commit : Purchase → Verified → Action Purchase
unfolding commit_locked
commit draw v = transaction (commit_locked draw v)
