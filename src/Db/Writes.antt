-- ===== src/Db/Writes.antt =====
-- The writes of the Prisma client, with the constraints and triggers of
-- apps/api/prisma/migrations that can refuse them. A refused write throws.
use sol_arch.Prelude.{
  String, Bool, true, not, ◌&&◌, ◌||◌, Option, none, some, ◌∷◌, ◌==◌, is_text, is_some,
  if◌then◌else◌,
}
use sol_arch.Table.{find, put, first}
use sol_arch.Failure.{internal}
use sol_arch.Db.{
  PaymentIntent, Issuance, Payment, Entitlement, Event, Db, IntentStatus, IssuanceStatus,
  is_confirmed, is_issuance_active,
}
use sol_arch.Action.{Action, pure, throw, modify}

-- CHECK "payment_intents_confirmed_buyer_check"
abbrev pub confirmed_buyer_check : PaymentIntent → Bool
confirmed_buyer_check i =
    if is_confirmed i.status
    then is_some i.confirmed_buyer_wallet
    else not (is_some i.confirmed_buyer_wallet)

-- TRIGGER "payment_intents_snapshot_immutable", for the one column of its list that is updated
abbrev pub keeps_wallet : Option String → Option String → Bool
keeps_wallet none new = true
keeps_wallet (some w) new = is_text new w

abbrev pub store_intent : String → PaymentIntent → PaymentIntent → Action (Unit {0})
store_intent id old new =
    if confirmed_buyer_check new
      && keeps_wallet old.confirmed_buyer_wallet new.confirmed_buyer_wallet
    then modify (λ db. record db { intents = put id new db.intents })
    else throw internal

abbrev pub change_intent :
    String → (PaymentIntent → PaymentIntent) → Option PaymentIntent → Action (Unit {0})
change_intent id change none = throw internal
change_intent id change (some old) = store_intent id old (change old)

abbrev pub write_intent : String → (PaymentIntent → PaymentIntent) → Action (Unit {0})
write_intent id change db = change_intent id change (find id db.intents) db

abbrev pub with_status : IntentStatus → PaymentIntent → PaymentIntent
with_status status i = record i { status = status }

abbrev pub confirmed_for : String → PaymentIntent → PaymentIntent
confirmed_for wallet i = record i {
  status = IntentStatus.confirmed;
  confirmed_buyer_wallet = some wallet;
}

-- `paymentIntent.update({ where: { id }, data: { status } })`
unfoldable pub set_intent_status : String → IntentStatus → Action (Unit {0})
set_intent_status id status = write_intent id (with_status status)

-- `paymentIntent.update({ where: { id }, data: { status: 'confirmed', confirmedBuyerWallet } })`
unfoldable pub confirm_intent : String → String → Action (Unit {0})
confirm_intent id wallet = write_intent id (confirmed_for wallet)

-- `paymentIntent.create`; `id`, `client_secret_hmac` and `reference` are unique
unfoldable pub insert_intent : String → PaymentIntent → Action (Unit {0})
insert_intent id i db =
    if is_some (find id db.intents)
      || is_some (first (λ j. j.client_secret_hmac == i.client_secret_hmac) db.intents)
      || is_some (first (λ j. j.reference == i.reference) db.intents)
      || not (confirmed_buyer_check i)
    then throw internal db
    else modify (λ d. record d { intents = put id i d.intents }) db

abbrev pub write_status : String → IssuanceStatus → Issuance → Action (Unit {0})
write_status id status s =
    modify (λ db. record db { issuances = put id (record s { status = status }) db.issuances })

abbrev pub change_status : String → IssuanceStatus → Option Issuance → Action (Unit {0})
change_status id status none = throw internal
change_status id status (some s) = write_status id status s

-- `paymentTransactionIssuance.update({ where: { id }, data: { status } })`
unfoldable pub set_issuance_status : String → IssuanceStatus → Action (Unit {0})
set_issuance_status id status db = change_status id status (find id db.issuances) db

abbrev pub change_active : String → IssuanceStatus → Option Issuance → Action (Unit {0})
change_active id status none = pure tt
change_active id status (some s) =
    if is_issuance_active s.status then write_status id status s else pure tt

-- `paymentTransactionIssuance.updateMany({ where: { id, status: 'active' }, data: { status } })`
unfoldable pub close_issuance : String → IssuanceStatus → Action (Unit {0})
close_issuance id status db = change_active id status (find id db.issuances) db

-- another issuance with the expected signature
abbrev pub signature_taken : String → Db → Bool
signature_taken signature db =
    is_some (first (λ s. is_text s.expected_transaction_signature signature) db.issuances)

abbrev pub store_signed : String → String → Issuance → Action (Unit {0})
store_signed id signature s = modify (λ db. record db {
  issuances = put id (record s { expected_transaction_signature = some signature }) db.issuances;
})

abbrev pub change_signature : String → String → Bool → Option Issuance → Action (Unit {0})
change_signature id signature taken none = throw internal
change_signature id signature taken (some s) =
    if taken then throw internal else store_signed id signature s

-- `paymentTransactionIssuance.update({ where: { id }, data: { expectedTransactionSignature } })`
unfoldable pub set_expected_signature : String → String → Action (Unit {0})
set_expected_signature id signature db =
    change_signature id signature (signature_taken signature db) (find id db.issuances) db

-- `paymentTransactionIssuance.create`
unfoldable pub insert_issuance : String → String → Issuance → Action (Unit {0})
insert_issuance id signature s db =
    if is_some (find id db.issuances) || signature_taken signature db
    then throw internal db
    else store_signed id signature s db

-- `payment.create`; `payment_intent_id` and `transaction_signature` are unique
unfoldable pub insert_payment : String → Payment → Action (Unit {0})
insert_payment id p db =
    if is_some (find id db.payments)
      || is_some (first (λ q. q.payment_intent_id == p.payment_intent_id) db.payments)
      || is_some (first (λ q. q.transaction_signature == p.transaction_signature) db.payments)
    then throw internal db
    else modify (λ d. record d { payments = put id p d.payments }) db

-- `entitlement.create`; `payment_id` is unique
unfoldable pub insert_entitlement : String → Entitlement → Action (Unit {0})
insert_entitlement id e db =
    if is_some (find id db.entitlements)
      || is_some (first (λ f. f.payment_id == e.payment_id) db.entitlements)
    then throw internal db
    else modify (λ d. record d { entitlements = put id e d.entitlements }) db

-- `marketplaceEvent.create`
unfoldable pub insert_event : Event → Action (Unit {0})
insert_event e = modify (λ db. record db { events = e ∷ db.events })
