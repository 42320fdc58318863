-- ===== src/Payments/Commit/Outcome.antt =====
-- What a committed purchase has written, column by column.
use sol_arch.Prelude.{◌≡◌, ◌∷◌, true, none, some, arith, ◌==◌}
use sol_arch.Table.{find, put, first}
use sol_arch.Db.{PaymentIntent, Issuance, IssuanceStatus, Db}
use sol_arch.Db.Writes.{
  set_issuance_status, confirm_intent, insert_payment, insert_entitlement, insert_event,
  confirmed_for, keeps_wallet,
}
use sol_arch.Action.{ok, ◌>>=◌}
use sol_arch.Payments.Commit.{Purchase, Verified, new_payment, new_entitlement, record_purchase}

-- The database behind the five writes.
abbrev pub purchased : Purchase → Verified → PaymentIntent → Issuance → Db → Db
purchased draw v intent s db = record db {
  issuances = put v.issuance_id (record s { status = IssuanceStatus.consumed }) db.issuances;
  intents = put v.intent_id (confirmed_for v.buyer_wallet intent) db.intents;
  payments = put draw.payment_id (new_payment v intent) db.payments;
  entitlements = put draw.entitlement_id (new_entitlement v intent draw.payment_id) db.entitlements;
  events = record { archive_id = intent.archive_id; payment_id = draw.payment_id } ∷ db.events;
}

module _ (draw : Purchase) (v : Verified) (intent : PaymentIntent) (s : Issuance) (db db' : Db)
    (r : Purchase) (stored : find v.intent_id db.intents ≡ some intent)
    (issued : find v.issuance_id db.issuances ≡ some s)
    (done : record_purchase draw v intent db ≡ (ok r, db')) where
  pub record_purchase_writes : db' ≡ purchased draw v intent s db
  unfolding record_purchase set_issuance_status confirm_intent insert_payment insert_entitlement
      insert_event ◌>>=◌
  record_purchase_writes = ground arith

  pub record_purchase_fresh :
      (r ≡ draw)
      × (find draw.payment_id db.payments ≡ none)
      × (first (λ q. q.payment_intent_id == v.intent_id) db.payments ≡ none)
      × (first (λ q. q.transaction_signature == v.signature) db.payments ≡ none)
      × (first (λ e. e.payment_id == draw.payment_id) db.entitlements ≡ none)
      × (find draw.entitlement_id db.entitlements ≡ none)
      × (keeps_wallet intent.confirmed_buyer_wallet (some v.buyer_wallet) ≡ true)
  unfolding record_purchase set_issuance_status confirm_intent insert_payment insert_entitlement
      insert_event ◌>>=◌
  record_purchase_fresh = ground arith
