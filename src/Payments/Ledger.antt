-- ===== src/Payments/Ledger.antt =====
-- The purchase records of the database: what ties intents, payments and entitlements together.
pub mod Writes
pub mod Inserts
pub mod History
pub mod Persistence
use sol_arch.Prelude.{String, ◌≡◌, Bool, true, Option, none, some}
use sol_arch.Table.{Table, find}
use sol_arch.Table.Laws.{IsKeyed}
use sol_arch.Db.{PaymentIntent, Payment, Entitlement, IntentStatus, Db}
use sol_arch.Db.Writes.{confirmed_buyer_check}

-- The intent of a payment is confirmed for the payment's buyer, archive and device.
abbrev pub Backed : Option PaymentIntent → Payment → Type 0
Backed none p = ⊥
Backed (some i) p =
    (i.status ≡ IntentStatus.confirmed)
    × (i.confirmed_buyer_wallet ≡ some p.buyer_wallet)
    × (i.archive_id ≡ p.archive_id)
    × (i.device_public_key ≡ p.device_public_key)

-- An entitlement is for the buyer, archive and device of its payment.
abbrev pub Entitled : Option Payment → Entitlement → Type 0
Entitled none e = ⊥
Entitled (some p) e =
    (p.buyer_wallet ≡ e.buyer_wallet)
    × (p.archive_id ≡ e.archive_id)
    × (p.device_public_key ≡ e.device_public_key)

pub record SoundPurchases (intents : Table PaymentIntent) (payments : Table Payment)
    (entitlements : Table Entitlement) : Type 0 where
  pub keyed_intents : IsKeyed intents
  pub keyed_payments : IsKeyed payments
  pub keyed_entitlements : IsKeyed entitlements
  -- the buyer's wallet is set exactly where the intent is confirmed
  pub wallets :
      (id : String) (i : PaymentIntent) → find id intents ≡ some i → confirmed_buyer_check i ≡ true
  pub backed :
      (id : String) (p : Payment)
      → find id payments ≡ some p
      → Backed (find p.payment_intent_id intents) p
  -- an intent has one payment
  pub one_payment :
      (a b : String) (p q : Payment)
      → find a payments ≡ some p
      → find b payments ≡ some q
      → p.payment_intent_id ≡ q.payment_intent_id
      → a ≡ b
  -- a transaction on the chain pays once
  pub one_signature :
      (a b : String) (p q : Payment)
      → find a payments ≡ some p
      → find b payments ≡ some q
      → p.transaction_signature ≡ q.transaction_signature
      → a ≡ b
  pub entitled :
      (id : String) (e : Entitlement)
      → find id entitlements ≡ some e
      → Entitled (find e.payment_id payments) e
  -- a payment has one entitlement
  pub one_entitlement :
      (a b : String) (e f : Entitlement)
      → find a entitlements ≡ some e
      → find b entitlements ≡ some f
      → e.payment_id ≡ f.payment_id
      → a ≡ b

abbrev pub IsSound : Db → Type 0
IsSound db = SoundPurchases db.intents db.payments db.entitlements
