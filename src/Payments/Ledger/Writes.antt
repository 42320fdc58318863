-- ===== src/Payments/Ledger/Writes.antt =====
-- Each write of the purchase records keeps them sound.
use sol_arch.Prelude.{
  String, ◌≡◌, refl, Bool, true, false, Option, none, some, arith, eq_iff, is_some, is_text_iff,
  if◌then◌else◌, ◌&&◌, ◌||◌,
}
use mathlib.Core.Bool.{and-eq-true_iff}
use sol_arch.Table.{find, put}
use sol_arch.Table.Laws.{find-put, put-IsKeyed}
use sol_arch.Db.{
  PaymentIntent, Payment, Issuance, IntentStatus, IssuanceStatus, Event, Db, is_issuance_active,
}
use sol_arch.Db.Writes.{
  confirmed_buyer_check, keeps_wallet, store_intent, change_intent, with_status, confirmed_for,
  set_intent_status, confirm_intent, set_issuance_status, close_issuance, change_status,
  change_active, change_signature, signature_taken, store_signed, set_expected_signature,
  insert_issuance, insert_event,
}
use sol_arch.Failure.{internal}
use sol_arch.Action.{throw, ◌>>=◌}
use sol_arch.Action.Keeps.{Keeps, if_keeps}
use sol_arch.Payments.Ledger.{IsSound, Backed}

-- The row of an intent written anew, with the buyer and the bindings that it had.
module _ (db : Db) (h : IsSound db) (id : String) (old new : PaymentIntent)
    (stored : find id db.intents ≡ some old) (valid : confirmed_buyer_check new ≡ true)
    (kept : keeps_wallet old.confirmed_buyer_wallet new.confirmed_buyer_wallet ≡ true)
    (same_archive : new.archive_id ≡ old.archive_id)
    (same_device : new.device_public_key ≡ old.device_public_key) where
  put_wallets :
      (j : String) (i : PaymentIntent)
      → find j (put id new db.intents) ≡ some i
      → confirmed_buyer_check i ≡ true
  put_wallets j i e = ground (arith, find-put id j new db.intents, h.wallets j i, eq_iff id j)

  put-Backed :
      (j : String) (p : Payment)
      → find j db.payments ≡ some p
      → Backed (find p.payment_intent_id (put id new db.intents)) p
  put-Backed j p e = ground (
    arith,
    find-put id p.payment_intent_id new db.intents,
    h.backed j p e,
    eq_iff id p.payment_intent_id,
    is_text_iff new.confirmed_buyer_wallet p.buyer_wallet,
  )

  pub put_intent-IsSound : IsSound (record db { intents = put id new db.intents })
  put_intent-IsSound = record {
    keyed_intents = put-IsKeyed id new db.intents h.keyed_intents;
    keyed_payments = h.keyed_payments;
    keyed_entitlements = h.keyed_entitlements;
    wallets = put_wallets;
    backed = put-Backed;
    one_payment = h.one_payment;
    one_signature = h.one_signature;
    entitled = h.entitled;
    one_entitlement = h.one_entitlement;
  }

module _ (db : Db) (h : IsSound db) (id : String) where
  store_intent-IsSound :
      (old new : PaymentIntent)
      → find id db.intents ≡ some old
      → new.archive_id ≡ old.archive_id
      → new.device_public_key ≡ old.device_public_key
      → IsSound (store_intent id old new db).1
  unfolding ◌>>=◌
  store_intent-IsSound old new stored archive device =
      if_keeps IsSound
        (confirmed_buyer_check new
          && keeps_wallet old.confirmed_buyer_wallet new.confirmed_buyer_wallet)
        _ _ db
        (λ fine.
          put_intent-IsSound db h id old new stored ((and-eq-true_iff _ _).0 fine).0
            ((and-eq-true_iff _ _).0 fine).1 archive device)
        (λ refused. h)

  change_intent-IsSound :
      (change : PaymentIntent → PaymentIntent) (found : Option PaymentIntent)
      → find id db.intents ≡ found
      → ((i : PaymentIntent) → (change i).archive_id ≡ i.archive_id)
      → ((i : PaymentIntent) → (change i).device_public_key ≡ i.device_public_key)
      → IsSound (change_intent id change found db).1
  unfolding ◌>>=◌
  change_intent-IsSound change none e archive device = h
  change_intent-IsSound change (some old) e archive device =
      store_intent-IsSound old (change old) e (archive old) (device old)

pub set_intent_status-IsSound :
    (id : String) (status : IntentStatus) → Keeps IsSound (set_intent_status id status)
unfolding set_intent_status
set_intent_status-IsSound id status = record {
  at = λ db h.
      change_intent-IsSound db h id (with_status status) (find id db.intents) refl (λ i. refl)
        (λ i. refl);
}

pub confirm_intent-IsSound : (id wallet : String) → Keeps IsSound (confirm_intent id wallet)
unfolding confirm_intent
confirm_intent-IsSound id wallet = record {
  at = λ db h.
      change_intent-IsSound db h id (confirmed_for wallet) (find id db.intents) refl (λ i. refl)
        (λ i. refl);
}

pub set_issuance_status-IsSound :
    (id : String) (status : IssuanceStatus) → Keeps IsSound (set_issuance_status id status)
unfolding set_issuance_status ◌>>=◌
set_issuance_status-IsSound id status = record { at = λ db h. at_row (find id db.issuances) db h }
  where
    at_row :
        (found : Option Issuance) (db : Db)
        → IsSound db
        → IsSound (change_status id status found db).1
    at_row none db h = h
    at_row (some s) db h = h

pub close_issuance-IsSound :
    (id : String) (status : IssuanceStatus) → Keeps IsSound (close_issuance id status)
unfolding close_issuance ◌>>=◌
close_issuance-IsSound id status = record { at = λ db h. at_row (find id db.issuances) db h }
  where
    at_row :
        (found : Option Issuance) (db : Db)
        → IsSound db
        → IsSound (change_active id status found db).1
    at_row none db h = h
    at_row (some s) db h = if_keeps IsSound (is_issuance_active s.status) _ _ db (λ _. h) (λ _. h)

pub set_expected_signature-IsSound :
    (id signature : String) → Keeps IsSound (set_expected_signature id signature)
unfolding set_expected_signature ◌>>=◌
set_expected_signature-IsSound id signature = record {
  at = λ db h. at_row (signature_taken signature db) (find id db.issuances) db h;
}
  where
    at_row :
        (taken : Bool) (found : Option Issuance) (db : Db)
        → IsSound db
        → IsSound (change_signature id signature taken found db).1
    at_row taken none db h = h
    at_row true (some s) db h = h
    at_row false (some s) db h = h

pub insert_issuance-IsSound :
    (id signature : String) (s : Issuance) → Keeps IsSound (insert_issuance id signature s)
unfolding insert_issuance ◌>>=◌
insert_issuance-IsSound id signature s = record {
  at = λ db h. at_test (is_some (find id db.issuances) || signature_taken signature db) db h;
}
  where
    at_test :
        (refused : Bool) (db : Db)
        → IsSound db
        → IsSound (if refused then throw internal db else store_signed id signature s db).1
    at_test true db h = h
    at_test false db h = h

pub insert_event-IsSound : (e : Event) → Keeps IsSound (insert_event e)
unfolding insert_event ◌>>=◌
insert_event-IsSound e = record { at = λ db h. h }
