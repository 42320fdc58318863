-- ===== src/Payments/Ledger/Inserts.antt =====
-- A new intent, payment or entitlement keeps the purchase records sound.
use sol_arch.Prelude.{String, ◌≡◌, true, none, arith, eq_iff, ◌==◌}
use sol_arch.Table.{find, put, first}
use sol_arch.Table.Laws.{find-put, put-IsKeyed, first-none}
use sol_arch.Db.{PaymentIntent, Payment, Entitlement, Db}
use sol_arch.Db.Writes.{confirmed_buyer_check, insert_intent, insert_payment, insert_entitlement}
use sol_arch.Action.{◌>>=◌}
use sol_arch.Action.Keeps.{Keeps, if_leaves}
use sol_arch.Payments.Ledger.{IsSound, Backed, Entitled}

module _ (db : Db) (h : IsSound db) (id : String) where
  new_intent-IsSound :
      (i : PaymentIntent)
      → find id db.intents ≡ none
      → confirmed_buyer_check i ≡ true
      → IsSound (record db { intents = put id i db.intents })
  new_intent-IsSound i fresh valid = record {
    keyed_intents = put-IsKeyed id i db.intents h.keyed_intents;
    keyed_payments = h.keyed_payments;
    keyed_entitlements = h.keyed_entitlements;
    wallets = λ j k e. ground (arith, find-put id j i db.intents, h.wallets j k);
    backed = λ j p e. ground (
      arith,
      find-put id p.payment_intent_id i db.intents,
      h.backed j p e,
      eq_iff id p.payment_intent_id,
    );
    one_payment = h.one_payment;
    one_signature = h.one_signature;
    entitled = h.entitled;
    one_entitlement = h.one_entitlement;
  }

  pub new_payment-IsSound :
      (p : Payment)
      → find id db.payments ≡ none
      → first (λ q. q.payment_intent_id == p.payment_intent_id) db.payments ≡ none
      → first (λ q. q.transaction_signature == p.transaction_signature) db.payments ≡ none
      → Backed (find p.payment_intent_id db.intents) p
      → IsSound (record db { payments = put id p db.payments })
  new_payment-IsSound p fresh one_intent one_sig backed = record {
    keyed_intents = h.keyed_intents;
    keyed_payments = put-IsKeyed id p db.payments h.keyed_payments;
    keyed_entitlements = h.keyed_entitlements;
    wallets = h.wallets;
    backed = λ j q e. ground (arith, find-put id j p db.payments, h.backed j q);
    one_payment = λ a b q r ea eb same. ground (
      arith,
      find-put id a p db.payments,
      find-put id b p db.payments,
      eq_iff id a,
      eq_iff id b,
      h.one_payment a b q r,
      first-none _ db.payments a q one_intent,
      first-none _ db.payments b r one_intent,
      eq_iff q.payment_intent_id p.payment_intent_id,
      eq_iff r.payment_intent_id p.payment_intent_id,
    );
    one_signature = λ a b q r ea eb same. ground (
      arith,
      find-put id a p db.payments,
      find-put id b p db.payments,
      eq_iff id a,
      eq_iff id b,
      h.one_signature a b q r,
      first-none _ db.payments a q one_sig,
      first-none _ db.payments b r one_sig,
      eq_iff q.transaction_signature p.transaction_signature,
      eq_iff r.transaction_signature p.transaction_signature,
    );
    entitled = λ j f e.
        ground
          (arith, find-put id f.payment_id p db.payments, h.entitled j f e, eq_iff id f.payment_id);
    one_entitlement = h.one_entitlement;
  }

  pub new_entitlement-IsSound :
      (e : Entitlement)
      → first (λ f. f.payment_id == e.payment_id) db.entitlements ≡ none
      → Entitled (find e.payment_id db.payments) e
      → IsSound (record db { entitlements = put id e db.entitlements })
  new_entitlement-IsSound e one_pay entitled = record {
    keyed_intents = h.keyed_intents;
    keyed_payments = h.keyed_payments;
    keyed_entitlements = put-IsKeyed id e db.entitlements h.keyed_entitlements;
    wallets = h.wallets;
    backed = h.backed;
    one_payment = h.one_payment;
    one_signature = h.one_signature;
    entitled = λ j f stored. ground (arith, find-put id j e db.entitlements, h.entitled j f);
    one_entitlement = λ a b f g ea eb same. ground (
      arith,
      find-put id a e db.entitlements,
      find-put id b e db.entitlements,
      eq_iff id a,
      eq_iff id b,
      h.one_entitlement a b f g,
      first-none _ db.entitlements a f one_pay,
      first-none _ db.entitlements b g one_pay,
      eq_iff f.payment_id e.payment_id,
      eq_iff g.payment_id e.payment_id,
    );
  }

pub insert_intent-IsSound : (id : String) (i : PaymentIntent) → Keeps IsSound (insert_intent id i)
unfolding insert_intent ◌>>=◌
insert_intent-IsSound id i = record {
  at = λ db h.
      if_leaves IsSound _ _ _ (λ refused. h)
        (λ accepted. new_intent-IsSound db h id i (ground arith) (ground arith));
}

pub insert_payment-IsSound :
    (id : String) (p : Payment) (db : Db)
    → IsSound db
    → Backed (find p.payment_intent_id db.intents) p
    → IsSound (insert_payment id p db).1
unfolding insert_payment ◌>>=◌
insert_payment-IsSound id p db h backed =
    if_leaves IsSound _ _ _ (λ refused. h)
      (λ accepted.
        new_payment-IsSound db h id p (ground arith) (ground arith) (ground arith) backed)

pub insert_entitlement-IsSound :
    (id : String) (e : Entitlement) (db : Db)
    → IsSound db
    → Entitled (find e.payment_id db.payments) e
    → IsSound (insert_entitlement id e db).1
unfolding insert_entitlement ◌>>=◌
insert_entitlement-IsSound id e db h entitled =
    if_leaves IsSound _ _ _ (λ refused. h)
      (λ accepted. new_entitlement-IsSound db h id e (ground arith) entitled)
