-- ===== src/Payments/Ledger/History.antt =====
-- The purchase records under any interleaving. `verifyPayment` writes outside a transaction and waits
-- for the chain between its writes, so the steps are the single writes and the transactions of all the
-- handlers, in any order and with any arguments.
use sol_arch.Prelude.{String}
use sol_arch.Db.{PaymentIntent, Issuance, IntentStatus, IssuanceStatus, Db}
use sol_arch.Db.Writes.{
  set_intent_status, set_issuance_status, close_issuance, set_expected_signature, insert_issuance,
  insert_intent,
}
use sol_arch.Payments.Commit.{Purchase, Verified, commit}
use sol_arch.Payments.Commit.Sound.{commit-IsSound}
use sol_arch.Payments.Handlers.{KeptByWrites}
use sol_arch.Payments.Ledger.{IsSound}
use sol_arch.Payments.Ledger.Writes.{
  set_intent_status-IsSound, set_issuance_status-IsSound, close_issuance-IsSound,
  set_expected_signature-IsSound, insert_issuance-IsSound,
}
use sol_arch.Payments.Ledger.Inserts.{insert_intent-IsSound}

pub data Step (db : Db) : Db → Type 0 where
  sets_intent : (id : String) (status : IntentStatus) → Step db (set_intent_status id status db).1
  sets_issuance :
      (id : String) (status : IssuanceStatus) → Step db (set_issuance_status id status db).1
  closes : (id : String) (status : IssuanceStatus) → Step db (close_issuance id status db).1
  signs : (id signature : String) → Step db (set_expected_signature id signature db).1
  issues : (id signature : String) (s : Issuance) → Step db (insert_issuance id signature s db).1
  creates : (id : String) (i : PaymentIntent) → Step db (insert_intent id i db).1
  commits : (draw : Purchase) (v : Verified) → Step db (commit draw v db).1

pub data Reach (start : Db) : Db → Type 0 where
  here : Reach start start
  next : {a b : Db} → Reach start a → Step a b → Reach start b

-- The writes of every handler are steps.
pub Reach-KeptByWrites : (start : Db) → KeptByWrites (Reach start)
Reach-KeptByWrites start = record {
  on_status = λ id status. record { at = λ db h. next h (sets_intent id status) };
  on_issuance = λ id status. record { at = λ db h. next h (sets_issuance id status) };
  on_close = λ id status. record { at = λ db h. next h (closes id status) };
  on_signature = λ id signature. record { at = λ db h. next h (signs id signature) };
  on_issue = λ id signature s. record { at = λ db h. next h (issues id signature s) };
  on_intent = λ id i. record { at = λ db h. next h (creates id i) };
  on_commit = λ draw v. record { at = λ db h. next h (commits draw v) };
}

pub IsSound-KeptByWrites : KeptByWrites IsSound
IsSound-KeptByWrites = record {
  on_status = set_intent_status-IsSound;
  on_issuance = set_issuance_status-IsSound;
  on_close = close_issuance-IsSound;
  on_signature = set_expected_signature-IsSound;
  on_issue = insert_issuance-IsSound;
  on_intent = insert_intent-IsSound;
  on_commit = commit-IsSound;
}

module _ {P : Db → Type 0} (w : KeptByWrites P) where
  Step_keeps : {a b : Db} → Step a b → P a → P b
  Step_keeps {a} (sets_intent id status) h = (w.on_status id status).at a h
  Step_keeps {a} (sets_issuance id status) h = (w.on_issuance id status).at a h
  Step_keeps {a} (closes id status) h = (w.on_close id status).at a h
  Step_keeps {a} (signs id signature) h = (w.on_signature id signature).at a h
  Step_keeps {a} (issues id signature s) h = (w.on_issue id signature s).at a h
  Step_keeps {a} (creates id i) h = (w.on_intent id i).at a h
  Step_keeps {a} (commits draw v) h = (w.on_commit draw v).at a h

  pub Reach_keeps : {a b : Db} → Reach a b → P a → P b
  Reach_keeps here h = h
  Reach_keeps (next r s) h = Step_keeps s (Reach_keeps r h)

-- From sound purchase records every interleaving of the handlers' writes and transactions leads to
-- sound ones: one payment for an intent and for a transaction of the chain, one entitlement for a
-- payment, each bound to the buyer, archive and device of a confirmed intent.
pub Reach-IsSound : (a b : Db) → Reach a b → IsSound a → IsSound b
Reach-IsSound a b r = Reach_keeps IsSound-KeptByWrites r
