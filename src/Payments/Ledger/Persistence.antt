-- ===== src/Payments/Ledger/Persistence.antt =====
-- A recorded payment stays, and its intent stays confirmed.
use sol_arch.Prelude.{String, ◌≡◌, refl, some, arith, eq_iff}
use sol_arch.Table.{find}
use sol_arch.Table.Laws.{find-put}
use sol_arch.Db.{Payment, Db}
use sol_arch.Db.Writes.{
  set_intent_status, set_issuance_status, close_issuance, set_expected_signature, insert_issuance,
  insert_intent,
}
use sol_arch.Action.{Result, ok, err, ◌>>=◌}
use sol_arch.Action.Returns.{transaction_err}
use sol_arch.Payments.Commit.{Purchase, Verified, commit, commit_locked, new_payment}
use sol_arch.Payments.Commit.Outcome.{record_purchase_writes, record_purchase_fresh}
use sol_arch.Payments.Commit.Sound.{was_recorded, is_recorded, commit-Outcome}
use sol_arch.Payments.Handlers.{KeptByWrites}
use sol_arch.Payments.Ledger.{IsSound, Backed}
use sol_arch.Payments.Ledger.History.{Reach, Reach-IsSound, Reach_keeps}

module _ (id : String) (p : Payment) where
  abbrev pub HasPayment : Db → Type 0
  HasPayment db = find id db.payments ≡ some p

  on_commit_of :
      (draw : Purchase) (v : Verified) (db : Db) (result : Result Purchase × Db)
      → commit draw v db ≡ result
      → HasPayment db
      → HasPayment result.1
  unfolding commit
  on_commit_of draw v db (err e, db') done h = rw (transaction_err (commit_locked draw v) db done) h
  on_commit_of draw v db (ok r, db') done h = elim (commit-Outcome draw v db db' r done) [
    | was_recorded _ _ _ _ _ _ _ _ _ same ↦ rw same h
    | is_recorded intent s stored _ issued _ _ _ recorded ↦
        rw (record_purchase_writes draw v intent s db db' r stored issued recorded) (
          ground (
            arith,
            find-put draw.payment_id id (new_payment v intent) db.payments,
            record_purchase_fresh draw v intent s db db' r stored issued recorded,
            eq_iff draw.payment_id id,
          ))
  ]

  HasPayment-KeptByWrites : KeptByWrites HasPayment
  unfolding set_intent_status set_issuance_status close_issuance set_expected_signature
      insert_issuance insert_intent ◌>>=◌
  HasPayment-KeptByWrites = record {
    on_status = λ i status. record { at = λ db h. ground arith };
    on_issuance = λ i status. record { at = λ db h. ground arith };
    on_close = λ i status. record { at = λ db h. ground arith };
    on_signature = λ i signature. record { at = λ db h. ground arith };
    on_issue = λ i signature s. record { at = λ db h. ground arith };
    on_intent = λ i intent. record { at = λ db h. ground arith };
    on_commit = λ draw v. record { at = λ db h. on_commit_of draw v db (commit draw v db) refl h };
  }

-- Once a payment is recorded, no interleaving of the handlers' writes and transactions removes or
-- changes it, and its intent stays confirmed for the payment's buyer, archive and device.
pub payment_persists :
    (a b : Db) (id : String) (p : Payment)
    → Reach a b
    → IsSound a
    → find id a.payments ≡ some p
    → (find id b.payments ≡ some p) × Backed (find p.payment_intent_id b.intents) p
payment_persists a b id p r h e =
    let stays = Reach_keeps (HasPayment-KeptByWrites id p) r e in
    (stays, (Reach-IsSound a b r h).backed id p stays)
