-- ===== src/Payments/Commit/Sound.antt =====
-- The commit of a verified payment: it keeps the purchase records sound, and what it leaves behind
-- when it returns.
use sol_arch.Prelude.{
  String, ◌≡◌, refl, true, Option, none, some, arith, eq_iff, is_text_iff, inl, inr, Option-cases,
}
use sol_arch.Table.{find, put}
use sol_arch.Table.Laws.{find-put_self}
use sol_arch.Db.{PaymentIntent, Payment, Entitlement, Issuance, IssuanceStatus, IntentStatus, Db}
use sol_arch.Db.Writes.{confirmed_for}
use sol_arch.Action.{Result, ok, err, ◌>>=◌}
use sol_arch.Action.Keeps.{Keeps}
use sol_arch.Action.Returns.{
  gets_bind_ok, lift_bind_ok, transaction_ok, transaction_err, or_throw_ok, unless_throw_ok,
}
use sol_arch.Payments.Checks.{
  assert_archive_fingerprint_snapshot, assert_confirmed_payment_bindings, is_bound,
}
use sol_arch.Payments.Ledger.{IsSound}
use sol_arch.Payments.Ledger.Writes.{put_intent-IsSound}
use sol_arch.Payments.Ledger.Inserts.{new_payment-IsSound, new_entitlement-IsSound}
use sol_arch.Payments.Commit.{
  Purchase, Verified, payment_of, entitlement_of, settled_purchase, locked_issuance, is_eligible,
  fingerprint_in, new_payment, new_entitlement, record_purchase, settle_or_record, commit_locked,
  commit,
}
use sol_arch.Payments.Commit.Outcome.{purchased, record_purchase_writes, record_purchase_fresh}

-- The writes of a purchase, where the new rows are new.
module _ (draw : Purchase) (v : Verified) (intent : PaymentIntent) (s : Issuance) (db : Db)
    (h : IsSound db) (stored : find v.intent_id db.intents ≡ some intent) where
  purchased-IsSound :
      (issued : find v.issuance_id db.issuances ≡ some s) (r : Purchase) (db' : Db)
      → record_purchase draw v intent db ≡ (ok r, db')
      → IsSound (purchased draw v intent s db)
  unfolding new_payment new_entitlement
  purchased-IsSound issued r db' done =
      let fresh = record_purchase_fresh draw v intent s db db' r stored issued done in
      let new : PaymentIntent = confirmed_for v.buyer_wallet intent in
      let paid = put_intent-IsSound db h v.intent_id intent new stored refl fresh.6 refl refl in
      let with_payment =
        new_payment-IsSound (record db { intents = put v.intent_id new db.intents }) paid
          draw.payment_id (new_payment v intent) fresh.1 fresh.2 fresh.3
          (rw (find-put_self v.intent_id new db.intents) (refl, refl, refl, refl)) in
      new_entitlement-IsSound
        (record db {
          intents = put v.intent_id new db.intents;
          payments = put draw.payment_id (new_payment v intent) db.payments;
        })
        with_payment draw.entitlement_id (new_entitlement v intent draw.payment_id) fresh.4
        (rw (find-put_self draw.payment_id (new_payment v intent) db.payments) (refl, refl, refl))

-- A commit that returns has found a recorded purchase, or has recorded a new one.
pub data Outcome (draw : Purchase) (v : Verified) (db : Db) (r : Purchase) (db' : Db) : Type 0 where
  was_recorded :
      (intent : PaymentIntent) (payment : Payment) (entitlement : Entitlement)
      → find v.intent_id db.intents ≡ some intent
      → assert_archive_fingerprint_snapshot intent (fingerprint_in intent.archive_id db) ≡ ok tt
      → intent.status ≡ IntentStatus.confirmed
      → payment_of v.intent_id db ≡ some (r.payment_id, payment)
      → entitlement_of r.payment_id db ≡ some (r.entitlement_id, entitlement)
      → is_bound intent payment ≡ true
      → db' ≡ db
      → Outcome draw v db r db'
  is_recorded :
      (intent : PaymentIntent) (s : Issuance)
      → find v.intent_id db.intents ≡ some intent
      → assert_archive_fingerprint_snapshot intent (fingerprint_in intent.archive_id db) ≡ ok tt
      → find v.issuance_id db.issuances ≡ some s
      → s.payment_intent_id ≡ v.intent_id
      → s.expected_transaction_signature ≡ some v.signature
      → s.status ≡ IssuanceStatus.active
      → record_purchase draw v intent db ≡ (ok r, db')
      → Outcome draw v db r db'

module _ (draw : Purchase) (v : Verified) (db : Db) (r : Purchase) (db' : Db)
    (intent : PaymentIntent) (stored : find v.intent_id db.intents ≡ some intent)
    (snapshot : assert_archive_fingerprint_snapshot intent (fingerprint_in intent.archive_id db)
      ≡ ok tt) where
  eligible_issuance :
      (found : Option Issuance)
      → locked_issuance v db ≡ found
      → is_eligible found ≡ true
      → record_purchase draw v intent db ≡ (ok r, db')
      → Outcome draw v db r db'
  unfolding locked_issuance
  eligible_issuance none e fine done = absurd (cc fine)
  eligible_issuance (some s) e fine done =
      is_recorded intent s stored snapshot (ground arith)
        (ground (arith, eq_iff s.payment_intent_id v.intent_id))
        (ground (arith, is_text_iff s.expected_transaction_signature v.signature)) (ground arith)
        done

  settled_returns :
      (q : String × Payment × String)
      → settled_purchase v.intent_id intent db ≡ some q
      → settle_or_record draw v intent (some q) db ≡ (ok r, db')
      → Outcome draw v db r db'
  unfolding settled_purchase assert_confirmed_payment_bindings ◌>>=◌
  settled_returns (id, payment, entitlement) e done =
      elim (Option-cases (payment_of v.intent_id db)) [
        | inl none_paid ↦ absurd (ground arith)
        | inr ((k, q), paid) ↦ elim (Option-cases (entitlement_of k db)) [
          | inl missing ↦ absurd (ground arith)
          | inr ((l, f), entitled) ↦
              was_recorded intent q f stored snapshot (ground arith) (ground arith) (ground arith)
                (ground arith) (ground arith)
        ]
      ]

  settle_or_record-Outcome :
      (settled : Option (String × Payment × String))
      → settled_purchase v.intent_id intent db ≡ settled
      → settle_or_record draw v intent settled db ≡ (ok r, db')
      → Outcome draw v db r db'
  unfolding ◌>>=◌
  settle_or_record-Outcome (some q) e done = settled_returns q e done
  settle_or_record-Outcome none e done =
      let (u, fine, rest) = lift_bind_ok _ _ db done in
      eligible_issuance (locked_issuance v db) refl (unless_throw_ok _ _ fine) rest

-- Every commit that returns is one of the two.
pub commit-Outcome :
    (draw : Purchase) (v : Verified) (db db' : Db) (r : Purchase)
    → commit draw v db ≡ (ok r, db')
    → Outcome draw v db r db'
unfolding commit
commit-Outcome draw v db db' r done =
    let body = transaction_ok (commit_locked draw v) db done in
    let (intent, found, rest) = lift_bind_ok _ _ db (gets_bind_ok _ _ db body) in
    let (u, snapshot, last) = lift_bind_ok _ _ db (gets_bind_ok _ _ db rest) in
    settle_or_record-Outcome draw v db r db' intent (or_throw_ok _ _ found) snapshot _ refl
      (gets_bind_ok _ _ db last)

commit_keeps :
    (draw : Purchase) (v : Verified) (db : Db) (result : Result Purchase × Db)
    → commit draw v db ≡ result
    → IsSound db
    → IsSound result.1
unfolding commit
commit_keeps draw v db (err e, db') done h = rw (transaction_err (commit_locked draw v) db done) h
commit_keeps draw v db (ok r, db') done h = elim (commit-Outcome draw v db db' r done) [
  | was_recorded _ _ _ _ _ _ _ _ _ same ↦ rw same h
  | is_recorded intent s stored _ issued _ _ _ recorded ↦
      rw (record_purchase_writes draw v intent s db db' r stored issued recorded)
        (purchased-IsSound draw v intent s db h stored issued r db' recorded)
]

-- Whatever the verification hands over and whatever ids are drawn, a commit keeps the purchase
-- records sound.
pub commit-IsSound : (draw : Purchase) (v : Verified) → Keeps IsSound (commit draw v)
commit-IsSound draw v = record { at = λ db h. commit_keeps draw v db (commit draw v db) refl h }
