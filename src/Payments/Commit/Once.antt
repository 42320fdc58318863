-- ===== src/Payments/Commit/Once.antt =====
-- A payment is recorded once.
use sol_arch.Prelude.{String, ◌≡◌, refl, true, some, arith, eq_refl}
use sol_arch.Table.{find}
use sol_arch.Table.Laws.{find-put_self, first-put_new}
use sol_arch.Db.{PaymentIntent, Payment, Entitlement, Issuance, IntentStatus, Db}
use sol_arch.Db.Writes.{confirmed_for}
use sol_arch.Action.{ok, ◌>>=◌}
use sol_arch.Payments.Checks.{
  assert_archive_fingerprint_snapshot, assert_confirmed_payment_bindings, is_bound,
}
use sol_arch.Payments.Commit.{
  Purchase, Verified, payment_of, entitlement_of, settled_purchase, new_payment, new_entitlement,
  commit, fingerprint_in, record_purchase,
}
use sol_arch.Payments.Commit.Outcome.{purchased, record_purchase_writes, record_purchase_fresh}
use sol_arch.Payments.Commit.Sound.{was_recorded, is_recorded, commit-Outcome}

-- Everything that makes a later commit answer with the purchase `r`.
pub record IsSettled (intent_id : String) (r : Purchase) (db : Db) : Type 0 where
  pub intent : PaymentIntent
  pub payment : Payment
  pub entitlement : Entitlement
  pub stored : find intent_id db.intents ≡ some intent
  pub snapshot :
      assert_archive_fingerprint_snapshot intent (fingerprint_in intent.archive_id db) ≡ ok tt
  pub is_final : intent.status ≡ IntentStatus.confirmed
  pub paid : payment_of intent_id db ≡ some (r.payment_id, payment)
  pub entitles : entitlement_of r.payment_id db ≡ some (r.entitlement_id, entitlement)
  pub bound : is_bound intent payment ≡ true

settled-commit :
    (draw : Purchase) (v : Verified) (r : Purchase) (db : Db)
    → IsSettled v.intent_id r db
    → commit draw v db ≡ (ok r, db)
unfolding commit ◌>>=◌ settled_purchase assert_confirmed_payment_bindings
settled-commit draw v r db s =
    rw (s.stored) (rw (s.snapshot) (ground (arith, s.is_final, s.paid, s.entitles, s.bound)))

purchased-IsSettled :
    (draw : Purchase) (v : Verified) (intent : PaymentIntent) (s : Issuance) (db db' : Db)
    (r : Purchase)
    → find v.intent_id db.intents ≡ some intent
    → assert_archive_fingerprint_snapshot intent (fingerprint_in intent.archive_id db) ≡ ok tt
    → find v.issuance_id db.issuances ≡ some s
    → record_purchase draw v intent db ≡ (ok r, db')
    → IsSettled v.intent_id draw (purchased draw v intent s db)
unfolding payment_of entitlement_of new_payment new_entitlement is_bound
    assert_archive_fingerprint_snapshot
purchased-IsSettled draw v intent s db db' r stored snapshot issued done =
    let fresh = record_purchase_fresh draw v intent s db db' r stored issued done in
    record {
      intent = confirmed_for v.buyer_wallet intent;
      payment = new_payment v intent;
      entitlement = new_entitlement v intent draw.payment_id;
      stored = find-put_self v.intent_id (confirmed_for v.buyer_wallet intent) db.intents;
      snapshot = snapshot;
      is_final = refl;
      paid =
          first-put_new _ draw.payment_id (new_payment v intent) db.payments fresh.1 fresh.2
            (eq_refl v.intent_id);
      entitles =
          first-put_new _ draw.entitlement_id (new_entitlement v intent draw.payment_id)
            db.entitlements fresh.5 fresh.4 (eq_refl draw.payment_id);
      bound = ground (
        arith,
        eq_refl v.buyer_wallet,
        eq_refl intent.archive_id,
        eq_refl intent.device_public_key,
      );
    }

commit-IsSettled :
    (draw : Purchase) (v : Verified) (db db' : Db) (r : Purchase)
    → commit draw v db ≡ (ok r, db')
    → IsSettled v.intent_id r db'
commit-IsSettled draw v db db' r done = elim (commit-Outcome draw v db db' r done) [
  | was_recorded intent payment entitlement stored snapshot is_final paid entitles bound same ↦
      rw same (record {
        intent = intent;
        payment = payment;
        entitlement = entitlement;
        stored = stored;
        snapshot = snapshot;
        is_final = is_final;
        paid = paid;
        entitles = entitles;
        bound = bound;
      })
  | is_recorded intent s stored snapshot issued _ _ _ recorded ↦
      rw
        (
          (record_purchase_fresh draw v intent s db db' r stored issued recorded).0,
          record_purchase_writes draw v intent s db db' r stored issued recorded,
        )
        (purchased-IsSettled draw v intent s db db' r stored snapshot issued recorded)
]

-- After a commit has returned a purchase, a second commit for the same intent returns the same
-- purchase and writes nothing, whatever issuance, signature and buyer it brings and whatever ids it
-- has drawn.
pub commit_once :
    (draw again : Purchase) (v w : Verified) (db db' : Db) (r : Purchase)
    → commit draw v db ≡ (ok r, db')
    → w.intent_id ≡ v.intent_id
    → commit again w db' ≡ (ok r, db')
commit_once draw again v w db db' r done same =
    settled-commit again w r db' (rw same (commit-IsSettled draw v db db' r done))
