-- ===== src/Payments/Commit/Live.antt =====
-- A commit that nothing stands against returns.
use sol_arch.Prelude.{◌≡◌, refl, ap, ◌∙◌, true, false, none, some, ◌==◌, is_text, ◌∷◌}
use sol_arch.Table.{find, put, first}
use sol_arch.Failure.{unavailable, backend_unavailable, bad_request, invalid_request}
use sol_arch.Db.{PaymentIntent, Issuance, IssuanceStatus, Db, is_confirmed, is_issuance_active}
use sol_arch.Db.Writes.{
  confirmed_for, confirm_intent, set_issuance_status, insert_payment, insert_entitlement,
  insert_event,
}
use sol_arch.Action.{ok, pure, ◌>>=◌}
use sol_arch.Action.Returns.{
  bind_then, lift_then, gets_then, transaction_then, or_throw_holds, unless_throw_holds,
}
use sol_arch.Payments.Checks.{assert_archive_fingerprint_snapshot}
use sol_arch.Payments.Commit.{
  Purchase, Verified, fingerprint_in, settled_purchase, locked_issuance, is_eligible, new_payment,
  new_entitlement, record_purchase, settle_or_record, commit_locked, commit,
}

-- The issuance is active and carries the signature, its intent is open for the archive it was made for,
-- nothing is recorded for the intent or the signature, and the drawn ids are new.
pub record Committable (draw : Purchase) (v : Verified) (i : PaymentIntent) (s : Issuance) (db : Db)
    : Type 0 where
  pub intent : find v.intent_id db.intents ≡ some i
  pub open_status : is_confirmed i.status ≡ false
  pub no_buyer : i.confirmed_buyer_wallet ≡ none
  pub unchanged : assert_archive_fingerprint_snapshot i (fingerprint_in i.archive_id db) ≡ ok tt
  pub issuance : find v.issuance_id db.issuances ≡ some s
  pub of_intent : (s.payment_intent_id == v.intent_id) ≡ true
  pub signature : is_text s.expected_transaction_signature v.signature ≡ true
  pub active : is_issuance_active s.status ≡ true
  pub new_payment_id : find draw.payment_id db.payments ≡ none
  pub unpaid : first (λ q. q.payment_intent_id == v.intent_id) db.payments ≡ none
  pub unused : first (λ q. q.transaction_signature == v.signature) db.payments ≡ none
  pub new_entitlement_id : find draw.entitlement_id db.entitlements ≡ none
  pub unentitled : first (λ e. e.payment_id == draw.payment_id) db.entitlements ≡ none

module _ (draw : Purchase) (v : Verified) (i : PaymentIntent) (s : Issuance) (db : Db)
    (c : Committable draw v i s db) where
  -- The database after each write.
  abbrev consumed : Db
  consumed = record db {
    issuances = put v.issuance_id (record s { status = IssuanceStatus.consumed }) db.issuances;
  }

  abbrev confirmed : Db
  confirmed = record consumed {
    intents = put v.intent_id (confirmed_for v.buyer_wallet i) db.intents;
  }

  abbrev paid : Db
  paid = record confirmed { payments = put draw.payment_id (new_payment v i) db.payments }

  abbrev entitled : Db
  entitled = record paid {
    entitlements = put draw.entitlement_id (new_entitlement v i draw.payment_id) db.entitlements;
  }

  abbrev pub purchased : Db
  purchased = record entitled {
    events = record { archive_id = i.archive_id; payment_id = draw.payment_id } ∷ db.events;
  }

  consumes : set_issuance_status v.issuance_id IssuanceStatus.consumed db ≡ (ok tt, consumed)
  unfolding set_issuance_status ◌>>=◌
  consumes = rw (c.issuance) refl

  confirms : confirm_intent v.intent_id v.buyer_wallet consumed ≡ (ok tt, confirmed)
  unfolding confirm_intent ◌>>=◌
  confirms = rw (c.intent, c.no_buyer) refl

  pays : insert_payment draw.payment_id (new_payment v i) confirmed ≡ (ok tt, paid)
  unfolding insert_payment new_payment ◌>>=◌
  pays = rw (c.new_payment_id, c.unpaid, c.unused) refl

  entitles :
      insert_entitlement draw.entitlement_id (new_entitlement v i draw.payment_id) paid
      ≡ (ok tt, entitled)
  unfolding insert_entitlement new_entitlement ◌>>=◌
  entitles = rw (c.new_entitlement_id, c.unentitled) refl

  announces :
      (insert_event (record { archive_id = i.archive_id; payment_id = draw.payment_id }) >>= λ _.
      pure draw)
        entitled
      ≡ (ok draw, purchased)
  unfolding insert_event ◌>>=◌
  announces = refl

  records : record_purchase draw v i db ≡ (ok draw, purchased)
  unfolding record_purchase
  records =
      bind_then _ _ db consumes
      ∙ bind_then _ _ consumed confirms
      ∙ bind_then _ _ confirmed pays
      ∙ bind_then _ _ paid entitles
      ∙ announces

  locked : locked_issuance v db ≡ some s
  unfolding locked_issuance
  locked = rw (locked_issuance, c.issuance, c.of_intent, c.signature) refl

  unsettled : settled_purchase v.intent_id i db ≡ none
  unfolding settled_purchase
  unsettled = rw (settled_purchase, c.open_status) refl

  -- A commit on an active issuance of an open intent, for which nothing is recorded and whose archive is
  -- unchanged, returns the drawn ids and records the purchase under them.
  pub commit_returns : commit draw v db ≡ (ok draw, purchased)
  unfolding commit commit_locked
  commit_returns = transaction_then _ db (
      gets_then _ _ db
      ∙ lift_then _ _ db (or_throw_holds (unavailable backend_unavailable) _ c.intent)
      ∙ gets_then _ _ db
      ∙ lift_then _ _ db c.unchanged
      ∙ gets_then _ _ db
      ∙ ap (λ o. settle_or_record draw v i o db) unsettled
      ∙ gets_then _ _ db
      ∙ lift_then _ _ db
          (unless_throw_holds _ (bad_request invalid_request) (ap is_eligible locked ∙ c.active))
      ∙ records)
