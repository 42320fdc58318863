-- ===== src/Payments/Tests.antt =====
-- The payments theorems at one purchase.
use sol_arch.Prelude.{◌+◌, ◌≡◌, ◌≢◌, refl, is_hex64, eq_iff, true, none, some, [], ◌∷◌, arith}
use sol_arch.Table.{find, first}
use sol_arch.Table.Laws.{find_single}
use sol_arch.Db.{Db, PaymentIntent}
use sol_arch.Action.{ok, is_err, transaction, ◌>>=◌}
use sol_arch.Crypto.DeviceKey.{is_device_key}
use sol_arch.Db.Writes.{
  set_issuance_status, confirm_intent, insert_payment, insert_entitlement, insert_event,
}
use sol_arch.Payments.Checks.{is_canonical_signature, assert_archive_fingerprint_snapshot}
use sol_arch.Payments.Evidence.{Landed, landed, checklist}
use sol_arch.Payments.Evidence.Checked.{IsPaid, checklist-IsPaid}
use sol_arch.Payments.Commit.Legacy.{verify_unsigned}
use sol_arch.Samples.{
  platform, env, creds, chain, landed_tx, unpaid, licensed, intent, issuance, payment, entitlement,
  key44, fingerprint64,
}
use sol_arch.Payments.Economics.{split}
use sol_arch.Payments.Economics.Shares.{split_exact}
use sol_arch.Payments.Issue.{build_transaction}
use sol_arch.Payments.Issue.Payable.{OnePayable}
use sol_arch.Payments.Issue.Expired.{build_transaction_expired}
use sol_arch.Payments.Issue.Single.{build_transaction-OnePayable}
use sol_arch.Payments.Commit.{Purchase, Verified, commit}
use sol_arch.Payments.Commit.Once.{commit_once}
use sol_arch.Payments.Commit.Live.{Committable, purchased, commit_returns}
use sol_arch.Payments.Verify.{
  VerifyRequest, Confirmed, confirmed, Candidate, verify_on_chain, verify_payment,
}
use sol_arch.Payments.Verify.Sound.{IsHolder, IsSettledBy, verify_payment_settled}
use sol_arch.Payments.Ledger.{IsSound, Backed}
use sol_arch.Payments.Ledger.History.{Reach, here, next, commits, Reach-IsSound}
use sol_arch.Payments.Ledger.Persistence.{payment_persists}

abbrev draw : Purchase
draw = record { payment_id = "p1"; entitlement_id = "e1" }

abbrev again : Purchase
again = record { payment_id = "p2"; entitlement_id = "e2" }

abbrev request : VerifyRequest
request = record { device_public_key = key44; transaction_signature = some "signature" }

abbrev receipt : Confirmed
receipt = record {
  purchase = draw;
  archive_id = "a1";
  archive_fingerprint = fingerprint64;
  device_public_key = key44;
}

abbrev landed_purchase : Verified
landed_purchase = record {
  intent_id = "i1";
  issuance_id = "s1";
  signature = "signature";
  buyer_wallet = "buyer";
  slot = 7;
  block_height = 60;
}

abbrev paid : Db
paid = (commit draw landed_purchase unpaid).1

verified :
    verify_payment platform env creds chain draw 10 "i1" "SolArchIntent token" request unpaid
    ≡ (ok (confirmed receipt), paid)
unfolding verify_payment ◌>>=◌ is_canonical_signature is_device_key first
    assert_archive_fingerprint_snapshot is_hex64 find landed checklist commit set_issuance_status
    confirm_intent insert_payment insert_entitlement insert_event
verified = refl

verify_payment_settled_example :
    (i : PaymentIntent) × IsHolder platform env creds chain draw 10 "i1" "SolArchIntent token" key44
      i unpaid
    × IsSettledBy platform env creds chain draw 10 "i1" i receipt unpaid paid
verify_payment_settled_example =
    verify_payment_settled platform env creds chain draw 10 "i1" "SolArchIntent token" request
      receipt unpaid paid verified

committed : commit draw landed_purchase unpaid ≡ (ok draw, paid)
unfolding commit transaction ◌>>=◌ find assert_archive_fingerprint_snapshot is_hex64
    set_issuance_status confirm_intent insert_payment first insert_entitlement insert_event
committed = refl

landed-Committable : Committable draw landed_purchase intent issuance unpaid
unfolding find first assert_archive_fingerprint_snapshot is_hex64
landed-Committable = record {
  intent = refl;
  open_status = refl;
  no_buyer = refl;
  unchanged = refl;
  issuance = refl;
  of_intent = refl;
  signature = refl;
  active = refl;
  new_payment_id = refl;
  unpaid = refl;
  unused = refl;
  new_entitlement_id = refl;
  unentitled = refl;
}

commit_returns_example :
    commit draw landed_purchase unpaid
    ≡ (ok draw, purchased draw landed_purchase intent issuance unpaid landed-Committable)
commit_returns_example =
    commit_returns draw landed_purchase intent issuance unpaid landed-Committable

commit_once_example : commit again landed_purchase paid ≡ (ok draw, paid)
commit_once_example =
    commit_once draw again landed_purchase landed_purchase unpaid paid draw committed refl

unpaid-IsSound : IsSound unpaid
unfolding find
unpaid-IsSound = record {
  keyed_intents = (refl, tt);
  keyed_payments = tt;
  keyed_entitlements = tt;
  wallets = λ id i e. ground arith;
  backed = λ id p e. absurd (cc e);
  one_payment = λ a b p q e f same. absurd (cc e);
  one_signature = λ a b p q e f same. absurd (cc e);
  entitled = λ id e f. absurd (cc f);
  one_entitlement = λ a b x y e f same. absurd (cc e);
}

purchase_made : Reach unpaid paid
purchase_made = next here (commits draw landed_purchase)

Reach-IsSound_example : IsSound paid
Reach-IsSound_example = Reach-IsSound unpaid paid purchase_made unpaid-IsSound

licensed-IsSound : IsSound licensed
unfolding find
licensed-IsSound = record {
  keyed_intents = (refl, tt);
  keyed_payments = (refl, tt);
  keyed_entitlements = (refl, tt);
  wallets = λ id i e. ground arith;
  backed = λ id p e. rw (find_single "p1" id payment p e) (refl, refl, refl, refl);
  one_payment = λ a b p q e f same. ground (arith, eq_iff "p1" a, eq_iff "p1" b);
  one_signature = λ a b p q e f same. ground (arith, eq_iff "p1" a, eq_iff "p1" b);
  entitled = λ id e f. rw (find_single "e1" id entitlement e f) (refl, refl, refl);
  one_entitlement = λ a b x y e f same. ground (arith, eq_iff "e1" a, eq_iff "e1" b);
}

abbrev later : Db
later = (commit again landed_purchase licensed).1

payment_persists_example :
    (find "p1" later.payments ≡ some payment) × Backed (find "i1" later.intents) payment
unfolding find
payment_persists_example =
    payment_persists licensed later "p1" payment (next here (commits again landed_purchase))
      licensed-IsSound refl

unpaid-OnePayable : OnePayable unpaid
unfolding find
unpaid-OnePayable = record {
  keyed = (refl, tt);
  one = λ a b s t e f x y same. ground (arith, eq_iff "s1" a, eq_iff "s1" b);
}

build_transaction-OnePayable_example :
    OnePayable (build_transaction platform env chain "s2" 20 "i1" "buyer" unpaid).1
build_transaction-OnePayable_example =
    build_transaction-OnePayable platform env chain "s2" 20 "i1" "buyer" unpaid unpaid-OnePayable

build_transaction_expired_example :
    ((build_transaction platform env chain "s2" 1800000 "i1" "buyer" unpaid).1 ≡ unpaid)
    × (is_err (build_transaction platform env chain "s2" 1800000 "i1" "buyer" unpaid).0 ≡ true)
unfolding find
build_transaction_expired_example =
    build_transaction_expired platform env chain "s2" 1800000 "i1" "buyer" unpaid intent refl refl

split_exact_example :
    ((split 1250 500).platform_units ≡ 625000)
    × ((split 1250 500).creator_units ≡ 11875000)
    × ((split 1250 500).creator_units + (split 1250 500).platform_units
        ≡ (split 1250 500).total_units)
split_exact_example = split_exact 1250

abbrev landing : Landed
landing = record { tx = landed_tx; message = []; block_height = 60 }

checklist-IsPaid_example : IsPaid platform env intent issuance landing
unfolding checklist
checklist-IsPaid_example = checklist-IsPaid platform env intent issuance landing refl

-- The issuance as a row that was written before signatures were stored.
abbrev legacy : Db
legacy = record unpaid {
  issuances = ("s1", record issuance { expected_transaction_signature = none }) ∷ [];
}

abbrev recovered : Candidate
recovered = record {
  issuance_id = "s1";
  issuance = record issuance { expected_transaction_signature = none };
  signature = "signature";
}

verify_unsigned_example :
    verify_on_chain chain 10 "i1" intent recovered platform env draw legacy
    ≢ (ok (confirmed receipt), paid)
unfolding find
verify_unsigned_example =
    verify_unsigned chain 10 "i1" intent recovered platform env draw receipt legacy paid refl refl
      refl refl
