-- ===== src/Payments/Commit/Legacy.antt =====
-- An issuance whose signature is not stored.
use sol_arch.Prelude.{ℕ, String, ◌≡◌, ◌≢◌, false, none, some, arith}
use sol_arch.Table.{find}
use sol_arch.Db.{PaymentIntent, Issuance, Db, is_confirmed}
use sol_arch.Action.{ok}
use sol_arch.Platform.{Platform, Env}
use sol_arch.Platform.Chain.{Chain}
use sol_arch.Payments.Commit.{Purchase, Verified, commit}
use sol_arch.Payments.Commit.Sound.{was_recorded, is_recorded, commit-Outcome}
use sol_arch.Payments.Verify.{Candidate, Confirmed, confirmed, verify_on_chain}
use sol_arch.Payments.Verify.Proven.{verify_on_chain-IsProven}

commit_unsigned :
    (draw : Purchase) (v : Verified) (intent : PaymentIntent) (s : Issuance) (db db' : Db)
    (r : Purchase)
    → find v.intent_id db.intents ≡ some intent
    → is_confirmed intent.status ≡ false
    → find v.issuance_id db.issuances ≡ some s
    → s.expected_transaction_signature ≡ none
    → commit draw v db ≢ (ok r, db')
commit_unsigned draw v intent s db db' r stored open_yet issued unsigned done =
    elim (commit-Outcome draw v db db' r done) [
      | was_recorded i _ _ found _ final _ _ _ _ ↦ ground (arith, stored, found, final, open_yet)
      | is_recorded i t _ _ found _ signed _ _ ↦ ground (arith, issued, found, signed, unsigned)
    ]

-- For a stored intent that is not confirmed, and a stored issuance without a signature, the check on
-- the chain never answers `confirmed`: not even where the candidate's signature, recovered from the
-- serialized transaction, is finalized on the chain and its transaction passes every check.
pub verify_unsigned :
    (chain : Chain) (now : ℕ) (intent_id : String) (i : PaymentIntent) (c : Candidate)
    (p : Platform) (env : Env) (draw : Purchase) (k : Confirmed) (db db' : Db)
    → find intent_id db.intents ≡ some i
    → is_confirmed i.status ≡ false
    → find c.issuance_id db.issuances ≡ some c.issuance
    → c.issuance.expected_transaction_signature ≡ none
    → verify_on_chain chain now intent_id i c p env draw db ≢ (ok (confirmed k), db')
verify_unsigned chain now intent_id i c p env draw k db db' stored open_yet issued unsigned run =
    let proof = verify_on_chain-IsProven chain now intent_id i c p env draw k db db' run in
    commit_unsigned draw _ i c.issuance db db' k.purchase stored open_yet issued unsigned
      proof.committed
