-- ===== src/Payments/Verify/Proven.antt =====
-- What a `confirmed` answer rests on.
use sol_arch.Prelude.{ℕ, String, ◌≡◌, ◌≢◌, sym, false, inl, inr}
use sol_arch.Db.{PaymentIntent, Db}
use sol_arch.Action.{ok}
use sol_arch.Action.Returns.{bind_ok, lift_bind_ok, pure_ok, if_ok}
use sol_arch.Platform.{Platform, Env}
use sol_arch.Platform.Chain.{Chain}
use sol_arch.Payments.Evidence.{Landed, landed, checklist}
use sol_arch.Payments.Commit.{Purchase, commit}
use sol_arch.Payments.Verify.{
  VerifyResponse, pending, awaiting_finality, confirmed, Confirmed, Candidate, Progress, answered,
  verify_on_chain, check_and_commit, on_progress, verified, chain_status,
}
use sol_arch.Payments.Verify.ChainStatus.{IsFinal, chain_status_cases}

module _ (chain : Chain) (now : ℕ) (intent_id : String) (i : PaymentIntent) (c : Candidate)
    (p : Platform) (env : Env) (draw : Purchase) where
  -- The chain proves the payment of the candidate, and the commit recorded or found the purchase.
  pub record IsProven (r : Purchase) (db db' : Db) : Type 0 where
    pub slot : ℕ
    pub landing : Landed
    pub final : IsFinal chain now intent_id i c slot
    pub read : landed chain c.signature slot ≡ ok landing
    pub succeeded : landing.tx.failed ≡ false
    pub checked : checklist p env i c.issuance landing ≡ ok tt
    pub committed : commit draw (verified chain now intent_id i c slot landing) db ≡ (ok r, db')

  check_and_commit_proven :
      (slot : ℕ) (l : Landed) (k : Confirmed) (db db' : Db)
      → check_and_commit chain now intent_id i c p env draw slot l db ≡ (ok (confirmed k), db')
      → (l.tx.failed ≡ false)
        × (checklist p env i c.issuance l ≡ ok tt)
        × (commit draw (verified chain now intent_id i c slot l) db ≡ (ok k.purchase, db'))
  unfolding check_and_commit
  check_and_commit_proven slot l k db db' h = elim (if_ok l.tx.failed _ _ db h) [
    | inl (bad, ended) ↦
        let (u, db1, closed, rest) = bind_ok _ _ db ended in absurd (cc (pure_ok _ db1 rest).0)
    | inr (fine, goes_on) ↦
        let (u, checked, rest) = lift_bind_ok _ _ db goes_on in
        let (purchase, db1, done, last) = bind_ok _ _ db rest in
        let (same, final) = pure_ok _ db1 last in (fine, cc checked, cc (done, same, final))
  ]

  not_answered :
      (r : VerifyResponse) (k : Confirmed) (db db' : Db)
      → on_progress chain now intent_id i c p env draw (answered r) db ≡ (ok (confirmed k), db')
      → r ≢ confirmed k
      → ⊥
  not_answered r k db db' h other = other (sym (pure_ok r db h).0)

  on_progress-IsProven :
      (r : Progress) (k : Confirmed) (db db1 db' : Db)
      → chain_status chain now intent_id i c db ≡ (ok r, db1)
      → on_progress chain now intent_id i c p env draw r db1 ≡ (ok (confirmed k), db')
      → IsProven k.purchase db db'
  on_progress-IsProven r k db db1 db' found h =
      elim (chain_status_cases chain now intent_id i c r db db1 found) [
        | inl e ↦ absurd (not_answered pending k db1 db' (rw e at h) cc)
        | inr (inl e) ↦ absurd (not_answered awaiting_finality k db1 db' (rw e at h) cc)
        | inr (inr (slot, e, final, same)) ↦
            let (l, read, rest) = lift_bind_ok _ _ db (rw (e, same) at h) in
            let (fine, checked, done) = check_and_commit_proven slot l k db db' rest in
            record {
              slot = slot;
              landing = l;
              final = final;
              read = read;
              succeeded = fine;
              checked = checked;
              committed = done;
            }
      ]

  pub verify_on_chain-IsProven :
      (k : Confirmed) (db db' : Db)
      → verify_on_chain chain now intent_id i c p env draw db ≡ (ok (confirmed k), db')
      → IsProven k.purchase db db'
  unfolding verify_on_chain
  verify_on_chain-IsProven k db db' h =
      let (r, db1, found, rest) = bind_ok _ _ db h in on_progress-IsProven r k db db1 db' found rest
