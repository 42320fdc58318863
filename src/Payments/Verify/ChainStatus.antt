-- ===== src/Payments/Verify/ChainStatus.antt =====
-- What the status of a signature leads to: never to a confirmation by itself, and to the reading of
-- the transaction only for a finalized success.
use sol_arch.Prelude.{ℕ, String, ◌≡◌, Bool, false, Option, none, some, arith, ◌⊎◌, inl, inr}
use sol_arch.Db.{PaymentIntent, Db}
use sol_arch.Action.{ok, ◌>>=◌}
use sol_arch.Action.Returns.{bind_ok, lift_bind_ok, pure_ok}
use sol_arch.Platform.Chain.{Chain, Rpc, answer, rpc_error, SignatureStatus, finalized}
use sol_arch.Payments.Evidence.{or_backend}
use sol_arch.Payments.Verify.{
  VerifyResponse, pending, awaiting_finality, confirmed, Candidate, Progress, answered, at_slot,
  chain_status, unseen, seen, expire_when, status_progress,
}

or_backend_ok : {A : Type 0} (r : Rpc A) {a : A} → or_backend r ≡ ok a → r ≡ answer a
or_backend_ok (answer a) h = cc
or_backend_ok rpc_error h = absurd (cc h)

-- The response names a purchase.
abbrev pub IsConfirmation : VerifyResponse → Type 0
IsConfirmation (confirmed c) = Unit
IsConfirmation _ = ⊥

pub expire_when-pending :
    (late : Bool) (intent_id : String) (r then_r : VerifyResponse) (db db' : Db)
    → expire_when late intent_id then_r db ≡ (ok r, db')
    → r ≡ then_r
unfolding ◌>>=◌
expire_when-pending late intent_id r then_r db db' h = ground arith

module _ (chain : Chain) (now : ℕ) (intent_id : String) (i : PaymentIntent) (c : Candidate) where
  pub record IsFinal (slot : ℕ) : Type 0 where
    pub status : SignatureStatus
    pub reported : chain.signature_status c.signature ≡ answer (some status)
    pub is_final : status.confirmation ≡ finalized
    pub succeeded : status.failed ≡ false
    pub at : status.slot ≡ some slot

  unseen_pending :
      (r : VerifyResponse) (db db' : Db)
      → unseen chain now intent_id i c db ≡ (ok r, db')
      → r ≡ pending
  unfolding unseen ◌>>=◌
  unseen_pending r db db' h = ground arith

  seen_cases :
      (s : SignatureStatus) (r : Progress) (db db' : Db)
      → seen chain now intent_id i c s db ≡ (ok r, db')
      → (r ≡ answered pending)
        ⊎ (r ≡ answered awaiting_finality)
        ⊎ ((slot : ℕ) × (r ≡ at_slot slot)
            × (s.confirmation ≡ finalized)
            × (s.failed ≡ false)
            × (s.slot ≡ some slot)
            × (db' ≡ db))
  unfolding seen ◌>>=◌
  seen_cases s r db db' h = ground arith

  -- The progress is an answer that confirms nothing, or the slot of a finalized success, and then
  -- nothing has been written.
  pub chain_status_cases :
      (r : Progress) (db db' : Db)
      → chain_status chain now intent_id i c db ≡ (ok r, db')
      → (r ≡ answered pending)
        ⊎ (r ≡ answered awaiting_finality)
        ⊎ ((slot : ℕ) × (r ≡ at_slot slot) × IsFinal slot × (db' ≡ db))
  unfolding chain_status
  chain_status_cases r db db' h =
      let (status, reported, rest) = lift_bind_ok _ _ db h in
      of_status status (or_backend_ok _ reported) rest
    where
      of_status :
          (status : Option SignatureStatus)
          → chain.signature_status c.signature ≡ answer status
          → status_progress chain now intent_id i c status db ≡ (ok r, db')
          → (r ≡ answered pending)
            ⊎ (r ≡ answered awaiting_finality)
            ⊎ ((slot : ℕ) × (r ≡ at_slot slot) × IsFinal slot × (db' ≡ db))
      of_status none e k =
          let (x, db1, un, rest) = bind_ok _ _ db k in
          inl (cc (unseen_pending x db db1 un, (pure_ok _ db1 rest).0))
      of_status (some s) e k = elim (seen_cases s r db db' k) [
        | inl p ↦ inl p
        | inr (inl p) ↦ inr (inl p)
        | inr (inr (slot, at, final, fine, here, same)) ↦ inr (
            inr (
              slot,
              at,
              record { status = s; reported = e; is_final = final; succeeded = fine; at = here },
              same,
            ))
      ]
