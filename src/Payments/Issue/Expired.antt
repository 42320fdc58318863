-- ===== src/Payments/Issue/Expired.antt =====
-- `buildTransaction` on an intent that has expired.
use sol_arch.Prelude.{ℕ, String, ◌≡◌, ◌≢◌, refl, true, false, some, arith, leb, inl, inr}
use sol_arch.Table.{find}
use sol_arch.Db.{PaymentIntent, Db}
use sol_arch.Failure.{Failure, gone, payment_intent_expired}
use sol_arch.Action.{Result, ok, err, is_err, throw, lift, transaction, ◌>>=◌}
use sol_arch.Action.Returns.{
  bind_ok, lift_bind_ok, gets_bind_ok, transaction_ok, transaction_err, if_ok, or_throw_ok,
}
use sol_arch.Platform.{Platform, Env}
use sol_arch.Platform.Chain.{Chain}
use sol_arch.Payments.Issue.{
  IssueResponse, payment_account, build_locked, build_transaction, expire,
}

throw_never_ok : {A : Type 0} (e : Failure) (db : Db) {a : A} {db' : Db} → throw e db ≢ (ok a, db')
unfolding throw
throw_never_ok e db h = cc

module _ (p : Platform) (env : Env) (chain : Chain) (issuance_id : String) (now : ℕ)
    (intent_id : String) where
  pub expire_throws :
      (intent : PaymentIntent) (db db' : Db) (r : IssueResponse)
      → expire p env chain intent_id intent db ≢ (ok r, db')
  unfolding expire
  expire_throws intent db db' r done =
      let (waits, db1, _, at_when) = bind_ok _ _ db (gets_bind_ok _ _ db done) in
      let (_, db2, _, at_throw) = bind_ok _ _ db1 at_when in
      throw_never_ok (gone payment_intent_expired) db2 at_throw

  expired_at :
      (db : Db) (intent : PaymentIntent) (buyer : String) (r : Result IssueResponse × Db)
      → find intent_id db.intents ≡ some intent
      → leb intent.expires_at now ≡ true
      → transaction (build_locked p env chain issuance_id now intent_id buyer) db ≡ r
      → (r.1 ≡ db) × (is_err r.0 ≡ true)
  unfolding build_locked
  expired_at db intent buyer (err x, db') stored late e = (transaction_err _ db e, refl)
  expired_at db intent buyer (ok a, db') stored late e =
      let (i, found, rest) = lift_bind_ok _ _ db (gets_bind_ok _ _ db (transaction_ok _ db e)) in
      let same : i ≡ intent = ground (arith, or_throw_ok _ _ found) in
      elim (if_ok (leb i.expires_at now) _ _ db rest) [
        | inl (_, gone_at) ↦ absurd (expire_throws i db db' a gone_at)
        | inr (early, _) ↦ absurd (never i same early)
      ]
    where
      never : (i : PaymentIntent) → i ≡ intent → leb i.expires_at now ≢ false
      never i same early = ground (arith, same, early, late)

  build_expired_at :
      (account : String) (db : Db) (intent : PaymentIntent) (key : Result String)
      → find intent_id db.intents ≡ some intent
      → leb intent.expires_at now ≡ true
      → let r =
          (lift key >>= λ buyer.
          transaction (build_locked p env chain issuance_id now intent_id buyer))
            db in
        (r.1 ≡ db) × (is_err r.0 ≡ true)
  unfolding ◌>>=◌
  build_expired_at account db intent (err x) stored late = (refl, refl)
  build_expired_at account db intent (ok buyer) stored late =
      expired_at db intent buyer _ stored late refl

  -- For a stored intent that has expired, `buildTransaction` throws and leaves the database as it was:
  -- the status `expired` that it writes, on the intent or on an issuance, does not outlive the throw.
  pub build_transaction_expired :
      (account : String) (db : Db) (intent : PaymentIntent)
      → find intent_id db.intents ≡ some intent
      → leb intent.expires_at now ≡ true
      → ((build_transaction p env chain issuance_id now intent_id account db).1 ≡ db)
        × (is_err (build_transaction p env chain issuance_id now intent_id account db).0 ≡ true)
  unfolding build_transaction
  build_transaction_expired account db intent stored late =
      build_expired_at account db intent (payment_account p env account) stored late
