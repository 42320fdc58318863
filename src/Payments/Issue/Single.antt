-- ===== src/Payments/Issue/Single.antt =====
-- `buildTransaction` never leaves an intent with two payable transactions.
use sol_arch.Prelude.{
  ℕ, String, ◌≡◌, refl, sym, ap, Bool, true, false, Option, none, some, is_some, ◌||◌, ◌&&◌, leb,
  if◌then◌else◌, inl, inr,
}
use sol_arch.Table.{find}
use sol_arch.Db.{
  PaymentIntent, Issuance, IntentStatus, IssuanceStatus, Db, is_issuance_active, is_created,
}
use sol_arch.Db.Writes.{
  set_intent_status, set_issuance_status, set_expected_signature, insert_issuance, change_status,
  change_signature, store_signed, signature_taken, change_intent, with_status,
  confirmed_buyer_check, keeps_wallet,
}
use sol_arch.Failure.{internal}
use sol_arch.Action.{Result, ok, err, throw, lift, transaction, when, ◌>>=◌}
use sol_arch.Action.Keeps.{Keeps, keeps_rules, if_keeps}
use sol_arch.Action.Returns.{
  bind_ok, lift_bind_ok, gets_bind_ok, transaction_ok, transaction_err, lift_ok, pure_ok, if_ok,
}
use sol_arch.Platform.{Platform, Env}
use sol_arch.Platform.Chain.{Chain}
use sol_arch.Payments.Checks.{
  ChainState, closing_status, may_confirm, recover_signature, require_expected_signature,
}
use sol_arch.Payments.Issue.{
  IssueResponse, payment_account, active_issuance, issuance_state, issue, issue_or_reuse,
  build_live, build_locked, build_transaction,
}
use sol_arch.Payments.Issue.Expired.{expire_throws}
use sol_arch.Payments.Issue.Payable.{
  OnePayable, OnlyPayable, NonePayable, active_issuance-none, active_only, put_only, put_closed,
  insert_new,
}

close_row :
    (intent_id k : String) (status : IssuanceStatus) (found : Option Issuance) (db : Db)
    {u : Unit {0}} {db' : Db}
    → find k db.issuances ≡ found
    → OnlyPayable intent_id k db
    → is_issuance_active status ≡ false
    → change_status k status found db ≡ (ok u, db')
    → NonePayable intent_id db'
unfolding ◌>>=◌
close_row intent_id k status none db e h closed run = absurd (cc run)
close_row intent_id k status (some s) db e h closed run =
    rw (ap (λ r. r.1) (sym run))
      (put_closed db k s (record s { status = status }) e refl intent_id h closed)

set_issuance_status_closes :
    (intent_id k : String) (status : IssuanceStatus) (db : Db) {u : Unit {0}} {db' : Db}
    → OnlyPayable intent_id k db
    → is_issuance_active status ≡ false
    → set_issuance_status k status db ≡ (ok u, db')
    → NonePayable intent_id db'
unfolding set_issuance_status
set_issuance_status_closes intent_id k status db h closed run =
    close_row intent_id k status (find k db.issuances) db refl h closed run

insert_row :
    (intent_id k signature : String) (s : Issuance) (db : Db) (found : Option Issuance)
    (taken : Bool) {u : Unit {0}} {db' : Db}
    → find k db.issuances ≡ found
    → NonePayable intent_id db
    → s.payment_intent_id ≡ intent_id
    → (if is_some found || taken then throw internal db else store_signed k signature s db)
      ≡ (ok u, db')
    → OnePayable db'
unfolding ◌>>=◌
insert_row intent_id k signature s db (some r) taken e h same run = absurd (cc run)
insert_row intent_id k signature s db none true e h same run = absurd (cc run)
insert_row intent_id k signature s db none false e h same run = rw (ap (λ r. r.1) (sym run)) (
    insert_new intent_id k (record s { expected_transaction_signature = some signature }) db h e
      same)

insert_issuance_payable :
    (intent_id k signature : String) (s : Issuance) (db : Db) {u : Unit {0}} {db' : Db}
    → NonePayable intent_id db
    → s.payment_intent_id ≡ intent_id
    → insert_issuance k signature s db ≡ (ok u, db')
    → OnePayable db'
unfolding insert_issuance
insert_issuance_payable intent_id k signature s db h same run =
    insert_row intent_id k signature s db (find k db.issuances) (signature_taken signature db) refl
      h same run

set_intent_status_payable :
    (k : String) (status : IntentStatus) → Keeps OnePayable (set_intent_status k status)
unfolding set_intent_status ◌>>=◌
set_intent_status_payable k status = record { at = λ db h. at_row (find k db.intents) db h }
  where
    at_row :
        (found : Option PaymentIntent) (db : Db)
        → OnePayable db
        → OnePayable (change_intent k (with_status status) found db).1
    at_row none db h = h
    at_row (some i) db h =
        if_keeps OnePayable
          (confirmed_buyer_check (with_status status i)
            && keeps_wallet i.confirmed_buyer_wallet i.confirmed_buyer_wallet)
          _ _ db (λ _. record { keyed = h.keyed; one = h.one }) (λ _. h)

set_signature_only :
    (intent_id k signature : String)
    → Keeps (OnlyPayable intent_id k) (set_expected_signature k signature)
unfolding set_expected_signature ◌>>=◌
set_signature_only intent_id k signature = record {
  at = λ db h. at_row (signature_taken signature db) (find k db.issuances) db refl h;
}
  where
    at_row :
        (taken : Bool) (found : Option Issuance) (db : Db)
        → find k db.issuances ≡ found
        → OnlyPayable intent_id k db
        → OnlyPayable intent_id k (change_signature k signature taken found db).1
    at_row taken none db e h = h
    at_row true (some s) db e h = h
    at_row false (some s) db e h =
        put_only db k s (record s { expected_transaction_signature = some signature }) e refl
          intent_id h (λ a. a)

-- What the chain's answer for the active issuance leaves: no second active issuance beside it.
issuance_state_only :
    (p : Platform) (env : Env) (chain : Chain) (intent_id k : String) (s : Issuance)
    → Keeps (OnlyPayable intent_id k) (issuance_state p env chain k s)
unfolding issuance_state require_expected_signature
issuance_state_only p env chain intent_id k s = search (keeps_rules, recover_only) depth 8
  where
    recover_only : (o : Option String) → Keeps (OnlyPayable intent_id k) (recover_signature p k s o)
    recover_only none = search (keeps_rules, set_signature_only) depth 8
    recover_only (some signature) = search (keeps_rules) depth 8

not_payable :
    (state : ChainState)
    → may_confirm state ≡ false
    → is_issuance_active (closing_status state) ≡ false
not_payable ChainState.payable e = absurd (cc e)
not_payable ChainState.landed e = absurd (cc e)
not_payable ChainState.failed e = refl
not_payable ChainState.expired e = refl

module _ (p : Platform) (env : Env) (chain : Chain) (issuance_id : String) (now : ℕ)
    (intent_id : String) where
  issue_payable :
      (intent : PaymentIntent) (buyer : String) (db db' : Db) (r : IssueResponse)
      → NonePayable intent_id db
      → issue p env chain issuance_id now intent_id intent buyer db ≡ (ok r, db')
      → OnePayable db'
  unfolding issue
  issue_payable intent buyer db db' r h done =
      let (creator_ata, _, at_platform) = lift_bind_ok _ _ db done in
      let (platform_ata, _, at_reference) = lift_bind_ok _ _ db at_platform in
      let (reference, _, at_latest) = lift_bind_ok _ _ db at_reference in
      let (latest, _, at_sign) = lift_bind_ok _ _ db at_latest in
      let (signature, _, at_insert) = lift_bind_ok _ _ db at_sign in
      let (_, db1, inserted, at_status) = bind_ok _ _ db at_insert in
      let (_, db2, status_set, at_end) = bind_ok _ _ db1 at_status in
      let payable = insert_issuance_payable intent_id issuance_id _ _ db h refl inserted in
      let after : OnePayable db2 =
        rw (ap (λ r. r.1) (sym status_set)) (when_keeps.at db1 payable) in
      rw ((pure_ok _ db2 at_end).1) after
    where
      when_keeps :
          Keeps OnePayable
            (when (is_created intent.status) (set_intent_status intent_id IntentStatus.pending))
      when_keeps = search (keeps_rules, set_intent_status_payable) depth 8

  issue_or_reuse_payable :
      (intent : PaymentIntent) (buyer : String) (active : Option (String × Issuance)) (db db' : Db)
      (r : IssueResponse)
      → OnePayable db
      → active_issuance intent_id db ≡ active
      → issue_or_reuse p env chain issuance_id now intent_id intent buyer active db ≡ (ok r, db')
      → OnePayable db'
  unfolding issue_or_reuse
  issue_or_reuse_payable intent buyer none db db' r h e done =
      issue_payable intent buyer db db' r
        (record { payable = h; closed = λ b t f. active_issuance-none intent_id db b t e f }) done
  issue_or_reuse_payable intent buyer (some (k, s)) db db' r h e done =
      let (state, db1, asked, rest) = bind_ok _ _ db done in
      let only : OnlyPayable intent_id k db1 = rw (ap (λ r. r.1) (sym asked)) (
        (issuance_state_only p env chain intent_id k s).at db (active_only intent_id k s db h e)) in
      elim (if_ok (may_confirm state) _ _ db1 rest) [
        | inl (_, reused) ↦ rw ((lift_ok _ db1 reused).1) only.payable
        | inr (settled, reissued) ↦
            let (_, db2, closed, issued) = bind_ok _ _ db1 reissued in
            issue_payable intent buyer db2 db' r
              (set_issuance_status_closes intent_id k (closing_status state) db1 only
                (not_payable state settled) closed)
              issued
      ]

  build_locked_payable :
      (buyer : String) (db db' : Db) (r : IssueResponse)
      → OnePayable db
      → build_locked p env chain issuance_id now intent_id buyer db ≡ (ok r, db')
      → OnePayable db'
  unfolding build_locked build_live
  build_locked_payable buyer db db' r h done =
      let (intent, _, rest) = lift_bind_ok _ _ db (gets_bind_ok _ _ db done) in
      elim (if_ok (leb intent.expires_at now) _ _ db rest) [
        | inl (_, gone_at) ↦
            absurd (expire_throws p env chain issuance_id now intent_id intent db db' r gone_at)
        | inr (_, live) ↦
            let (_, _, checked) = lift_bind_ok _ _ db (gets_bind_ok _ _ db live) in
            issue_or_reuse_payable intent buyer (active_issuance intent_id db) db db' r h refl
              (gets_bind_ok _ _ db checked)
      ]

  transaction_payable :
      (buyer : String) (db : Db) (r : Result IssueResponse × Db)
      → OnePayable db
      → transaction (build_locked p env chain issuance_id now intent_id buyer) db ≡ r
      → OnePayable r.1
  transaction_payable buyer db (ok r, db') h e =
      build_locked_payable buyer db db' r h (transaction_ok _ db e)
  transaction_payable buyer db (err x, db') h e = rw (transaction_err _ db e) h

  build_at :
      (account : String) (db : Db) (key : Result String)
      → OnePayable db
      → OnePayable
          ((lift key >>= λ buyer.
              transaction (build_locked p env chain issuance_id now intent_id buyer))
            db).1
  unfolding ◌>>=◌
  build_at account db (err x) h = h
  build_at account db (ok buyer) h = transaction_payable buyer db _ h refl

  -- If the keys of the issuances are distinct and any two active issuances of one intent are one, then
  -- the same holds after `buildTransaction`, whether it returns or throws, for any answers of the chain.
  pub build_transaction-OnePayable :
      (account : String) (db : Db)
      → OnePayable db
      → OnePayable (build_transaction p env chain issuance_id now intent_id account db).1
  unfolding build_transaction
  build_transaction-OnePayable account db h = build_at account db (payment_account p env account) h
