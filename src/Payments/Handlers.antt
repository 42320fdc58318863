-- ===== src/Payments/Handlers.antt =====
-- The handlers of the payments module, as far as an invariant is concerned: what each write of the
-- database keeps, every handler keeps, whether it returns or throws.
use sol_arch.Prelude.{ℕ, String, Bool, Option, none, some}
use sol_arch.Db.{PaymentIntent, Issuance, Payment, IntentStatus, IssuanceStatus, Db}
use sol_arch.Db.Writes.{
  set_intent_status, set_issuance_status, close_issuance, set_expected_signature, insert_issuance,
  insert_intent,
}
use sol_arch.Action.Keeps.{Keeps, keeps_rules}
use sol_arch.Platform.{Platform, Env, Credentials}
use sol_arch.Platform.Chain.{Chain, SignatureStatus}
use sol_arch.Payments.Checks.{require_expected_signature, recover_signature}
use sol_arch.Payments.Create.{CreateRequest, IntentDraw, create_payment_intent}
use sol_arch.Payments.Issue.{
  issuance_state, may_still_confirm, expire, issue, issue_or_reuse, build_live, build_locked,
  build_transaction,
}
use sol_arch.Payments.Evidence.{Landed}
use sol_arch.Payments.Commit.{Purchase, Verified, commit}
use sol_arch.Payments.Verify.{
  VerifyRequest, VerifyResponse, Candidate, Progress, answered, at_slot, candidate,
  active_candidate, recorded, recorded_elsewhere, already_confirmed, authenticate, verify_candidate,
  verify_intent, verify_payment, expire_when, unseen, seen, status_progress, chain_status,
  check_and_commit, on_progress, verify_on_chain,
}

pub record KeptByWrites (P : Db → Type 0) : Type 0 where
  pub on_status : (id : String) (status : IntentStatus) → Keeps P (set_intent_status id status)
  pub on_issuance :
      (id : String) (status : IssuanceStatus) → Keeps P (set_issuance_status id status)
  pub on_close : (id : String) (status : IssuanceStatus) → Keeps P (close_issuance id status)
  pub on_signature : (id signature : String) → Keeps P (set_expected_signature id signature)
  pub on_issue : (id signature : String) (s : Issuance) → Keeps P (insert_issuance id signature s)
  pub on_intent : (id : String) (i : PaymentIntent) → Keeps P (insert_intent id i)
  pub on_commit : (draw : Purchase) (v : Verified) → Keeps P (commit draw v)

module _ {P : Db → Type 0} (w : KeptByWrites P) where
  open w use {on_status, on_issuance, on_close, on_signature, on_issue, on_intent, on_commit}

  create_payment_intent-Keeps :
      (p : Platform) (env : Env) (creds : Credentials) (draw : IntentDraw) (now : ℕ)
      (dto : CreateRequest)
      → Keeps P (create_payment_intent p env creds draw now dto)
  unfolding create_payment_intent
  create_payment_intent-Keeps p env creds draw now dto = search (keeps_rules, on_intent) depth 12

  module _ (p : Platform) (env : Env) (chain : Chain) where
    recover-Keeps :
        (id : String) (s : Issuance) (stored : Option String)
        → Keeps P (recover_signature p id s stored)
    recover-Keeps id s none = search (keeps_rules, on_signature) depth 8
    recover-Keeps id s (some signature) = search keeps_rules

    issuance_state-Keeps : (id : String) (s : Issuance) → Keeps P (issuance_state p env chain id s)
    unfolding issuance_state require_expected_signature
    issuance_state-Keeps id s = search (keeps_rules, recover-Keeps)

    may_still_confirm-Keeps :
        (active : Option (String × Issuance)) → Keeps P (may_still_confirm p env chain active)
    may_still_confirm-Keeps none = search keeps_rules
    may_still_confirm-Keeps (some (id, s)) =
        search (keeps_rules, on_issuance, issuance_state-Keeps) depth 8

    expire-Keeps : (id : String) (i : PaymentIntent) → Keeps P (expire p env chain id i)
    unfolding expire
    expire-Keeps id i = search (keeps_rules, on_status, may_still_confirm-Keeps) depth 8

    issue-Keeps :
        (issuance_id : String) (now : ℕ) (id : String) (i : PaymentIntent) (buyer : String)
        → Keeps P (issue p env chain issuance_id now id i buyer)
    unfolding issue
    issue-Keeps issuance_id now id i buyer = search (keeps_rules, on_status, on_issue) depth 16

    issue_or_reuse-Keeps :
        (issuance_id : String) (now : ℕ) (id : String) (i : PaymentIntent) (buyer : String)
        (active : Option (String × Issuance))
        → Keeps P (issue_or_reuse p env chain issuance_id now id i buyer active)
    unfolding issue_or_reuse
    issue_or_reuse-Keeps issuance_id now id i buyer none = issue-Keeps issuance_id now id i buyer
    issue_or_reuse-Keeps issuance_id now id i buyer (some (k, s)) =
        search (keeps_rules, on_issuance, issuance_state-Keeps, issue-Keeps) depth 8

    build_live-Keeps :
        (issuance_id : String) (now : ℕ) (id : String) (i : PaymentIntent) (buyer : String)
        → Keeps P (build_live p env chain issuance_id now id i buyer)
    unfolding build_live
    build_live-Keeps issuance_id now id i buyer = search (keeps_rules, issue_or_reuse-Keeps) depth 8

    build_locked-Keeps :
        (issuance_id : String) (now : ℕ) (id buyer : String)
        → Keeps P (build_locked p env chain issuance_id now id buyer)
    unfolding build_locked
    build_locked-Keeps issuance_id now id buyer =
        search (keeps_rules, expire-Keeps, build_live-Keeps) depth 8

    build_transaction-Keeps :
        (issuance_id : String) (now : ℕ) (id account : String)
        → Keeps P (build_transaction p env chain issuance_id now id account)
    unfolding build_transaction
    build_transaction-Keeps issuance_id now id account = search (keeps_rules, build_locked-Keeps)

  expire_when-Keeps :
      (late : Bool) (id : String) (r : VerifyResponse) → Keeps P (expire_when late id r)
  expire_when-Keeps late id r = search (keeps_rules, on_status)

  module _ (chain : Chain) (now : ℕ) (id : String) (i : PaymentIntent) (c : Candidate) where
    unseen-Keeps : Keeps P (unseen chain now id i c)
    unfolding unseen
    unseen-Keeps = search (keeps_rules, on_close, expire_when-Keeps) depth 8

    seen-Keeps : (s : SignatureStatus) → Keeps P (seen chain now id i c s)
    unfolding seen
    seen-Keeps s = search (keeps_rules, on_status, on_close) depth 8

    chain_status-Keeps : Keeps P (chain_status chain now id i c)
    unfolding chain_status
    chain_status-Keeps = search (keeps_rules, status_progress_keeps)
      where
        status_progress_keeps :
            (s : Option SignatureStatus) → Keeps P (status_progress chain now id i c s)
        status_progress_keeps none = search (keeps_rules, unseen-Keeps)
        status_progress_keeps (some s) = seen-Keeps s

    verify_on_chain-Keeps :
        (p : Platform) (env : Env) (draw : Purchase)
        → Keeps P (verify_on_chain chain now id i c p env draw)
    unfolding verify_on_chain
    verify_on_chain-Keeps p env draw = search (keeps_rules, chain_status-Keeps, on_progress_keeps)
      where
        check_keeps :
            (slot : ℕ) (l : Landed) → Keeps P (check_and_commit chain now id i c p env draw slot l)
        check_keeps slot l = search (keeps_rules, on_close, on_commit) depth 8

        on_progress_keeps : (r : Progress) → Keeps P (on_progress chain now id i c p env draw r)
        on_progress_keeps (answered r) = search keeps_rules
        on_progress_keeps (at_slot slot) = search (keeps_rules, check_keeps)

  module _ (p : Platform) (env : Env) (creds : Credentials) (chain : Chain) (draw : Purchase)
      (now : ℕ) where
    recorded-Keeps : (i : PaymentIntent) (id : String) (q : Payment) → Keeps P (recorded i id q)
    unfolding recorded
    recorded-Keeps i id q = search keeps_rules depth 8

    recorded_elsewhere-Keeps :
        (id : String) (i : PaymentIntent) (c : Candidate) (q : Option (String × Payment))
        → Keeps P (recorded_elsewhere p env creds chain draw now id i c q)
    recorded_elsewhere-Keeps id i c none = verify_on_chain-Keeps chain now id i c p env draw
    recorded_elsewhere-Keeps id i c (some (k, q)) = search (keeps_rules, recorded-Keeps)

    verify_candidate-Keeps :
        (id : String) (i : PaymentIntent) (c : Option Candidate)
        → Keeps P (verify_candidate p env creds chain draw now id i c)
    unfolding verify_candidate
    verify_candidate-Keeps id i none = search (expire_when-Keeps)
    verify_candidate-Keeps id i (some c) = search (keeps_rules, recorded_elsewhere-Keeps)

    active_candidate-Keeps :
        (active : Option (String × Issuance)) → Keeps P (active_candidate p active)
    active_candidate-Keeps none = search keeps_rules
    active_candidate-Keeps (some (k, s)) = search keeps_rules

    candidate-Keeps : (id : String) (named : Option String) → Keeps P (candidate p id named)
    unfolding candidate
    candidate-Keeps id none = search (keeps_rules, active_candidate-Keeps)
    candidate-Keeps id (some s) = search keeps_rules

    verify_intent-Keeps :
        (id : String) (dto : VerifyRequest) (i : PaymentIntent)
        → Keeps P (verify_intent p env creds chain draw now id dto i)
    unfolding verify_intent already_confirmed
    verify_intent-Keeps id dto i =
        search (keeps_rules, candidate-Keeps, verify_candidate-Keeps, recorded-Keeps) depth 10

    verify_payment-Keeps :
        (id header : String) (dto : VerifyRequest)
        → Keeps P (verify_payment p env creds chain draw now id header dto)
    unfolding verify_payment authenticate
    verify_payment-Keeps id header dto = search (keeps_rules, verify_intent-Keeps) depth 8
