-- ===== src/Payments/Issue.antt =====
-- `buildTransaction`: the one payable Solana transaction of an intent.
pub mod Payable
pub mod Expired
pub mod Single
use sol_arch.Prelude.{
  ℕ, String, Bool, true, false, not, ◌&&◌, Option, none, some, List, [], ◌∷◌, ◌==◌, leb,
  append_text, if◌then◌else◌,
}
use sol_arch.Table.{Table, find, select}
use sol_arch.Failure.{
  bad_request, not_found, conflict, gone, unavailable, internal, invalid_payment_account,
  payment_intent_not_available, payment_intent_expired, payment_transaction_in_flight,
  payment_transaction_unavailable,
}
use sol_arch.Db.{
  Archive, PaymentIntent, Issuance, IntentStatus, IssuanceStatus, Db, is_created, is_confirmed,
  is_terminal, is_issuance_active,
}
use sol_arch.Db.Writes.{set_intent_status, set_issuance_status, insert_issuance}
use sol_arch.Action.{
  Result, ok, err, Action, pure, throw, gets, lift, throw_if, unless_throw, or_throw, transaction,
  rescue, when, ◌>>=◌, ◌>>◌, ◌&&=◌,
}
use sol_arch.Platform.{Platform, Env, PaymentTx, Transfer}
use sol_arch.Platform.Chain.{Chain, Rpc, answer, rpc_error, Blockhash}
use sol_arch.Payments.Economics.{split}
use sol_arch.Payments.Checks.{
  assert_archive_payment_policy, assert_archive_fingerprint_snapshot, issuance_chain_state,
  may_confirm, closing_status, require_expected_signature, ChainState,
}
use sol_arch.Payments.Create.{is_on_sale}

-- The answer: the serialized transaction, and the amount that its message names.
pub record IssueResponse : Type 0 where
  pub transaction : String
  pub amount : ℕ

-- The later of two rows, for `orderBy: { issuedAt: 'desc' }`
abbrev later : String × Issuance → Option (String × Issuance) → Option (String × Issuance)
later (k, s) none = some (k, s)
later (k, s) (some (j, t)) = if leb t.issued_at s.issued_at then some (k, s) else some (j, t)

unfoldable pub latest : Table Issuance → Option (String × Issuance)
latest [] = none
latest ((k, s) ∷ t) = later (k, s) (latest t)

abbrev pub is_active_for : String → Issuance → Bool
is_active_for intent_id s = (s.payment_intent_id == intent_id) && is_issuance_active s.status

-- `findFirst({ where: { paymentIntentId, status: 'active' }, orderBy: { issuedAt: 'desc' } })`
unfoldable pub active_issuance : String → Db → Option (String × Issuance)
active_issuance intent_id db = latest (select (is_active_for intent_id) db.issuances)

-- The buyer's account, which must be canonical and not the fee payer.
unfoldable pub payment_account : Platform → Env → String → Result String
payment_account p env account =
    or_throw (bad_request invalid_payment_account) (p.public_key account) &&= λ key.
    unless_throw (not (account == "") && (key == account)) (bad_request invalid_payment_account)
    &&= λ _. throw_if (key == env.fee_payer) (bad_request invalid_payment_account) &&= λ _. ok key

module _ (p : Platform) (env : Env) (chain : Chain) where
  -- The state on the chain of a stored issuance.
  unfoldable pub issuance_state : String → Issuance → Action ChainState
  issuance_state id s = do
    signature ← require_expected_signature p id s
    lift (issuance_chain_state chain signature s.last_valid_block_height)

  abbrev pub close_if_settled : String → ChainState → Action Bool
  close_if_settled id state =
      if may_confirm state
      then pure true
      else (set_issuance_status id (closing_status state) >>= λ _. pure false)

  -- whether an active issuance may still confirm, on an intent that has expired
  abbrev pub may_still_confirm : Option (String × Issuance) → Action Bool
  may_still_confirm none = pure false
  may_still_confirm (some (id, s)) = rescue (issuance_state id s >>= close_if_settled id) true

  unfoldable pub expire : String → PaymentIntent → Action IssueResponse
  unfolding issuance_state
  expire intent_id intent = do
    active ← gets (active_issuance intent_id)
    waits ← may_still_confirm active
    when (not waits && not (is_terminal intent.status))
        (set_intent_status intent_id IntentStatus.expired)
    throw (gone payment_intent_expired)

  abbrev pub rpc_result {ℓ} : {A : Type ℓ} → Rpc A → Result A
  rpc_result (answer a) = ok a
  rpc_result rpc_error = err (unavailable payment_transaction_unavailable)

  abbrev transfer : String → String → String → ℕ → List String → Transfer
  transfer source owner destination amount extra = record {
    source = source;
    mint = env.usdc_mint;
    destination = destination;
    owner = owner;
    amount = amount;
    decimals = 6;
    extra_keys = extra;
  }

  abbrev pub key_of : String → Result String
  key_of text = or_throw internal (p.public_key text)

  -- The transaction of an intent for a buyer: both transfers, the reference and the memo.
  unfoldable pub payment_tx :
      String → PaymentIntent → String → String → String → String → Blockhash → PaymentTx
  unfolding split
  payment_tx intent_id intent buyer creator_ata platform_ata reference latest =
      let shares = split intent.expected_price_amount 500 in
      let source = p.associated_token_address env.usdc_mint buyer in
      record {
        recent_blockhash = latest.blockhash;
        fee_payer = env.fee_payer;
        creator_transfer = transfer source buyer creator_ata shares.creator_units (reference ∷ []);
        platform_transfer = transfer source buyer platform_ata shares.platform_units [];
        memo = append_text "SolArch:" intent_id;
      }

  -- The new issuance, and the intent set to `pending`.
  unfoldable pub issue : String → ℕ → String → PaymentIntent → String → Action IssueResponse
  unfolding payment_tx
  issue issuance_id now intent_id intent buyer = do
    creator_ata ← lift (key_of intent.creator_ata)
    platform_ata ← lift (key_of intent.platform_ata)
    reference ← lift (key_of intent.reference)
    latest ← lift (rpc_result chain.latest_blockhash)
    let tx = payment_tx intent_id intent buyer creator_ata platform_ata reference latest
    signature ← lift (or_throw (unavailable payment_transaction_unavailable) (p.partial_sign tx))
    insert_issuance issuance_id (p.bs58_encode signature) (record {
      payment_intent_id = intent_id;
      construction_account = buyer;
      expected_transaction_signature = none;
      transaction_message_hash = p.sha256_hex (p.compile_message tx);
      recent_blockhash = latest.blockhash;
      last_valid_block_height = latest.last_valid_block_height;
      serialized_transaction = p.serialize tx;
      issued_at = now;
      status = IssuanceStatus.active;
    })
    when (is_created intent.status) (set_intent_status intent_id IntentStatus.pending)
    pure (record { transaction = p.serialize tx; amount = intent.expected_price_amount })

  -- The stored transaction, if the active issuance can still be paid.
  abbrev pub reuse : PaymentIntent → String → Issuance → Action IssueResponse
  reuse intent buyer s = lift (
      if s.construction_account == buyer
      then ok
          (record { transaction = s.serialized_transaction; amount = intent.expected_price_amount })
      else err (conflict payment_transaction_in_flight))

  unfoldable pub issue_or_reuse :
      String
      → ℕ
      → String
      → PaymentIntent
      → String
      → Option (String × Issuance)
      → Action IssueResponse
  unfolding issue issuance_state
  issue_or_reuse issuance_id now intent_id intent buyer none =
      issue issuance_id now intent_id intent buyer
  issue_or_reuse issuance_id now intent_id intent buyer (some (id, s)) = do
    state ← issuance_state id s
    if may_confirm state
        then reuse intent buyer s
        else (set_issuance_status id (closing_status state)
            >> issue issuance_id now intent_id intent buyer)

  abbrev fingerprint_of : Option Archive → Option String
  fingerprint_of none = none
  fingerprint_of (some a) = a.archive_fingerprint

  -- What `buildTransaction` asks of an intent that has not expired.
  unfoldable pub payable_intent : PaymentIntent → Option Archive → Result (Unit {0})
  unfolding assert_archive_payment_policy assert_archive_fingerprint_snapshot is_on_sale
  payable_intent intent archive =
      throw_if (is_confirmed intent.status) (conflict payment_transaction_in_flight) &&= λ _.
      unless_throw (is_on_sale archive) (not_found payment_intent_not_available) &&= λ _.
      or_throw (not_found payment_intent_not_available) archive &&= λ a.
      assert_archive_payment_policy a &&= λ _.
      assert_archive_fingerprint_snapshot intent (fingerprint_of archive)

  unfoldable pub build_live : String → ℕ → String → PaymentIntent → String → Action IssueResponse
  unfolding issue_or_reuse payable_intent
  build_live issuance_id now intent_id intent buyer = do
    archive ← gets (λ db. find intent.archive_id db.archives)
    lift (payable_intent intent archive)
    active ← gets (active_issuance intent_id)
    issue_or_reuse issuance_id now intent_id intent buyer active

  -- The body of the transaction.
  unfoldable pub build_locked : String → ℕ → String → String → Action IssueResponse
  unfolding expire build_live
  build_locked issuance_id now intent_id buyer = do
    found ← gets (λ db. find intent_id db.intents)
    intent ← lift (or_throw (not_found payment_intent_not_available) found)
    if leb intent.expires_at now
        then expire intent_id intent
        else build_live issuance_id now intent_id intent buyer

  -- `buildTransaction`
  unfoldable pub build_transaction : String → ℕ → String → String → Action IssueResponse
  unfolding payment_account build_locked
  build_transaction issuance_id now intent_id account = do
    buyer ← lift (payment_account p env account)
    transaction (build_locked issuance_id now intent_id buyer)
