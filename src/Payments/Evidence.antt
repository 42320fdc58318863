-- ===== src/Payments/Evidence.antt =====
-- Sections 5 and 6 of `verifyPayment`: the finalized transaction, and the checklist that it must pass.
pub mod Checked
use sol_arch.Prelude.{
  ℕ, String, Bool, false, not, ◌&&◌, Option, none, some, List, ◌++◌, ◌==◌, eqb, ltb, any,
}
use mathlib.Core.List.{flatten}
use sol_arch.Failure.{bad_request, unavailable, invalid_request, backend_unavailable}
use sol_arch.Db.{PaymentIntent, Issuance}
use sol_arch.Action.{Result, ok, err, throw_if, unless_throw, or_throw, ◌&&=◌}
use sol_arch.Platform.{Platform, Env}
use sol_arch.Platform.Chain.{
  Chain, Rpc, answer, rpc_error, AccountKey, TransferInfo, Instruction, transfer_checked, other,
  ParsedTx,
}
use sol_arch.Payments.Economics.{split}

-- The three answers that the checks read.
pub record Landed : Type 0 where
  pub tx : ParsedTx
  pub message : List ℕ
  pub block_height : ℕ

abbrev pub or_backend : {A : Type 0} → Rpc A → Result A
or_backend (answer a) = ok a
or_backend rpc_error = err (unavailable backend_unavailable)

abbrev present : {A : Type 0} → Option A → Result A
present = or_throw (unavailable backend_unavailable)

-- The three RPC calls of one slot, and the test that their answers agree with it.
unfoldable pub landed : Chain → String → ℕ → Result Landed
landed chain signature slot = or_backend (chain.parsed_transaction signature) &&= λ parsed.
    or_backend (chain.transaction signature) &&= λ raw. or_backend (chain.block slot) &&= λ block.
    present parsed &&= λ tx. present raw &&= λ raw_tx. present raw_tx.message &&= λ message.
    unless_throw (eqb tx.slot slot && eqb raw_tx.slot slot) (unavailable backend_unavailable)
    &&= λ _. present block &&= λ found. present found &&= λ height.
        ok (record { tx = tx; message = message; block_height = height })

-- `info?.amount || info?.tokenAmount?.amount || 0`
abbrev pub transferred : TransferInfo → ℕ
transferred info = elim info.amount [
  | some a ↦ a
  | none ↦ elim info.token_amount [ some a ↦ a | none ↦ 0 ]
]

-- The instruction moves `units` of `mint` to `destination`.
unfoldable pub pays : String → String → ℕ → Instruction → Bool
pays mint destination units other = false
pays mint destination units (transfer_checked info) =
    (info.mint == mint) && (info.destination == destination) && eqb (transferred info) units

abbrev pub all_instructions : ParsedTx → List Instruction
all_instructions tx = tx.instructions ++ flatten tx.inner_instructions

abbrev has_key : String → List AccountKey → Bool
has_key key = any (λ k. k.pubkey == key)

abbrev pub has_signer : String → List AccountKey → Bool
has_signer key = any (λ k. k.signer && (k.pubkey == key))

-- Both transfers of the 95/5 split.
unfoldable pub pays_split : String → PaymentIntent → List Instruction → Bool
unfolding split pays
pays_split mint intent instructions =
    let shares = split intent.expected_price_amount 500 in
    any (pays mint intent.creator_ata shares.creator_units) instructions
    && any (pays mint intent.platform_ata shares.platform_units) instructions

-- `intent.reference && !accountKeyStrings.includes(intent.reference)`
unfoldable pub misses_reference : String → List AccountKey → Bool
misses_reference reference keys = not (reference == "") && not (has_key reference keys)

-- The checklist on the finalized transaction.
unfoldable pub checklist : Platform → Env → PaymentIntent → Issuance → Landed → Result (Unit {0})
unfolding pays_split misses_reference
checklist p env intent s l =
    unless_throw (p.sha256_hex l.message == s.transaction_message_hash)
      (bad_request invalid_request)
    &&= λ _.
        throw_if (ltb s.last_valid_block_height l.block_height) (bad_request invalid_request)
        &&= λ _.
            throw_if (misses_reference intent.reference l.tx.account_keys)
              (bad_request invalid_request)
            &&= λ _.
                unless_throw (pays_split env.usdc_mint intent (all_instructions l.tx))
                  (bad_request invalid_request)
                &&= λ _.
                    unless_throw
                      (has_signer env.fee_payer l.tx.account_keys
                        && has_signer s.construction_account l.tx.account_keys)
                      (bad_request invalid_request)
