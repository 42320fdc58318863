-- ===== src/Platform/Chain.antt =====
-- The answers of the Solana RPC node. One `Chain` holds the answers of one request; nothing is
-- assumed of them.
use sol_arch.Prelude.{ℕ, String, Bool, true, false, Option, List}

pub data Rpc {ℓ} (A : Type ℓ) : Type ℓ where
  answer : A → Rpc A
  rpc_error : Rpc A

pub data Confirmation : Type 0 where
  finalized : Confirmation
  -- `processed`, `confirmed`, or absent
  unsettled : Confirmation

abbrev pub is_finalized : Confirmation → Bool
is_finalized finalized = true
is_finalized unsettled = false

-- An entry of `getSignatureStatuses`; `slot` is `none` if it is no safe natural number.
pub record SignatureStatus : Type 0 where
  pub failed : Bool
  pub confirmation : Confirmation
  pub slot : Option ℕ

pub record AccountKey : Type 0 where
  pub pubkey : String
  pub signer : Bool

-- `parsed.info` of a `transferChecked` instruction
pub record TransferInfo : Type 0 where
  pub destination : String
  pub mint : String
  pub amount : Option ℕ
  pub token_amount : Option ℕ

pub data Instruction : Type 0 where
  transfer_checked : TransferInfo → Instruction
  other : Instruction

pub record ParsedTx : Type 0 where
  pub slot : ℕ
  pub failed : Bool
  pub account_keys : List AccountKey
  pub instructions : List Instruction
  pub inner_instructions : List (List Instruction)

-- `getTransaction`; the message's bytes, if there is a message
pub record RawTx : Type 0 where
  pub slot : ℕ
  pub message : Option (List ℕ)

pub record Blockhash : Type 0 where
  pub blockhash : String
  pub last_valid_block_height : ℕ

pub record Chain : Type 0 where
  pub signature_status : String → Rpc (Option SignatureStatus)
  pub block_height : Rpc ℕ
  pub latest_blockhash : Rpc Blockhash
  pub parsed_transaction : String → Rpc (Option ParsedTx)
  pub transaction : String → Rpc (Option RawTx)
  -- by the slot: the block, and its height if that is a safe natural number
  pub block : ℕ → Rpc (Option (Option ℕ))
