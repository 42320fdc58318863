-- ===== src/Platform.antt =====
-- What the services call and the repository does not implement: Node's Buffer and crypto, bs58,
-- @solana/web3.js, @solana/spl-token and the HPKE library. Every handler takes these as an argument.
pub mod Chain
pub mod Sealing
use sol_arch.Prelude.{ℕ, String, Bool, Option, List}

-- An SPL `TransferChecked` instruction, as the backend builds it.
pub record Transfer : Type 0 where
  pub source : String
  pub mint : String
  pub destination : String
  pub owner : String
  pub amount : ℕ
  pub decimals : ℕ
  -- the keys pushed behind the instruction's own
  pub extra_keys : List String

-- The transaction that `buildTransaction` assembles.
pub record PaymentTx : Type 0 where
  pub recent_blockhash : String
  pub fee_payer : String
  pub creator_transfer : Transfer
  pub platform_transfer : Transfer
  pub memo : String

pub record Platform : Type 0 where
  -- `Buffer.from(text, 'base64')` and `bytes.toString('base64')`
  pub base64_decode : String → List ℕ
  pub base64_encode : List ℕ → String
  -- bs58; `none` is a throw
  pub bs58_decode : String → Option (List ℕ)
  pub bs58_encode : List ℕ → String
  pub sha256_hex : List ℕ → String
  -- `new PublicKey(text).toBase58()`; `none` is a throw
  pub public_key : String → Option String
  -- `getAssociatedTokenAddressSync(mint, owner)`
  pub associated_token_address : String → String → String
  -- `Transaction.from(bytes).signature`; the outer `none` is a throw
  pub stored_signature : List ℕ → Option (Option (List ℕ))
  -- `partialSign(feePayer)`: the fee payer's signature, if it verifies
  pub partial_sign : PaymentTx → Option (List ℕ)
  pub compile_message : PaymentTx → List ℕ
  pub serialize : PaymentTx → String
  -- the X25519 encapsulation of `validateDevicePublicKey`
  pub can_encapsulate : List ℕ → Bool

-- The values of apps/api/src/config/env.service.ts that the services read.
pub record Env : Type 0 where
  pub usdc_mint : String
  pub platform_wallet : String
  pub fee_payer : String
  pub intent_hmac_secret : String
  pub device_refresh_hmac_secret : String
  pub license_key_id : String
  pub license_signing_key : String
  pub public_api_origin : String
  pub ack_kek_secret : String

-- The TOKEN32 credentials of apps/api/src/crypto/token32.util.ts, as the services use them.
pub record Credentials : Type 0 where
  pub validate : String → Bool
  -- by the token and the pepper
  pub hash_intent : String → String → String
  pub hash_refresh : String → String → String
  -- by the token, the stored hash and the pepper
  pub verify_intent : String → String → String → Bool
  pub verify_refresh : String → String → String → Bool
