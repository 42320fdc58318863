-- ===== src/Samples.antt =====
-- Test data: the libraries as constant functions, and one archive on sale.
pub mod Coder
use sol_arch.Prelude.{ℕ, String, true, false, none, some, List, [], ◌∷◌}
use sol_arch.Db.{
  Archive, PaymentIntent, Issuance, Payment, Entitlement, Activation, License, Db, TechnicalStatus,
  MarketplaceStatus, IntentStatus, IssuanceStatus, PaymentStatus, LeaseStatus,
}
use sol_arch.Platform.{Platform, Env, Credentials}
use sol_arch.Platform.Chain.{Chain, answer, finalized, ParsedTx, transfer_checked}
use sol_arch.Platform.Sealing.{Sealing}
use sol_arch.Licensing.Seal.{Services}

abbrev pub zeros32 : List ℕ
zeros32 =
    0 ∷ 0 ∷ 0 ∷ 0 ∷ 0 ∷ 0 ∷ 0 ∷ 0 ∷ 0 ∷ 0 ∷ 0 ∷ 0 ∷ 0 ∷ 0 ∷ 0 ∷ 0 ∷ 0 ∷ 0 ∷ 0 ∷ 0 ∷ 0 ∷ 0 ∷ 0 ∷ 0
    ∷ 0 ∷ 0 ∷ 0 ∷ 0 ∷ 0 ∷ 0 ∷ 0 ∷ 0 ∷ []

abbrev zeros64 : List ℕ
zeros64 =
    0 ∷ 0 ∷ 0 ∷ 0 ∷ 0 ∷ 0 ∷ 0 ∷ 0 ∷ 0 ∷ 0 ∷ 0 ∷ 0 ∷ 0 ∷ 0 ∷ 0 ∷ 0 ∷ 0 ∷ 0 ∷ 0 ∷ 0 ∷ 0 ∷ 0 ∷ 0 ∷ 0
    ∷ 0 ∷ 0 ∷ 0 ∷ 0 ∷ 0 ∷ 0 ∷ 0 ∷ 0 ∷ zeros32

-- 32 zero bytes in Base64: a device key, and a nonce
abbrev pub key44 : String
key44 = "AAAAAAAAAAAAAAAAAAAAAAAAAAAAAAAAAAAAAAAAAAA="

abbrev pub fingerprint64 : String
fingerprint64 = "0000000000000000000000000000000000000000000000000000000000000000"

abbrev pub platform : Platform
platform = record {
  base64_decode = λ text. zeros32;
  base64_encode = λ bytes. key44;
  bs58_decode = λ text. some zeros64;
  bs58_encode = λ bytes. "signature";
  sha256_hex = λ bytes. "hash";
  public_key = λ text. some text;
  associated_token_address = λ mint owner. owner;
  stored_signature = λ bytes. none;
  partial_sign = λ tx. some zeros64;
  compile_message = λ tx. [];
  serialize = λ tx. "transaction";
  can_encapsulate = λ bytes. true;
}

abbrev pub env : Env
env = record {
  usdc_mint = "usdc";
  platform_wallet = "platform wallet";
  fee_payer = "payer";
  intent_hmac_secret = "";
  device_refresh_hmac_secret = "";
  license_key_id = "key";
  license_signing_key = "";
  public_api_origin = "";
  ack_kek_secret = "";
}

abbrev pub creds : Credentials
creds = record {
  validate = λ token. true;
  hash_intent = λ token pepper. "hmac";
  hash_refresh = λ token pepper. "refresh";
  verify_intent = λ token hash pepper. true;
  verify_refresh = λ token hash pepper. true;
}

abbrev pub archive : Archive
archive = record {
  creator_user_id = "u1";
  title = "plans";
  short_description = "";
  description = "";
  technical_status = TechnicalStatus.ready;
  marketplace_status = MarketplaceStatus.published;
  creator_payout_wallet = "creator wallet";
  creator_usdc_ata = some "creator";
  price_currency = "USDC";
  price_amount = 100;
  platform_fee_bps = 500;
  content_key_ref = some "ack";
  generated_slr_storage_key = some "slr";
  archive_fingerprint = some fingerprint64;
  max_devices = 1;
  allow_export = false;
  watermark_enabled = true;
}

abbrev pub intent : PaymentIntent
intent = record {
  archive_id = "a1";
  archive_fingerprint = fingerprint64;
  device_public_key = key44;
  client_secret_hmac = "hmac";
  expected_price_amount = 100;
  currency = "USDC";
  creator_wallet = "creator wallet";
  creator_ata = "creator";
  creator_share_amount = 95;
  platform_wallet = "platform wallet";
  platform_ata = "platform";
  platform_share_amount = 5;
  reference = "reference";
  status = IntentStatus.pending;
  expires_at = 1800000;
  confirmed_buyer_wallet = none;
  created_at = 0;
}

abbrev pub issuance : Issuance
issuance = record {
  payment_intent_id = "i1";
  construction_account = "buyer";
  expected_transaction_signature = some "signature";
  transaction_message_hash = "hash";
  recent_blockhash = "block";
  last_valid_block_height = 100;
  serialized_transaction = "transaction";
  issued_at = 5;
  status = IssuanceStatus.active;
}

-- An intent with its transaction, not paid yet.
abbrev pub unpaid : Db
unpaid = record {
  archives = ("a1", archive) ∷ [];
  listings = [];
  intents = ("i1", intent) ∷ [];
  issuances = ("s1", issuance) ∷ [];
  payments = [];
  entitlements = [];
  activations = [];
  licenses = [];
  uploads = [];
  public_files = [];
  events = [];
  nonces = [];
  custody = [];
  disk = [];
}

abbrev pub landed_tx : ParsedTx
landed_tx = record {
  slot = 7;
  failed = false;
  account_keys =
      record { pubkey = "payer"; signer = true }
      ∷ record { pubkey = "buyer"; signer = true }
      ∷ record { pubkey = "reference"; signer = false }
      ∷ [];
  instructions =
      transfer_checked (record {
        destination = "creator";
        mint = "usdc";
        amount = none;
        token_amount = some 950000;
      })
      ∷ transfer_checked (record {
        destination = "platform";
        mint = "usdc";
        amount = none;
        token_amount = some 50000;
      })
      ∷ [];
  inner_instructions = [];
}

abbrev pub chain : Chain
chain = record {
  signature_status = λ signature.
      answer (some (record { failed = false; confirmation = finalized; slot = some 7 }));
  block_height = answer 50;
  latest_blockhash = answer (record { blockhash = "next"; last_valid_block_height = 200 });
  parsed_transaction = λ signature. answer (some landed_tx);
  transaction = λ signature. answer (some (record { slot = 7; message = some [] }));
  block = λ slot. answer (some (some 60));
}

abbrev pub payment : Payment
payment = record {
  payment_intent_id = "i1";
  archive_id = "a1";
  buyer_wallet = "buyer";
  transaction_signature = "signature";
  device_public_key = key44;
  status = PaymentStatus.confirmed;
  slot = 7;
  block_height = 60;
}

abbrev pub entitlement : Entitlement
entitlement = record {
  archive_id = "a1";
  buyer_wallet = "buyer";
  device_public_key = key44;
  payment_id = "p1";
  status = LeaseStatus.active;
  max_devices = 1;
  devices_activated = 1;
  expires_at = none;
}

abbrev pub activation : Activation
activation = record {
  entitlement_id = "e1";
  device_public_key = key44;
  device_label = "laptop";
  viewer_version = "0.1.0";
  activated_at = 1000;
  last_seen_at = 1000;
  status = "active";
}

abbrev pub license : License
license = record {
  entitlement_id = "e1";
  device_activation_id = "act1";
  archive_id = "a1";
  device_public_key = key44;
  status = LeaseStatus.active;
  server_signature = "";
  issued_at = 1000;
  offline_valid_until = 259201000;
  refresh_token_hmac = some "refresh";
}

-- The intent is paid, and a license is issued on it.
abbrev pub licensed : Db
licensed = record unpaid {
  intents =
      (
        "i1",
        record intent { status = IntentStatus.confirmed; confirmed_buyer_wallet = some "buyer" },
      )
      ∷ [];
  issuances = ("s1", record issuance { status = IssuanceStatus.consumed }) ∷ [];
  payments = ("p1", payment) ∷ [];
  entitlements = ("e1", entitlement) ∷ [];
  activations = ("act1", activation) ∷ [];
  licenses = ("lic1", license) ∷ [];
}

abbrev pub sealing : Sealing
sealing = record {
  utf8 = λ text. [];
  sha256 = λ bytes. [];
  hkdf = λ secret salt info size. [];
  open_gcm = λ key iv aad tag ciphertext. some ciphertext;
  seal_gcm = λ key iv aad text. (text, []);
  hpke_seal = λ recipient info key aad. some ([], []);
  canonical_payload = λ payload. "";
  canonical_envelope = λ payload wrapped. "";
  sign_detached = λ message secret. [];
}

abbrev pub services : Services
services = record {
  platform = platform;
  sealing = sealing;
  env = env;
  vault =
      (
        "a1",
        some (record {
          archive_id = "a1";
          archive_fingerprint = fingerprint64;
          iv = "";
          tag = "";
          ciphertext = "";
        }),
      )
      ∷ [];
}
