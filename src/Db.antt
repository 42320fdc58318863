-- ===== src/Db.antt =====
-- The tables of apps/api/prisma/schema.prisma that the services read and write, each row under its
-- `id` (a listing under its `archive_id`, which is unique), and two directories of the storage root:
-- the custody files, by archive, and the uploaded files, by path. Times are milliseconds since the epoch. A USDC amount that the schema stores as a text with
-- two decimals is its number of hundredths: "12.50" is 1250.
pub mod Status
pub mod Writes
pub mod Leases
pub mod Contents
pub use Status.*
use sol_arch.Prelude.{ℕ, String, Bool, Option, List}
use sol_arch.Table.{Table}

pub record Archive : Type 0 where
  pub creator_user_id : String
  pub title : String
  pub short_description : String
  pub description : String
  pub technical_status : TechnicalStatus
  pub marketplace_status : MarketplaceStatus
  pub creator_payout_wallet : String
  pub creator_usdc_ata : Option String
  pub price_currency : String
  pub price_amount : ℕ
  pub platform_fee_bps : ℕ
  pub content_key_ref : Option String
  pub generated_slr_storage_key : Option String
  pub archive_fingerprint : Option String
  pub max_devices : ℕ
  pub allow_export : Bool
  pub watermark_enabled : Bool

pub record PaymentIntent : Type 0 where
  pub archive_id : String
  pub archive_fingerprint : String
  pub device_public_key : String
  pub client_secret_hmac : String
  pub expected_price_amount : ℕ
  pub currency : String
  pub creator_wallet : String
  pub creator_ata : String
  pub creator_share_amount : ℕ
  pub platform_wallet : String
  pub platform_ata : String
  pub platform_share_amount : ℕ
  pub reference : String
  pub status : IntentStatus
  pub expires_at : ℕ
  pub confirmed_buyer_wallet : Option String
  pub created_at : ℕ

pub record Issuance : Type 0 where
  pub payment_intent_id : String
  pub construction_account : String
  pub expected_transaction_signature : Option String
  pub transaction_message_hash : String
  pub recent_blockhash : String
  pub last_valid_block_height : ℕ
  pub serialized_transaction : String
  pub issued_at : ℕ
  pub status : IssuanceStatus

pub record Payment : Type 0 where
  pub payment_intent_id : String
  pub archive_id : String
  pub buyer_wallet : String
  pub transaction_signature : String
  pub device_public_key : String
  pub status : PaymentStatus
  pub slot : ℕ
  pub block_height : ℕ

pub record Entitlement : Type 0 where
  pub archive_id : String
  pub buyer_wallet : String
  pub device_public_key : String
  pub payment_id : String
  pub status : LeaseStatus
  pub max_devices : ℕ
  pub devices_activated : ℕ
  pub expires_at : Option ℕ

pub record Activation : Type 0 where
  pub entitlement_id : String
  pub device_public_key : String
  pub device_label : String
  pub viewer_version : String
  pub activated_at : ℕ
  pub last_seen_at : ℕ
  pub status : String

pub record License : Type 0 where
  pub entitlement_id : String
  pub device_activation_id : String
  pub archive_id : String
  pub device_public_key : String
  pub status : LeaseStatus
  pub server_signature : String
  pub issued_at : ℕ
  pub offline_valid_until : ℕ
  pub refresh_token_hmac : Option String

pub record Upload : Type 0 where
  pub archive_id : String
  pub original_filename : String
  pub size_bytes : ℕ
  pub storage_key : String
  pub status : UploadStatus

pub record PublicFile : Type 0 where
  pub archive_id : String
  pub display_path : String
  pub display_name : String
  pub file_extension : String
  pub mime_type : String
  pub size_bytes : ℕ
  pub sort_order : ℕ

pub record Listing : Type 0 where
  pub slug : String
  pub title : String
  pub short_description : String
  pub description : String
  pub category : Option String
  pub marketplace_status : MarketplaceStatus
  pub published_at : Option ℕ

-- A custody file of apps/api/src/modules/uploads/ack-custody.service.ts, less its version and date.
pub record AckCustodyEnvelope : Type 0 where
  pub archive_id : String
  pub archive_fingerprint : String
  pub iv : String
  pub tag : String
  pub ciphertext : String

-- The directory of the custody files; a file that does not parse is `none`.
abbrev pub Vault : Type 0
Vault = Table (Option AckCustodyEnvelope)

-- The `payment_confirmed` events; views and downloads are not part of this state.
pub record Event : Type 0 where
  pub archive_id : String
  pub payment_id : String

-- A row of `request_nonce_records`
pub record Nonce : Type 0 where
  pub credential_record_id : String
  pub request_nonce_hash : String

pub record Db : Type 0 where
  pub archives : Table Archive
  pub listings : Table Listing
  pub intents : Table PaymentIntent
  pub issuances : Table Issuance
  pub payments : Table Payment
  pub entitlements : Table Entitlement
  pub activations : Table Activation
  pub licenses : Table License
  pub uploads : Table Upload
  pub public_files : List PublicFile
  pub events : List Event
  pub nonces : List Nonce
  pub custody : Vault
  pub disk : Table (List ℕ)
