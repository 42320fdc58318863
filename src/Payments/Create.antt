-- ===== src/Payments/Create.antt =====
-- `createPaymentIntent` and `getSolanaPayMetadata`.
use sol_arch.Prelude.{
  ℕ, ◌+◌, ◌*◌, ◌/◌, String, Bool, ◌&&◌, Option, none, some, leb, is_hex64, if◌then◌else◌,
}
use sol_arch.Table.{find}
use sol_arch.Failure.{
  bad_request, forbidden, not_found, gone, unavailable, internal, plain, archive_not_available,
  archive_blocked, backend_unavailable, payment_intent_not_available, payment_intent_expired,
}
use sol_arch.Db.{Archive, PaymentIntent, IntentStatus, is_published, is_blocked, is_ready}
use sol_arch.Db.Writes.{insert_intent}
use sol_arch.Action.{
  Result, Action, pure, gets, lift, throw_if, unless_throw, or_throw, ◌>>=◌, ◌>>◌, ◌&&=◌,
}
use sol_arch.Platform.{Platform, Env, Credentials}
use sol_arch.Crypto.DeviceKey.{is_device_key}
use sol_arch.Payments.Economics.{split, to_fixed}
use sol_arch.Payments.Checks.{assert_archive_payment_policy}

pub record CreateRequest : Type 0 where
  pub archive_id : String
  pub device_public_key : String

-- What is drawn at random for one new intent.
pub record IntentDraw : Type 0 where
  pub intent_id : String
  pub client_secret : String
  pub reference : String

pub record IntentResponse : Type 0 where
  pub payment_intent_id : String
  pub archive_id : String
  pub archive_fingerprint : String
  pub device_public_key : String
  pub payment_intent_client_secret : String
  pub amount : ℕ
  pub currency : String
  pub creator_share : ℕ
  pub platform_share : ℕ
  pub payment_reference : String
  pub created_at : ℕ
  pub expires_at : ℕ
  pub status : IntentStatus

-- `Math.floor(ms / 1000) * 1000`
abbrev pub exact_second : ℕ → ℕ
exact_second now = now / 1000 * 1000

abbrev pub intent_lifetime : ℕ
intent_lifetime = 1800 * 1000

-- A fingerprint that `/^[0-9a-f]{64}$/` accepts.
unfoldable pub hex64 : Option String → Option String
unfolding is_hex64
hex64 none = none
hex64 (some s) = if is_hex64 s then some s else none

-- The archive can be bought; its fingerprint.
unfoldable pub purchasable : Archive → Result String
unfolding assert_archive_payment_policy
purchasable a = throw_if (is_blocked a.marketplace_status) (forbidden archive_blocked) &&= λ _.
    unless_throw (is_published a.marketplace_status && is_ready a.technical_status)
      (not_found archive_not_available)
    &&= λ _. assert_archive_payment_policy a &&= λ _.
        or_throw (unavailable backend_unavailable) (hex64 a.archive_fingerprint)

-- The row that `paymentIntent.create` is given.
unfoldable pub new_intent :
    Platform
    → Env
    → Credentials
    → CreateRequest
    → IntentDraw
    → ℕ
    → Archive
    → String
    → String
    → PaymentIntent
unfolding split
new_intent p env creds dto draw now a ata fingerprint =
    let shares = split a.price_amount a.platform_fee_bps in
    record {
      archive_id = dto.archive_id;
      archive_fingerprint = fingerprint;
      device_public_key = dto.device_public_key;
      client_secret_hmac = creds.hash_intent draw.client_secret env.intent_hmac_secret;
      expected_price_amount = a.price_amount;
      currency = "USDC";
      creator_wallet = a.creator_payout_wallet;
      creator_ata = ata;
      creator_share_amount = to_fixed shares.creator_units;
      platform_wallet = env.platform_wallet;
      platform_ata = p.associated_token_address env.usdc_mint env.platform_wallet;
      platform_share_amount = to_fixed shares.platform_units;
      reference = draw.reference;
      status = IntentStatus.created;
      expires_at = exact_second now + intent_lifetime;
      confirmed_buyer_wallet = none;
      created_at = exact_second now;
    }

unfoldable pub intent_response : CreateRequest → IntentDraw → PaymentIntent → IntentResponse
intent_response dto draw i = record {
  payment_intent_id = draw.intent_id;
  archive_id = dto.archive_id;
  archive_fingerprint = i.archive_fingerprint;
  device_public_key = dto.device_public_key;
  payment_intent_client_secret = draw.client_secret;
  amount = i.expected_price_amount;
  currency = "USDC";
  creator_share = i.creator_share_amount;
  platform_share = i.platform_share_amount;
  payment_reference = draw.reference;
  created_at = i.created_at;
  expires_at = i.expires_at;
  status = IntentStatus.created;
}

-- `createPaymentIntent`
unfoldable pub create_payment_intent :
    Platform → Env → Credentials → IntentDraw → ℕ → CreateRequest → Action IntentResponse
unfolding purchasable
create_payment_intent p env creds draw now dto = do
  lift (unless_throw (is_device_key p dto.device_public_key) (bad_request plain))
  found ← gets (λ db. find dto.archive_id db.archives)
  archive ← lift (or_throw (not_found archive_not_available) found)
  fingerprint ← lift (purchasable archive)
  ata ← lift (or_throw internal archive.creator_usdc_ata)
  let intent = new_intent p env creds dto draw now archive ata fingerprint
  insert_intent draw.intent_id intent
  pure (intent_response dto draw intent)

-- The archive of an intent is on sale.
unfoldable pub is_on_sale : Option Archive → Bool
is_on_sale none = Bool.false
is_on_sale (some a) = is_published a.marketplace_status && is_ready a.technical_status

-- `getSolanaPayMetadata`; the answer is the icon's origin
unfoldable pub get_solana_pay_metadata : Env → ℕ → String → Action String
get_solana_pay_metadata env now intent_id = do
  found ← gets (λ db. find intent_id db.intents)
  intent ← lift (or_throw (not_found payment_intent_not_available) found)
  archive ← gets (λ db. find intent.archive_id db.archives)
  lift (unless_throw (is_on_sale archive) (not_found payment_intent_not_available))
  lift (throw_if (leb intent.expires_at now) (gone payment_intent_expired))
  pure env.public_api_origin
