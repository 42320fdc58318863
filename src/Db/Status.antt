-- ===== src/Db/Status.antt =====
-- The status columns, and `===` on them.
use sol_arch.Prelude.{Bool, true, false}

pub data TechnicalStatus : Type 0 where
  draft uploading processing ready failed : TechnicalStatus

pub data MarketplaceStatus : Type 0 where
  draft published unpublished blocked : MarketplaceStatus

pub data IntentStatus : Type 0 where
  created pending awaiting_finality confirmed expired failed : IntentStatus

pub data IssuanceStatus : Type 0 where
  active expired failed consumed : IssuanceStatus

pub data PaymentStatus : Type 0 where
  confirmed failed : PaymentStatus

-- the values that `EntitlementStatus` and `LicenseStatus` share
pub data LeaseStatus : Type 0 where
  active expired revoked : LeaseStatus

pub data UploadStatus : Type 0 where
  pending uploaded completed cancelled : UploadStatus

abbrev pub is_ready : TechnicalStatus → Bool
is_ready TechnicalStatus.ready = true
is_ready _ = false

abbrev pub is_uploading : TechnicalStatus → Bool
is_uploading TechnicalStatus.uploading = true
is_uploading _ = false

abbrev pub is_draft : MarketplaceStatus → Bool
is_draft MarketplaceStatus.draft = true
is_draft _ = false

abbrev pub is_published : MarketplaceStatus → Bool
is_published MarketplaceStatus.published = true
is_published _ = false

abbrev pub is_unpublished : MarketplaceStatus → Bool
is_unpublished MarketplaceStatus.unpublished = true
is_unpublished _ = false

abbrev pub is_blocked : MarketplaceStatus → Bool
is_blocked MarketplaceStatus.blocked = true
is_blocked _ = false

abbrev pub is_created : IntentStatus → Bool
is_created IntentStatus.created = true
is_created _ = false

abbrev pub is_confirmed : IntentStatus → Bool
is_confirmed IntentStatus.confirmed = true
is_confirmed _ = false

-- `confirmed`, `failed` and `expired` are final
abbrev pub is_terminal : IntentStatus → Bool
is_terminal IntentStatus.confirmed = true
is_terminal IntentStatus.expired = true
is_terminal IntentStatus.failed = true
is_terminal _ = false

abbrev pub is_issuance_active : IssuanceStatus → Bool
is_issuance_active IssuanceStatus.active = true
is_issuance_active _ = false

abbrev pub is_payment_confirmed : PaymentStatus → Bool
is_payment_confirmed PaymentStatus.confirmed = true
is_payment_confirmed _ = false

abbrev pub is_lease_active : LeaseStatus → Bool
is_lease_active LeaseStatus.active = true
is_lease_active _ = false

abbrev pub is_lease_expired : LeaseStatus → Bool
is_lease_expired LeaseStatus.expired = true
is_lease_expired _ = false
