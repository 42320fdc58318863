-- ===== src/Failure.antt =====
-- The exceptions that the services throw (`@nestjs/common`), with the `code` of their body, and
-- the HTTP status that apps/api/src/common/filters/http-exception.filter.ts answers with.
use sol_arch.Prelude.{ℕ}

pub data Code : Type 0 where
  invalid_request archive_not_available archive_blocked archive_immutable backend_unavailable : Code
  payment_intent_not_available payment_intent_expired payment_transaction_in_flight : Code
  payment_transaction_unavailable payment_failed payment_not_confirmed : Code
  invalid_payment_account invalid_intent_credential invalid_refresh_credential : Code
  device_binding_mismatch device_limit_reached entitlement_expired entitlement_revoked : Code
  license_expired license_revoked request_nonce_replay payout_account_not_ready : Code
  -- an exception that carries a message and no code
  plain : Code

pub data Failure : Type 0 where
  bad_request unauthorized forbidden not_found conflict gone unavailable : Code → Failure
  -- any other error: a rejected query, a constraint of the database
  internal : Failure

pub status : Failure → ℕ
status (bad_request _) = 400
status (unauthorized _) = 401
status (forbidden _) = 403
status (not_found _) = 404
status (conflict _) = 409
status (gone _) = 410
status (unavailable _) = 503
status internal = 500
