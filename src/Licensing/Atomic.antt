-- ===== src/Licensing/Atomic.antt =====
-- A request that fails leaves no trace.
use sol_arch.Prelude.{ℕ, String, ◌≡◌}
use sol_arch.Failure.{Failure}
use sol_arch.Db.{Db}
use sol_arch.Action.{err}
use sol_arch.Action.Rollback.{Reads, RollsBack, rollback_rules}
use sol_arch.Platform.{Credentials}
use sol_arch.Licensing.Request.{ActivateRequest, RefreshRequest}
use sol_arch.Licensing.Seal.{Services}
use sol_arch.Licensing.Activate.{ActivateDraw, paid_entitlement, activate_device}
use sol_arch.Licensing.Refresh.{refresh_license}

module _ (v : Services) (creds : Credentials) where
  pub paid_entitlement-Reads :
      (intent_id secret device : String)
      → Reads (paid_entitlement creds v.env intent_id secret device)
  unfolding paid_entitlement
  paid_entitlement-Reads intent_id secret device = search rollback_rules depth 20

  activate_device-RollsBack :
      (draw : ActivateDraw) (now : ℕ) (intent_id header : String) (dto : ActivateRequest)
      → RollsBack (activate_device v creds draw now intent_id header dto)
  unfolding activate_device
  activate_device-RollsBack draw now intent_id header dto =
      search (rollback_rules, paid_entitlement-Reads) depth 12

  refresh_license-RollsBack :
      (now : ℕ) (id header : String) (dto : RefreshRequest)
      → RollsBack (refresh_license v creds now id header dto)
  unfolding refresh_license
  refresh_license-RollsBack now id header dto = search rollback_rules depth 12

  -- Where `activateDevice` throws, the database is as it was, also where it throws after it has written
  -- the nonce, the activation and the count; and so it is where `refreshLicense` throws.
  pub licensing_atomic :
      (draw : ActivateDraw) (now : ℕ) (license_id intent_id header other : String)
      (dto : ActivateRequest) (again : RefreshRequest) (e f : Failure) (db after refreshed : Db)
      → activate_device v creds draw now intent_id header dto db ≡ (err e, after)
      → refresh_license v creds now license_id other again db ≡ (err f, refreshed)
      → (after ≡ db) × (refreshed ≡ db)
  licensing_atomic draw now license_id intent_id header other dto again e f db after refreshed
        failed failed_again =
      (
        (activate_device-RollsBack draw now intent_id header dto).restored db failed,
        (refresh_license-RollsBack now license_id other again).restored db failed_again,
      )
