-- ===== src/Licensing/Tests.antt =====
-- The licensing theorems at one license.
use sol_arch.Prelude.{String, ◌≡◌, ◌≢◌, refl, ◌∷◌, is_hex64, eq_iff, true, false, [], arith}
use sol_arch.Table.{find, first, select, put}
use sol_arch.Table.Laws.{find_single}
use sol_arch.Failure.{unavailable, plain}
use sol_arch.Db.{Db}
use sol_arch.Db.Leases.{
  has_nonce, insert_activation, increment_devices, insert_license, insert_nonce, renew_license,
  touch_activation,
}
use sol_arch.Action.{ok, err, ◌>>=◌}
use sol_arch.Samples.{creds, services, licensed, activation, entitlement, key44}
use sol_arch.Licensing.Request.{ActivateRequest, RefreshRequest}
use sol_arch.Licensing.Authority.{assert_active_activation, assert_active_license}
use sol_arch.Licensing.Seal.{Services, Envelope}
use sol_arch.Licensing.Activate.{ActivateDraw, ActivateResponse, activate_device}
use sol_arch.Licensing.Refresh.{refresh_license}
use sol_arch.Licensing.Activated.{IsActivation, activate_device-IsActivation}
use sol_arch.Licensing.Device.{OneDevice, licensing-OneDevice}
use sol_arch.Licensing.Atomic.{licensing_atomic}
use sol_arch.Licensing.Replay.{refresh_no_replay}
use sol_arch.Licensing.Sound.{IsGrant, refresh_license-IsGrant}

abbrev refresh : RefreshRequest
refresh = record { archive_id = "a1"; device_public_key = key44; request_nonce = key44 }

abbrev activate : ActivateRequest
activate = record {
  device_public_key = key44;
  device_name = "laptop";
  viewer_version = "0.1.0";
  request_nonce = key44;
}

abbrev draw : ActivateDraw
draw = record { activation_id = "act2"; license_id = "lic2"; refresh_token = "token" }

abbrev envelope : Envelope
envelope = record {
  payload = record {
    key_id = "key";
    license_id = "lic1";
    entitlement_id = "e1";
    archive_id = "a1";
    archive_fingerprint = "0000000000000000000000000000000000000000000000000000000000000000";
    buyer_wallet = "buyer";
    device_public_key = key44;
    issued_at = 5000;
    offline_valid_until = 259205000;
    request_nonce = key44;
    rights = record { export = false; max_devices = 1; may_open = true; watermark_enabled = true };
  };
  server_signature = key44;
  wrapped_content_key = record { enc = key44; ciphertext = key44 };
}

abbrev renewed : Db
renewed = (refresh_license services creds 5500 "lic1" "DeviceRefresh token" refresh licensed).1

refreshed :
    refresh_license services creds 5500 "lic1" "DeviceRefresh token" refresh licensed
    ≡ (ok envelope, renewed)
unfolding refresh_license ◌>>=◌ first find is_hex64 has_nonce insert_nonce renew_license
    touch_activation
refreshed = refl

refresh_license-IsGrant_example : IsGrant "lic1" refresh 5500 envelope licensed
refresh_license-IsGrant_example =
    refresh_license-IsGrant services creds 5500 "lic1" "DeviceRefresh token" refresh licensed
      renewed envelope refreshed

same_nonces : (c n : String) → has_nonce c n renewed ≡ true → has_nonce c n renewed ≡ true
same_nonces c n e = e

refresh_no_replay_example :
    refresh_license services creds 6000 "lic1" "DeviceRefresh other" refresh renewed
    ≢ (ok envelope, renewed)
refresh_no_replay_example =
    refresh_no_replay services creds 5500 6000 "lic1" "DeviceRefresh token" "DeviceRefresh other"
      refresh refresh licensed renewed renewed renewed envelope envelope refreshed refl same_nonces

licensed-OneDevice : OneDevice licensed
unfolding find
licensed-OneDevice = record {
  keyed = (refl, tt);
  one = λ a b x y e f same. ground (arith, eq_iff "act1" a, eq_iff "act1" b);
  bound = λ a x e. rw (find_single "act1" a activation x e) refl;
}

-- The custody file is missing: both requests fail after they have written the nonce.
abbrev unsealed : Services
unsealed = record services { vault = [] }

refused :
    activate_device unsealed creds draw 5500 "i1" "SolArchIntent token" activate licensed
    ≡ (err (unavailable plain), licensed)
unfolding activate_device ◌>>=◌ first find is_hex64 has_nonce select assert_active_activation
    assert_active_license insert_nonce
refused = refl

refused_again :
    refresh_license unsealed creds 5500 "lic1" "DeviceRefresh token" refresh licensed
    ≡ (err (unavailable plain), licensed)
unfolding refresh_license ◌>>=◌ first find is_hex64 has_nonce insert_nonce
refused_again = refl

licensing_atomic_example : (licensed ≡ licensed) × (licensed ≡ licensed)
licensing_atomic_example =
    licensing_atomic unsealed creds draw 5500 "lic1" "i1" "SolArchIntent token"
      "DeviceRefresh token" activate refresh (unavailable plain) (unavailable plain) licensed
      licensed licensed refused refused_again

licensing-OneDevice_example :
    OneDevice
      (activate_device services creds draw 5500 "i1" "SolArchIntent token" activate licensed).1
    × OneDevice (refresh_license services creds 5500 "i1" "SolArchIntent token" refresh licensed).1
licensing-OneDevice_example =
    licensing-OneDevice services creds draw 5500 "i1" "SolArchIntent token" activate refresh
      licensed licensed-OneDevice

-- The entitlement is paid for and no device is activated yet.
abbrev unlicensed : Db
unlicensed = record licensed {
  entitlements = ("e1", record entitlement { devices_activated = 0 }) ∷ [];
  activations = [];
  licenses = [];
}

abbrev activated : ActivateResponse
activated = record {
  license = record envelope { payload = record envelope.payload { license_id = "lic2" } };
  device_refresh_token = "token";
}

abbrev bound : Db
bound = (activate_device services creds draw 5500 "i1" "SolArchIntent token" activate unlicensed).1

activation_made :
    activate_device services creds draw 5500 "i1" "SolArchIntent token" activate unlicensed
    ≡ (ok activated, bound)
unfolding activate_device ◌>>=◌ first find is_hex64 has_nonce select insert_nonce insert_activation
    increment_devices insert_license put
activation_made = refl

activate_device-IsActivation_example : IsActivation activate 5500 activated unlicensed
activate_device-IsActivation_example =
    activate_device-IsActivation services creds draw 5500 activate "i1" "SolArchIntent token"
      unlicensed bound activated activation_made
