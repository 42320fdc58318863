-- ===== src/Licensing/Authority.antt =====
-- What an entitlement must be for a license to be issued on it.
use sol_arch.Prelude.{
  ℕ, String, Bool, false, not, ◌&&◌, ◌||◌, Option, none, some, ◌==◌, eqb, leb, ltb, is_text,
  is_hex64,
}
use sol_arch.Table.{find}
use sol_arch.Failure.{
  forbidden, conflict, gone, unavailable, internal, payment_not_confirmed, entitlement_expired,
  entitlement_revoked, device_limit_reached, backend_unavailable, archive_blocked, license_expired,
  license_revoked, device_binding_mismatch,
}
use sol_arch.Db.{
  Archive, PaymentIntent, Payment, Entitlement, Activation, License, Db, is_ready, is_published,
  is_unpublished, is_payment_confirmed, is_lease_active, is_lease_expired,
}
use sol_arch.Action.{Result, ok, throw_if, unless_throw, or_throw, ◌&&=◌}

-- An entitlement with the rows that `include` joins to it.
pub record Authority : Type 0 where
  pub entitlement : Entitlement
  pub archive : Option Archive
  pub payment : Option Payment
  pub intent : Option PaymentIntent

abbrev pub intent_of_payment : Option Payment → Db → Option PaymentIntent
intent_of_payment none db = none
intent_of_payment (some q) db = find q.payment_intent_id db.intents

unfoldable pub authority : Entitlement → Db → Authority
authority e db = record {
  entitlement = e;
  archive = find e.archive_id db.archives;
  payment = find e.payment_id db.payments;
  intent = intent_of_payment (find e.payment_id db.payments) db;
}

abbrev pub is_paid : Option Payment → Bool
is_paid none = false
is_paid (some q) = is_payment_confirmed q.status

-- `entitlement.expiresAt && now >= entitlement.expiresAt`
abbrev is_past : Option ℕ → ℕ → Bool
is_past none now = false
is_past (some at) now = leb at now

unfoldable pub is_eligible_archive : Archive → Bool
is_eligible_archive a =
    (is_published a.marketplace_status || is_unpublished a.marketplace_status)
    && (a.price_currency == "USDC")
    && eqb a.platform_fee_bps 500
    && not a.allow_export
    && a.watermark_enabled

-- A fingerprint that `/^[0-9a-f]{64}$/.test(fingerprint || '')` accepts
abbrev is_fingerprint : Option String → Bool
is_fingerprint none = false
is_fingerprint (some s) = is_hex64 s

-- The payment, the intent and the archive agree with the entitlement.
unfoldable pub agrees : Entitlement → Archive → Payment → PaymentIntent → Bool
agrees e a q i =
    is_hex64 i.archive_fingerprint
    && (i.archive_id == e.archive_id)
    && is_text a.archive_fingerprint i.archive_fingerprint
    && (i.device_public_key == e.device_public_key)
    && is_text i.confirmed_buyer_wallet e.buyer_wallet
    && (q.archive_id == e.archive_id)
    && (q.buyer_wallet == e.buyer_wallet)
    && (q.device_public_key == e.device_public_key)

-- The payment is confirmed and the lease runs, on one device.
unfoldable pub lease_gate : Entitlement → Option Payment → ℕ → Result (Unit {0})
lease_gate e payment now = unless_throw (is_paid payment) (forbidden payment_not_confirmed) &&= λ _.
    throw_if (is_lease_expired e.status || is_past e.expires_at now) (gone entitlement_expired)
    &&= λ _. unless_throw (is_lease_active e.status) (forbidden entitlement_revoked) &&= λ _.
        unless_throw (eqb e.max_devices 1) (conflict device_limit_reached)

-- The archive can be licensed.
unfoldable pub archive_gate : Archive → Result (Unit {0})
unfolding is_eligible_archive
archive_gate a = unless_throw (eqb a.max_devices 1) (conflict device_limit_reached) &&= λ _.
    unless_throw (is_ready a.technical_status) (unavailable backend_unavailable) &&= λ _.
    unless_throw (is_eligible_archive a) (forbidden archive_blocked) &&= λ _.
    unless_throw (is_fingerprint a.archive_fingerprint) (unavailable backend_unavailable)

-- The fingerprint that was bought.
unfoldable pub bought_fingerprint :
    Entitlement → Archive → Option Payment → Option PaymentIntent → Result String
unfolding agrees
bought_fingerprint e a payment intent = or_throw (unavailable backend_unavailable) payment &&= λ q.
    or_throw (unavailable backend_unavailable) intent &&= λ i.
    unless_throw (agrees e a q i) (unavailable backend_unavailable) &&= λ _.
    ok i.archive_fingerprint

-- `assertEntitlementAuthority`: the archive's fingerprint
unfoldable pub assert_entitlement_authority : Authority → ℕ → Result String
unfolding lease_gate archive_gate bought_fingerprint
assert_entitlement_authority r now = lease_gate r.entitlement r.payment now &&= λ _.
    or_throw internal r.archive &&= λ a.
    archive_gate a &&= λ _. bought_fingerprint r.entitlement a r.payment r.intent

abbrev pub is_exceeded : Option ℕ → ℕ → Bool
is_exceeded none until = false
is_exceeded (some at) until = ltb at until

-- `assertOfflineDeadline`
unfoldable pub assert_offline_deadline : Entitlement → ℕ → Result (Unit {0})
assert_offline_deadline e until =
    throw_if (is_exceeded e.expires_at until) (gone entitlement_expired)

-- `assertActiveLicense`
unfoldable pub assert_active_license : License → Result (Unit {0})
assert_active_license l = throw_if (is_lease_expired l.status) (gone license_expired) &&= λ _.
    unless_throw (is_lease_active l.status) (forbidden license_revoked)

-- `assertActiveActivation`
unfoldable pub assert_active_activation : Option Activation → String → Result (Unit {0})
assert_active_activation none device = unless_throw false (conflict device_binding_mismatch)
assert_active_activation (some a) device =
    unless_throw ((a.status == "active") && (a.device_public_key == device))
      (conflict device_binding_mismatch)
