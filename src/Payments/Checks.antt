-- ===== src/Payments/Checks.antt =====
-- The private checks of `PaymentsService`: signatures, the state of an issuance on the chain, and
-- the bindings between the records of a purchase.
use sol_arch.Prelude.{
  ℕ, String, Bool, true, false, not, ◌&&◌, Option, none, some, List, ◌==◌, eqb, ltb, is_text,
  truthy, trim, length, is_hex64, if◌then◌else◌,
}
use sol_arch.Failure.{
  bad_request, unavailable, invalid_request, backend_unavailable, payment_transaction_unavailable,
}
use sol_arch.Db.{Archive, PaymentIntent, Issuance, Payment, IssuanceStatus}
use sol_arch.Db.Writes.{set_expected_signature}
use sol_arch.Action.{Result, ok, err, Action, pure, lift, unless_throw, or_throw, ◌>>=◌, ◌>>◌}
use sol_arch.Platform.{Platform}
use sol_arch.Platform.Chain.{Chain, Rpc, answer, rpc_error, SignatureStatus, is_finalized}

-- `assertArchivePaymentPolicy`
unfoldable pub is_payment_policy : Archive → Bool
is_payment_policy a =
    (a.price_currency == "USDC")
    && eqb a.platform_fee_bps 500
    && eqb a.max_devices 1
    && not a.allow_export
    && a.watermark_enabled

unfoldable pub assert_archive_payment_policy : Archive → Result (Unit {0})
assert_archive_payment_policy a = unless_throw (is_payment_policy a) (bad_request invalid_request)

-- `assertArchiveFingerprintSnapshot`; the archive is the intent's, `none` if there is none
unfoldable pub assert_archive_fingerprint_snapshot :
    PaymentIntent → Option String → Result (Unit {0})
assert_archive_fingerprint_snapshot i fingerprint =
    unless_throw (is_hex64 i.archive_fingerprint && is_text fingerprint i.archive_fingerprint)
      (unavailable backend_unavailable)

-- `assertConfirmedPaymentBindings`
unfoldable pub is_bound : PaymentIntent → Payment → Bool
is_bound i p =
    is_text i.confirmed_buyer_wallet p.buyer_wallet
    && (p.archive_id == i.archive_id)
    && (p.device_public_key == i.device_public_key)

unfoldable pub assert_confirmed_payment_bindings : PaymentIntent → Payment → Result (Unit {0})
assert_confirmed_payment_bindings i p =
    unless_throw (is_bound i p) (unavailable backend_unavailable)

-- What the chain says of an issuance.
pub data ChainState : Type 0 where
  payable landed failed expired : ChainState

abbrev pub may_confirm : ChainState → Bool
may_confirm ChainState.payable = true
may_confirm ChainState.landed = true
may_confirm _ = false

-- `chainState` where it is written into the `status` column
abbrev pub closing_status : ChainState → IssuanceStatus
closing_status ChainState.failed = IssuanceStatus.failed
closing_status ChainState.expired = IssuanceStatus.expired
closing_status _ = IssuanceStatus.active

unfoldable pub status_state : SignatureStatus → ChainState
status_state s =
    if not s.failed
    then ChainState.landed
    else if is_finalized s.confirmation
    then ChainState.failed
    else ChainState.payable

unfoldable pub height_state : ℕ → Rpc ℕ → Result ChainState
height_state last (answer height) =
    ok (if ltb last height then ChainState.expired else ChainState.payable)
height_state last rpc_error = err (unavailable payment_transaction_unavailable)

-- `issuanceChainState`
unfoldable pub issuance_chain_state : Chain → String → ℕ → Result ChainState
unfolding status_state height_state
issuance_chain_state chain signature last = elim (chain.signature_status signature) [
  | rpc_error ↦ err (unavailable payment_transaction_unavailable)
  | answer none ↦ height_state last chain.block_height
  | answer (some s) ↦ ok (status_state s)
]

module _ (p : Platform) where
  abbrev is_canonical_bytes : String → Option (List ℕ) → Bool
  is_canonical_bytes value none = false
  is_canonical_bytes value (some bytes) = eqb (length bytes) 64 && (p.bs58_encode bytes == value)

  -- `isCanonicalTransactionSignature`
  unfoldable pub is_canonical_signature : String → Bool
  is_canonical_signature value =
      not (value == "") && (trim value == value) && is_canonical_bytes value (p.bs58_decode value)

  abbrev fee_payer_signature : Option (Option (List ℕ)) → Option String
  fee_payer_signature (some (some bytes)) =
      let encoded = p.bs58_encode bytes in
      if eqb (length bytes) 64 && is_canonical_signature encoded then some encoded else none
  fee_payer_signature _ = none

  -- `signatureFromSerializedTransaction`
  unfoldable pub signature_from_serialized : String → Result String
  unfolding is_canonical_signature
  signature_from_serialized text =
      let bytes = p.base64_decode text in
      let found = fee_payer_signature (p.stored_signature bytes) in
      or_throw (unavailable payment_transaction_unavailable)
        (if not (eqb (length bytes) 0) && (p.base64_encode bytes == text) then found else none)

  abbrev pub recover_signature : String → Issuance → Option String → Action String
  recover_signature id s (some signature) = lift (
      if is_canonical_signature signature
      then ok signature
      else err (unavailable payment_transaction_unavailable))
  recover_signature id s none = do
    signature ← lift (signature_from_serialized s.serialized_transaction)
    set_expected_signature id signature
    pure signature

  -- `requireExpectedSignature`
  unfoldable pub require_expected_signature : String → Issuance → Action String
  require_expected_signature id s = recover_signature id s (truthy s.expected_transaction_signature)
