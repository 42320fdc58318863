-- ===== src/Licensing/Request.antt =====
-- The checks of a request: the nonce, the device's name and the version of the viewer.
use sol_arch.Prelude.{
  ℕ, suc, ◌+◌, String, Bool, false, not, ◌&&◌, ◌||◌, Option, none, some, ◌==◌, eqb, leb, ltb,
  length, text_length, ends_with_pad, if◌then◌else◌,
}
use Prim.Native.Char.{Char, code}
use Prim.Native.String.{[], ◌∷◌}
use sol_arch.Failure.{bad_request, invalid_request}
use sol_arch.Action.{Result, ok, unless_throw, or_throw, ◌&&=◌}
use sol_arch.Platform.{Platform}
use sol_arch.Crypto.DeviceKey.{is_device_key}

pub record ActivateRequest : Type 0 where
  pub device_public_key : String
  pub device_name : String
  pub viewer_version : String
  pub request_nonce : String

pub record RefreshRequest : Type 0 where
  pub archive_id : String
  pub device_public_key : String
  pub request_nonce : String

-- `hashRequestNonce`; `none` is a throw
unfoldable pub hash_request_nonce : Platform → String → Option String
hash_request_nonce p text =
    let bytes = p.base64_decode text in
    if ends_with_pad text
      && eqb (text_length text) 44
      && eqb (length bytes) 32
      && (p.base64_encode bytes == text)
    then some (p.sha256_hex bytes)
    else none

abbrev char_bytes : ℕ → ℕ
char_bytes c = if ltb c 128 then 1 else if ltb c 2048 then 2 else if ltb c 65536 then 3 else 4

-- `Buffer.byteLength(s, 'utf8')`
abbrev byte_length : String → ℕ
byte_length [] = 0
byte_length (c ∷ s) = char_bytes (code c) + byte_length s

-- `/[\u0000-\u001f\u007f]/u.test(s)`
abbrev has_control : String → Bool
has_control [] = false
has_control (c ∷ s) = ltb (code c) 32 || eqb (code c) 127 || has_control s

unfoldable pub is_device_name : String → Bool
is_device_name s = leb 1 (byte_length s) && leb (byte_length s) 128 && not (has_control s)

abbrev is_digit : Char → Bool
is_digit c = leb b'0' (code c) && leb (code c) b'9'

-- the text after `dots` points and `digits` digits of the group
abbrev version_rest : ℕ → ℕ → String → Bool
version_rest dots digits [] = eqb dots 2 && ltb 0 digits
version_rest dots digits (c ∷ s) =
    let same_group = version_rest dots (suc digits) s in
    let next_group = version_rest (suc dots) 0 s in
    if is_digit c
    then ltb digits 3 && same_group
    else eqb (code c) b'.' && ltb 0 digits && ltb dots 2 && next_group

-- `/^[0-9]{1,3}\.[0-9]{1,3}\.[0-9]{1,3}$/.test(s)`
unfoldable pub is_viewer_version : String → Bool
is_viewer_version = version_rest 0 0

module _ (p : Platform) where
  -- `validateActivationRequest`: the hash of the nonce
  unfoldable pub validate_activation_request : ActivateRequest → Result String
  unfolding hash_request_nonce is_device_name is_viewer_version is_device_key
  validate_activation_request dto =
      or_throw (bad_request invalid_request) (hash_request_nonce p dto.request_nonce) &&= λ hash.
      unless_throw (is_device_name dto.device_name) (bad_request invalid_request) &&= λ _.
      unless_throw (is_viewer_version dto.viewer_version) (bad_request invalid_request) &&= λ _.
      unless_throw (is_device_key p dto.device_public_key) (bad_request invalid_request) &&= λ _.
      ok hash

  -- `validateRefreshRequest`
  unfoldable pub validate_refresh_request : RefreshRequest → Result String
  unfolding hash_request_nonce is_device_key
  validate_refresh_request dto =
      or_throw (bad_request invalid_request) (hash_request_nonce p dto.request_nonce) &&= λ hash.
      unless_throw (is_device_key p dto.device_public_key) (bad_request invalid_request) &&= λ _.
      ok hash
