-- ===== src/Crypto/DeviceKey.antt =====
-- `validateDevicePublicKey` of apps/api/src/crypto/hpke.util.ts
use sol_arch.Prelude.{
  ℕ, zero, suc, ◌+◌, ◌*◌, ◌-◌, ◌^◌, Bool, ◌&&◌, List, [], ◌∷◌, String, ◌==◌, eqb, ltb, length,
  text_length, ends_with_pad,
}
use sol_arch.Platform.{Platform}

abbrev pub field_prime : ℕ
field_prime = 2 ^ 255 - 19

-- `littleEndianInteger`
unfoldable pub little_endian_integer : List ℕ → ℕ
little_endian_integer [] = 0
little_endian_integer (b ∷ bytes) = b + 256 * little_endian_integer bytes

-- `bytes[i]`, and 0 where there is none
abbrev pub byte_at : List ℕ → ℕ → ℕ
byte_at [] i = 0
byte_at (b ∷ bytes) zero = b
byte_at (b ∷ bytes) (suc i) = byte_at bytes i

unfoldable pub is_device_key : Platform → String → Bool
unfolding little_endian_integer
is_device_key p text =
    let bytes = p.base64_decode text in
    eqb (text_length text) 44
    && ends_with_pad text
    && eqb (length bytes) 32
    && (p.base64_encode bytes == text)
    && ltb (byte_at bytes 31) 128
    && ltb (little_endian_integer bytes) field_prime
    && p.can_encapsulate bytes
