-- ===== src/Web/Base58.antt =====
-- apps/web/src/lib/solana-address.ts: base58 by long multiplication on bytes, the lowest first.
pub mod Value
use Prim.Native.Char.{Char, code}
use Prim.Native.String.{[] as empty, ◌∷◌ as prepend}
use sol_arch.Prelude.{
  ℕ, zero, suc, ◌+◌, ◌*◌, ◌/◌, ◌%◌, String, Bool, false, Option, none, some, List, [], ◌∷◌, ◌++◌,
  eqb, length, trim, if◌then◌else◌,
}

abbrev pub alphabet : String
alphabet = "123456789ABCDEFGHJKLMNPQRSTUVWXYZabcdefghijkmnopqrstuvwxyz"

-- `text.indexOf(char)`, counted from `n`; `none` is -1
unfoldable pub index_from : ℕ → String → Char → Option ℕ
index_from n empty c = none
index_from n (prepend d s) c =
    let rest = index_from (suc n) s c in if eqb (code d) (code c) then some n else rest

-- The `for` over the bytes: each byte times 58, plus the carry. The carry and the bytes after it.
unfoldable pub multiply : List ℕ → ℕ → List ℕ × ℕ
multiply [] carry = ([], carry)
multiply (b ∷ bs) carry =
    let total = carry + b * 58 in
    let rest = multiply bs (total / 256) in (total % 256 ∷ rest.0, rest.1)

-- `while (carry > 0)`, with fuel
unfoldable pub push_carry : ℕ → ℕ → List ℕ
push_carry zero carry = []
push_carry (suc fuel) carry =
    let rest = push_carry fuel (carry / 256) in if eqb carry 0 then [] else carry % 256 ∷ rest

-- One digit taken in. A carry of `c` is 0 after at most `c` divisions by 256.
unfoldable pub take_digit : List ℕ → ℕ → List ℕ
unfolding multiply push_carry
take_digit bytes digit = let done = multiply bytes digit in done.0 ++ push_carry done.1 done.1

-- The loop over the characters.
unfoldable pub digits_into : List ℕ → String → Option (List ℕ)
unfolding index_from take_digit
digits_into bytes empty = some bytes
digits_into bytes (prepend c s) = elim (index_from 0 alphabet c) [
  | none ↦ none
  | some digit ↦ digits_into (take_digit bytes digit) s
]

-- The last loop: a zero byte for each leading `1`.
unfoldable pub push_ones : List ℕ → String → List ℕ
push_ones bytes empty = bytes
push_ones bytes (prepend c s) =
    let rest = push_ones (bytes ++ 0 ∷ []) s in if eqb (code c) b'1' then rest else bytes

unfoldable pub reverse_onto : List ℕ → List ℕ → List ℕ
reverse_onto [] done = done
reverse_onto (b ∷ bs) done = reverse_onto bs (b ∷ done)

abbrev pub finish : String → Option (List ℕ) → Option (List ℕ)
finish value none = none
finish value (some bytes) = some (reverse_onto (push_ones bytes value) [])

-- `decodeBase58`
unfoldable pub decode_base58 : String → Option (List ℕ)
unfolding digits_into push_ones reverse_onto
decode_base58 empty = none
decode_base58 (prepend c s) = finish (prepend c s) (digits_into [] (prepend c s))

abbrev pub has_32 : Option (List ℕ) → Bool
has_32 none = false
has_32 (some bytes) = eqb (length bytes) 32

-- `isSolanaAddress`
unfoldable pub is_solana_address : String → Bool
unfolding decode_base58
is_solana_address value = has_32 (decode_base58 (trim value))
