-- ===== src/Web/Base58/Value.antt =====
-- The bytes stand for the number that the digits spell, and each is a byte.
use Prim.Native.String.{[] as empty, ◌∷◌ as prepend}
use Prim.Native.Nat.pow
use mathlib.Core.Path.{subst}
use sol_arch.Prelude.{
  ℕ, zero, suc, ◌+◌, ◌*◌, ◌/◌, ◌%◌, ◌^◌, ◌≤◌, ◌<◌, String, ◌≡◌, refl, sym, ap, ◌∙◌, Option, none,
  some, Option-cases, inl, inr, List, [], ◌∷◌, ◌++◌, arith, length,
}
use sol_arch.Web.Base58.{
  alphabet, index_from, multiply, push_carry, take_digit, digits_into, push_ones, reverse_onto,
  decode_base58, finish,
}

-- The number of bytes with the lowest first.
unfoldable pub value_of : List ℕ → ℕ
value_of [] = 0
value_of (b ∷ bs) = b + 256 * value_of bs

-- Every element is below 256.
abbrev pub Bytes : List ℕ → Type 0
Bytes [] = Unit
Bytes (b ∷ bs) = (b < 256) × Bytes bs

multiply_step :
    (b carry low high p m : ℕ)
    → low + p * m ≡ high * 58 + (carry + b * 58) / 256
    → (carry + b * 58) % 256 + 256 * low + p * 256 * m ≡ (b + 256 * high) * 58 + carry
multiply_step b carry low high p m h = omega arith

append_step :
    (b p low high all : ℕ) → all ≡ low + p * high → b + 256 * all ≡ b + 256 * low + p * 256 * high
append_step b p low high all h = omega arith

multiply-value_of :
    (bs : List ℕ) (carry : ℕ)
    → value_of (multiply bs carry).0 + 256 ^ length bs * (multiply bs carry).1
      ≡ value_of bs * 58 + carry
unfolding multiply value_of
multiply-value_of [] carry = omega arith
multiply-value_of (b ∷ bs) carry = rw (pow.suc 256 (length bs)) (
    multiply_step b carry (value_of (multiply bs ((carry + b * 58) / 256)).0) (value_of bs)
      (256 ^ length bs) (multiply bs ((carry + b * 58) / 256)).1
      (multiply-value_of bs ((carry + b * 58) / 256)))

multiply-length : (bs : List ℕ) (carry : ℕ) → length (multiply bs carry).0 ≡ length bs
unfolding multiply
multiply-length [] carry = refl
multiply-length (b ∷ bs) carry = ap suc (multiply-length bs ((carry + b * 58) / 256))

-- Enough fuel: the carry itself.
push_carry-value_of : (fuel carry : ℕ) → carry ≤ fuel → value_of (push_carry fuel carry) ≡ carry
unfolding push_carry value_of
push_carry-value_of zero carry h = omega arith
push_carry-value_of (suc fuel) carry h = ground (arith, push_carry-value_of fuel (carry / 256))

append-value_of :
    (bs cs : List ℕ) → value_of (bs ++ cs) ≡ value_of bs + 256 ^ length bs * value_of cs
unfolding value_of
append-value_of [] cs = omega arith
append-value_of (b ∷ bs) cs = rw (pow.suc 256 (length bs)) (
    append_step b (256 ^ length bs) (value_of bs) (value_of cs) (value_of (bs ++ cs))
      (append-value_of bs cs))

-- A digit taken in: 58 times the number, and the digit.
take_digit-value_of :
    (bs : List ℕ) (digit : ℕ) → value_of (take_digit bs digit) ≡ value_of bs * 58 + digit
unfolding take_digit
take_digit-value_of bs digit =
    rw
      (
        append-value_of (multiply bs digit).0
            (push_carry (multiply bs digit).1 (multiply bs digit).1),
        push_carry-value_of (multiply bs digit).1 (multiply bs digit).1 (omega arith),
        multiply-length bs digit,
      )
      (multiply-value_of bs digit)

append-Bytes : (bs cs : List ℕ) → Bytes bs → Bytes cs → Bytes (bs ++ cs)
append-Bytes [] cs h k = k
append-Bytes (b ∷ bs) cs h k = (h.0, append-Bytes bs cs h.1 k)

multiply-Bytes : (bs : List ℕ) (carry : ℕ) → Bytes (multiply bs carry).0
unfolding multiply
multiply-Bytes [] carry = tt
multiply-Bytes (b ∷ bs) carry = (omega arith, multiply-Bytes bs ((carry + b * 58) / 256))

push_carry-Bytes : (fuel carry : ℕ) → Bytes (push_carry fuel carry)
unfolding push_carry
push_carry-Bytes zero carry = tt
push_carry-Bytes (suc fuel) carry = ground (arith, push_carry-Bytes fuel (carry / 256))

take_digit-Bytes : (bs : List ℕ) (digit : ℕ) → Bytes (take_digit bs digit)
unfolding take_digit
take_digit-Bytes bs digit =
    append-Bytes (multiply bs digit).0 _ (multiply-Bytes bs digit)
      (push_carry-Bytes (multiply bs digit).1 (multiply bs digit).1)

-- The number that the characters spell in base 58, after `n`; `none` out of the alphabet.
unfoldable pub spelled : ℕ → String → Option ℕ
unfolding index_from
spelled n empty = some n
spelled n (prepend c s) = elim (index_from 0 alphabet c) [
  | none ↦ none
  | some digit ↦ spelled (n * 58 + digit) s
]

some_inj : {A : Type 0} {a b : A} → some a ≡ some b → a ≡ b
some_inj h = cc h

digits_into_spell :
    (bytes : List ℕ) (s : String) (out : List ℕ)
    → Bytes bytes
    → digits_into bytes s ≡ some out
    → (spelled (value_of bytes) s ≡ some (value_of out)) × Bytes out
unfolding digits_into spelled
digits_into_spell bytes empty out h run =
    (ap (λ b. some (value_of b)) (some_inj run), subst Bytes (some_inj run) h)
digits_into_spell bytes (prepend c s) out h run = elim (Option-cases (index_from 0 alphabet c)) [
  | inl missing ↦ absurd (cc (rw (digits_into, missing) at run))
  | inr found ↦
      rw (spelled, found.1, sym (take_digit-value_of bytes found.0))
        (digits_into_spell (take_digit bytes found.0) s out (take_digit-Bytes bytes found.0)
          (rw (digits_into, found.1) at run))
]

push_ones-value_of : (bytes : List ℕ) (s : String) → value_of (push_ones bytes s) ≡ value_of bytes
unfolding push_ones value_of
push_ones-value_of bytes empty = refl
push_ones-value_of bytes (prepend c s) =
    ground (arith, push_ones-value_of (bytes ++ 0 ∷ []) s, append-value_of bytes (0 ∷ []))

push_ones-Bytes : (bytes : List ℕ) (s : String) → Bytes bytes → Bytes (push_ones bytes s)
unfolding push_ones
push_ones-Bytes bytes empty h = h
push_ones-Bytes bytes (prepend c s) h =
    ground
      (arith, push_ones-Bytes (bytes ++ 0 ∷ []) s, append-Bytes bytes (0 ∷ []) h (omega arith, tt))

-- The number of bytes with the highest first.
unfoldable pub big_endian : ℕ → List ℕ → ℕ
big_endian n [] = n
big_endian n (b ∷ bs) = big_endian (n * 256 + b) bs

carried : (n b : ℕ) → n * 256 + b ≡ b + 256 * n
carried n b = omega arith

reverse_onto-big_endian :
    (bs done : List ℕ) → big_endian 0 (reverse_onto bs done) ≡ big_endian (value_of bs) done
unfolding big_endian reverse_onto value_of
reverse_onto-big_endian [] done = refl
reverse_onto-big_endian (b ∷ bs) done =
    reverse_onto-big_endian bs (b ∷ done) ∙ ap (λ n. big_endian n done) (carried (value_of bs) b)

reverse_onto-Bytes : (bs done : List ℕ) → Bytes bs → Bytes done → Bytes (reverse_onto bs done)
unfolding reverse_onto
reverse_onto-Bytes [] done h k = k
reverse_onto-Bytes (b ∷ bs) done h k = reverse_onto-Bytes bs (b ∷ done) h.1 (h.0, k)

finish-some :
    (value : String) (low : Option (List ℕ)) (out : List ℕ)
    → finish value low ≡ some out
    → (bytes : List ℕ) × (low ≡ some bytes) × (out ≡ reverse_onto (push_ones bytes value) [])
finish-some value none out run = absurd (cc run)
finish-some value (some bytes) out run = (bytes, refl, sym (some_inj run))

-- A text that decodeBase58 decodes is a number in base 58, and the bytes are that number in base 256,
-- the highest first, each below 256: the long multiplication loses no carry.
pub decode_base58_lem :
    (value : String) (out : List ℕ)
    → decode_base58 value ≡ some out
    → (spelled 0 value ≡ some (big_endian 0 out)) × Bytes out
unfolding decode_base58 value_of big_endian
decode_base58_lem empty out run = absurd (cc run)
decode_base58_lem (prepend c s) out run =
    let value = prepend c s in
    let low = finish-some value (digits_into [] value) out run in
    let spells = digits_into_spell [] value low.0 tt low.1 in
    let ones = push_ones-value_of low.0 value in
    rw (low.2) (
      spells.0
          ∙ ap some (
              sym (
                reverse_onto-big_endian (push_ones low.0 value) []
                ∙ ap (λ n. big_endian n []) ones)),
      reverse_onto-Bytes (push_ones low.0 value) [] (push_ones-Bytes low.0 value spells.1) tt,
    )
