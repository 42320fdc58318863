-- ===== src/Web/Money.antt =====
-- apps/web/src/lib/money.ts: amounts of USDC as texts and as whole base units.
pub mod Paid
use Prim.Native.Char.{Char, code}
use Prim.Native.String.{[] as empty, ◌∷◌ as prepend}
use sol_arch.Prelude.{
  ℕ, zero, suc, ◌+◌, ◌-◌, ◌*◌, ◌/◌, ◌%◌, String, Bool, true, false, not, ◌&&◌, Option, none, some,
  ◌==◌, leb, ltb, eqb, if◌then◌else◌, text_length, append_text, trim,
}

abbrev pub usdc_decimals : ℕ
usdc_decimals = 6

abbrev pub price_decimals : ℕ
price_decimals = 2

abbrev pub platform_fee_bps : ℕ
platform_fee_bps = 500

abbrev bps_denominator : ℕ
bps_denominator = 10000

abbrev is_decimal_digit : Char → Bool
is_decimal_digit c = leb b'0' (code c) && leb (code c) b'9'

abbrev only_digits : String → Bool
only_digits empty = true
only_digits (prepend c s) = is_decimal_digit c && only_digits s

-- `\d+`
abbrev is_digits : String → Bool
is_digits s = leb 1 (text_length s) && only_digits s

-- The text before the first full stop, and what stands after it, if there is one.
unfoldable pub cut_at_dot : String → String × Option String
cut_at_dot empty = (empty, none)
cut_at_dot (prepend c s) =
    let (whole, fraction) = cut_at_dot s in
    if eqb (code c) b'.' then (empty, some s) else (prepend c whole, fraction)

abbrev is_fraction : Option String → Bool
is_fraction none = true
is_fraction (some s) = is_digits s

-- `DECIMAL_PATTERN.test(s)`, of the text in its two parts
unfoldable pub is_decimal : String → Bool
unfolding cut_at_dot
is_decimal s = let (whole, fraction) = cut_at_dot s in is_digits whole && is_fraction fraction

-- `const [whole = '0', fraction = ''] = s.split('.')`, and `s.split('.')[1] ?? ''`, of a text that
-- matches the pattern
abbrev pub whole_of : String → String
whole_of s = (cut_at_dot s).0

abbrev or_empty : Option String → String
or_empty none = ""
or_empty (some s) = s

abbrev pub fraction_of : String → String
fraction_of s = or_empty (cut_at_dot s).1

-- `s.padEnd(n, '0')`
unfoldable pub pad_end : ℕ → String → String
pad_end zero s = s
pad_end (suc n) empty = append_text "0" (pad_end n empty)
pad_end (suc n) (prepend c s) = prepend c (pad_end n s)

-- `BigInt(s)` of digits, after the number `n` of those before them
abbrev pub digits_from : ℕ → String → ℕ
digits_from n empty = n
digits_from n (prepend c s) = digits_from (n * 10 + (code c - b'0')) s

abbrev pub parse_trimmed : String → Option ℕ
parse_trimmed s =
    let fraction = fraction_of s in
    if not (is_decimal s)
    then none
    else if ltb usdc_decimals (text_length fraction)
    then none
    else some (digits_from 0 (append_text (whole_of s) (pad_end usdc_decimals fraction)))

-- `parseUsdc`; `none` is a MoneyFormatError
unfoldable pub parse_usdc : String → Option ℕ
unfolding is_decimal cut_at_dot pad_end
parse_usdc value = parse_trimmed (trim value)

-- The text of one character at a place.
abbrev char_at : String → ℕ → String
char_at empty n = ""
char_at (prepend c s) zero = prepend c ""
char_at (prepend c s) (suc n) = char_at s n

-- The digits of `n` before those of `s`; a number has no more digits than itself and one.
to_digits : ℕ → ℕ → String → String
to_digits zero n s = s
to_digits (suc fuel) n s =
    let shown = append_text (char_at "0123456789" (n % 10)) s in
    elim (ltb n 10) [ true ↦ shown | false ↦ to_digits fuel (n / 10) shown ]

-- `n.toString()`
unfoldable pub to_text : ℕ → String
unfolding to_digits
to_text n = to_digits (suc n) n ""

abbrev zeros : ℕ → String
zeros zero = ""
zeros (suc n) = append_text "0" (zeros n)

-- `s.padStart(n, '0')`
unfoldable pub pad_start : ℕ → String → String
pad_start n s = append_text (zeros (n - text_length s)) s

-- `s.replace(/0+$/, '')`
unfoldable pub without_zeros : String → String
without_zeros empty = ""
without_zeros (prepend c s) =
    let rest = without_zeros s in if eqb (code c) b'0' && rest == "" then "" else prepend c rest

-- `formatUsdc`, of an amount that is not negative
unfoldable pub format_usdc : ℕ → ℕ → String
unfolding to_text pad_start without_zeros pad_end
format_usdc units min_fraction_digits =
    let fraction = pad_start usdc_decimals (to_text (units % 1000000)) in
    let shown =
      if leb min_fraction_digits usdc_decimals then min_fraction_digits else usdc_decimals in
    let padded = pad_end shown (without_zeros fraction) in
    let whole = to_text (units / 1000000) in
    if ltb 0 (text_length padded) then append_text whole (append_text "." padded) else whole

pub record EconomicsPreview : Type 0 where
  pub price : String
  pub creator : String
  pub platform : String
  pub fee_bps : ℕ

-- The preview of an amount; `formatUsdc` throws where the fee is more than the price.
abbrev pub preview_units : ℕ → ℕ → Option EconomicsPreview
preview_units fee_bps total =
    let platform = (total * fee_bps) / bps_denominator in
    if ltb total platform
    then none
    else some (record {
      price = format_usdc total 2;
      creator = format_usdc (total - platform) 2;
      platform = format_usdc platform 2;
      fee_bps = fee_bps;
    })

-- `previewEconomics`; `none` is a MoneyFormatError
unfoldable pub preview_economics : String → ℕ → Option EconomicsPreview
unfolding parse_usdc format_usdc
preview_economics price fee_bps = elim (parse_usdc price) [
  | none ↦ none
  | some total ↦ preview_units fee_bps total
]

pub data PriceProblem : Type 0 where
  required : PriceProblem
  format : PriceProblem
  precision : PriceProblem
  not_positive : PriceProblem

-- The amount of a text that matches the pattern; `none` does not happen to one of two decimals.
abbrev pub is_positive : Option ℕ → Bool
is_positive none = false
is_positive (some units) = ltb 0 units

-- `validatePriceInput`; `none` is a price that is accepted
unfoldable pub validate_price_input : String → Option PriceProblem
unfolding parse_usdc
validate_price_input value =
    let trimmed = trim value in
    if trimmed == ""
    then some PriceProblem.required
    else if not (is_decimal trimmed)
    then some PriceProblem.format
    else if ltb price_decimals (text_length (fraction_of trimmed))
    then some PriceProblem.precision
    else if not (is_positive (parse_usdc trimmed))
    then some PriceProblem.not_positive
    else none
