-- ===== src/Web/Money/Paid.antt =====
-- The preview of an accepted price is the split that the payment transfers.
use Prim.Native.String.{[] as empty, ◌∷◌ as prepend}
use sol_arch.Prelude.{
  ℕ, ◌+◌, ◌-◌, ◌/◌, ◌*◌, String, ◌≡◌, refl, ap, ◌∙◌, Bool, true, false, not, Option, none, some,
  ltb, if◌then◌else◌, arith, text_length, append_text, trim, trim_twice,
}
use sol_arch.Payments.Economics.{split}
use sol_arch.Payments.Economics.Shares.{split_exact}
use sol_arch.Web.Money.{
  platform_fee_bps, pad_end, digits_from, parse_trimmed, parse_usdc, format_usdc, EconomicsPreview,
  is_decimal, fraction_of, whole_of, preview_units, preview_economics, PriceProblem, is_positive,
  validate_price_input,
}

-- At most two decimals are a number of hundredths.
hundredths :
    (w f : String) (n : ℕ)
    → ltb 2 (text_length f) ≡ false
    → digits_from n (append_text w (pad_end 6 f))
      ≡ (digits_from n w * 100 + digits_from 0 (pad_end 2 f)) * 10000
unfolding pad_end
hundredths (prepend c w) f n e = hundredths w f _ e
hundredths empty empty n e = omega arith
hundredths empty (prepend c empty) n e = omega arith
hundredths empty (prepend c (prepend d empty)) n e = omega arith
hundredths empty (prepend c (prepend d (prepend x f))) n e = absurd (ground (arith, e))

-- What each test of an accepted price says.
record Accepted (t : String) : Type 0 where
  decimal : is_decimal t ≡ true
  precise : ltb 2 (text_length (fraction_of t)) ≡ false
  positive : is_positive (parse_usdc t) ≡ true

accepted_at :
    (t : String) (blank decimal imprecise positive : Bool)
    → is_decimal t ≡ decimal
    → ltb 2 (text_length (fraction_of t)) ≡ imprecise
    → is_positive (parse_usdc t) ≡ positive
    → (if blank
        then some PriceProblem.required
        else if not decimal
        then some PriceProblem.format
        else if imprecise
        then some PriceProblem.precision
        else if not positive
        then some PriceProblem.not_positive
        else none)
      ≡ none
    → Accepted t
accepted_at t true decimal imprecise positive d i p e = absurd (cc e)
accepted_at t false false imprecise positive d i p e = absurd (cc e)
accepted_at t false true true positive d i p e = absurd (cc e)
accepted_at t false true false false d i p e = absurd (cc e)
accepted_at t false true false true d i p e = record { decimal = d; precise = i; positive = p }

accepted : (value : String) → validate_price_input value ≡ none → Accepted (trim value)
unfolding validate_price_input
accepted value e = accepted_at (trim value) _ _ _ _ refl refl refl e

fee : (cents : ℕ) → (cents * 10000 * 500) / 10000 ≡ cents * 500
fee cents = omega arith

covered : (cents : ℕ) → ltb (cents * 10000) (cents * 500) ≡ false
covered cents = ground arith

rest : (cents : ℕ) → cents * 10000 - cents * 500 ≡ cents * 9500
rest cents = omega arith

-- The preview of a number of hundredths shows the shares that the payment transfers.
abbrev pub preview_of : ℕ → EconomicsPreview
preview_of cents = record {
  price = format_usdc (split cents 500).total_units 2;
  creator = format_usdc (split cents 500).creator_units 2;
  platform = format_usdc (split cents 500).platform_units 2;
  fee_bps = 500;
}

total : (cents : ℕ) → (split cents 500).total_units ≡ cents * 10000
unfolding split
total cents = refl

shown_split : (cents : ℕ) → preview_units 500 (cents * 10000) ≡ some (preview_of cents)
shown_split cents =
    rw
      (
        (split_exact cents).0,
        (split_exact cents).1,
        fee cents,
        covered cents,
        rest cents,
        total cents,
      )
      refl

no_longer : (n : ℕ) → ltb 2 n ≡ false → ltb 6 n ≡ false
no_longer n e = ground (arith, e)

-- The hundredths that a text names: its whole part, and its fraction as two digits.
abbrev pub hundredths_of : String → ℕ
hundredths_of t = digits_from 0 (whole_of t) * 100 + digits_from 0 (pad_end 2 (fraction_of t))

parsed : (t : String) → Accepted t → parse_trimmed t ≡ some (hundredths_of t * 10000)
parsed t a =
    rw (a.decimal, no_longer _ a.precise, hundredths (whole_of t) (fraction_of t) 0 a.precise) refl

positive_cents :
    (o : Option ℕ) (cents : ℕ)
    → o ≡ some (cents * 10000)
    → is_positive o ≡ true
    → ltb 0 cents ≡ true
positive_cents o cents e p = ground (arith, rw (e) at p)

-- The text as it is typed has the amount of the trimmed text.
amount :
    (value : String)
    → Accepted (trim value)
    → (ltb 0 (hundredths_of (trim value)) ≡ true)
      × (parse_usdc value ≡ some (hundredths_of (trim value) * 10000))
unfolding parse_usdc
amount value a =
    let e = parsed (trim value) a in
    (
      positive_cents _ (hundredths_of (trim value)) (ap parse_trimmed (trim_twice value) ∙ e)
          a.positive,
      e,
    )

-- A price that validatePriceInput accepts names a positive number of hundredths, by the digits before
-- its point and at most two behind it; and the preview shows the creator for it the split that the
-- payment of that number transfers.
pub accepted_preview :
    (value : String)
    → validate_price_input value ≡ none
    → (ltb 0 (hundredths_of (trim value)) ≡ true)
      × (preview_economics value platform_fee_bps ≡ some (preview_of (hundredths_of (trim value))))
unfolding preview_economics
accepted_preview value h =
    let (positive, e) = amount value (accepted value h) in
    (positive, rw (preview_economics, e) (shown_split (hundredths_of (trim value))))
