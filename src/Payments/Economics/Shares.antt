-- ===== src/Payments/Economics/Shares.antt =====
-- The split conserves the price, and its platform share is the rounded fee.
use sol_arch.Prelude.{ℕ, ◌+◌, ◌*◌, ◌≡◌, refl, arith}
use sol_arch.Payments.Economics.{split, to_fixed}

-- At the fee of 500 basis points the split is exact: twenty times the platform's share is the price,
-- nineteen times as much goes to the creator, and no unit is lost.
pub split_exact :
    (price : ℕ)
    → ((split price 500).platform_units ≡ price * 500)
      × ((split price 500).creator_units ≡ price * 9500)
      × ((split price 500).creator_units + (split price 500).platform_units
          ≡ (split price 500).total_units)
unfolding split
split_exact price = (omega arith, omega arith, omega arith)

-- The two shares as texts need not add up to the price: 0.10 USDC shows 0.10 and 0.01.
shown_shares : to_fixed (split 10 500).creator_units + to_fixed (split 10 500).platform_units ≡ 11
unfolding split to_fixed
shown_shares = refl

shown_half : to_fixed 475000 ≡ 47
unfolding to_fixed
shown_half = refl
