-- ===== src/Payments/Economics.antt =====
-- The 95/5 split of apps/api/src/modules/payments/payments.service.ts and
-- apps/api/src/modules/archives/archives.service.ts. A price is its number of hundredths of a USDC,
-- so `Math.round(parseFloat(price) * 1_000_000)` is `price * 10000`; in IEEE doubles that is exact
-- while the units stay below 2 ^ 51.
pub mod Shares
use sol_arch.Prelude.{
  ℕ, zero, suc, ◌+◌, ◌*◌, ◌-◌, ◌/◌, ◌%◌, ◌^◌, Bool, ◌&&◌, ◌||◌, leb, ltb, eqb, if◌then◌else◌,
}

pub record Split : Type 0 where
  pub total_units : ℕ
  pub platform_units : ℕ
  pub creator_units : ℕ

-- `Math.round(n / d)`
unfoldable pub round_div : ℕ → ℕ → ℕ
round_div n d = (2 * n + d) / (2 * d)

unfoldable pub split : ℕ → ℕ → Split
unfolding round_div
split price fee_bps =
    let total = price * 10000 in
    let platform = round_div (total * fee_bps) 10000 in
    record { total_units = total; platform_units = platform; creator_units = total - platform }

-- How often `n` doubles until it reaches `bound`.
scale : ℕ → ℕ → ℕ → ℕ
scale zero n bound = 0
scale (suc fuel) n bound =
    let more = suc (scale fuel (2 * n) bound) in if leb bound n then 0 else more

-- `n / d`, rounded to the nearest, ties to even
unfoldable pub nearest_even : ℕ → ℕ → ℕ
nearest_even n d =
    let q = n / d in
    let r = n % d in if ltb d (2 * r) || (eqb d (2 * r) && eqb (q % 2) 1) then suc q else q

-- `(units / 1_000_000).toFixed(2)`, in hundredths: the double nearest to the quotient has 53 bits,
-- and `toFixed` takes the hundredth nearest to that double, the larger of two.
unfoldable pub to_fixed : ℕ → ℕ
unfolding scale nearest_even
to_fixed units =
    let s = scale 80 units (2 ^ 52 * 1000000) in
    let mantissa = nearest_even (units * 2 ^ s) 1000000 in
    if eqb units 0 then 0 else (200 * mantissa + 2 ^ s) / (2 * 2 ^ s)
