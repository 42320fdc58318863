-- ===== src/Archives/Price.antt =====
-- `calculateEconomics`, and what `formatCreatorArchive` answers of a stored archive.
use sol_arch.Prelude.{
  ℕ, zero, suc, ◌+◌, ◌*◌, ◌-◌, ◌/◌, ◌^◌, ltb, not, String, Bool, Option, none, some, List, [], ◌∷◌,
  ◌==◌, eqb, if◌then◌else◌, length,
}
use sol_arch.Failure.{bad_request, plain}
use sol_arch.Db.{
  Archive, Payment, PublicFile, TechnicalStatus, MarketplaceStatus, is_payment_confirmed,
}
use sol_arch.Table.{Table}
use sol_arch.Action.{Result, ok, err}
use sol_arch.Payments.Economics.{round_div, nearest_even, to_fixed}

-- The shares are hundredths of a USDC.
pub record Economics : Type 0 where
  pub platform_fee_bps : ℕ
  pub creator_share : ℕ
  pub platform_share : ℕ

-- The shares of a number of base units.
unfoldable pub shares_of : ℕ → Economics
unfolding round_div to_fixed
shares_of total =
    let platform = round_div (total * 500) 10000 in
    record {
      platform_fee_bps = 500;
      creator_share = to_fixed (total - platform);
      platform_share = to_fixed platform;
    }

-- What `parseFloat` reads, if it is finite and not negative: the double `mantissa / 2 ^ halvings`.
pub record Amount : Type 0 where
  pub mantissa : ℕ
  pub halvings : ℕ

-- How many bits more than 53 a number has; 80 halvings are enough for a product of a double's mantissa.
excess : ℕ → ℕ → ℕ
excess zero n = 0
excess (suc fuel) n = let more = suc (excess fuel (n / 2)) in if ltb n (2 ^ 53) then 0 else more

-- `Math.round(amountNum * 1_000_000)`: the product is the nearest double.
unfoldable pub units_of : Amount → ℕ
unfolding excess nearest_even round_div
units_of a =
    let product = a.mantissa * 1000000 in
    let bits = excess 80 product in
    round_div (nearest_even product (2 ^ bits) * 2 ^ bits) (2 ^ a.halvings)

-- `amountNum.toFixed(2)`, in hundredths: the hundredth nearest to the double, the larger of two.
unfoldable pub hundredths_of_amount : Amount → ℕ
unfolding round_div
hundredths_of_amount a = round_div (100 * a.mantissa) (2 ^ a.halvings)

-- Whether an amount is above zero, and its base units.
abbrev pub read_amount : Option Amount → Option (Bool × ℕ)
read_amount none = none
read_amount (some a) = some (not (eqb a.mantissa 0), units_of a)

-- `calculateEconomics`, of an amount that is read so; `none` is an amount that is no number, or negative
unfoldable pub calculate_economics : Option (Bool × ℕ) → Result Economics
unfolding shares_of
calculate_economics none = err (bad_request plain)
calculate_economics (some (positive, total)) =
    if not positive then err (bad_request plain) else ok (shares_of total)

-- A stored price of so many hundredths.
abbrev pub read_price : ℕ → Option (Bool × ℕ)
read_price hundredths = some (not (eqb (hundredths * 10000) 0), hundredths * 10000)

pub record CreatorArchive : Type 0 where
  pub archive_id : String
  pub technical_status : TechnicalStatus
  pub marketplace_status : MarketplaceStatus
  pub price_amount : ℕ
  pub economics : Economics
  pub payout_account_ready : Bool
  pub file_count : ℕ
  pub size_bytes : ℕ
  pub paid_unlocks : ℕ

unfoldable pub sum_sizes : List PublicFile → ℕ
sum_sizes [] = 0
sum_sizes (f ∷ fs) = f.size_bytes + sum_sizes fs

-- `payments.filter((p) => p.status === 'confirmed').length`, over the payments of an archive
unfoldable pub count_paid : String → Table Payment → ℕ
count_paid id [] = 0
count_paid id ((k, p) ∷ t) =
    let rest = count_paid id t in
    if p.archive_id == id then (if is_payment_confirmed p.status then 1 + rest else rest) else rest

abbrev pub formatted :
    String → Archive → List PublicFile → ℕ → Bool → Result Economics → Result CreatorArchive
formatted id a files paid ready (err e) = err e
formatted id a files paid ready (ok economics) = ok (record {
  archive_id = id;
  technical_status = a.technical_status;
  marketplace_status = a.marketplace_status;
  price_amount = a.price_amount;
  economics = economics;
  payout_account_ready = ready;
  file_count = length files;
  size_bytes = sum_sizes files;
  paid_unlocks = paid;
})

-- `formatCreatorArchive`, less the views, the downloads and the texts that it copies; it throws where
-- `calculateEconomics` does.
unfoldable pub format_creator_archive :
    String → Archive → List PublicFile → ℕ → Bool → Result CreatorArchive
unfolding calculate_economics sum_sizes
format_creator_archive id a files paid ready =
    formatted id a files paid ready (calculate_economics (read_price a.price_amount))
