-- ===== src/Marketplace/Revenue.antt =====
-- `getArchiveAnalytics`: the numbers of a creator's archive.
pub mod Split
use sol_arch.Prelude.{
  ℕ, zero, suc, ◌+◌, ◌*◌, ◌-◌, ◌/◌, String, Bool, true, false, not, ◌&&◌, Option, none, some, List,
  [], ◌∷◌, ◌==◌, leb, eqb, length, if◌then◌else◌,
}
use sol_arch.Table.{find}
use sol_arch.Failure.{not_found, forbidden, plain}
use sol_arch.Db.{Archive, Db}
use sol_arch.Action.{Result, ok, err, or_throw, unless_throw, ◌&&=◌}
use sol_arch.Payments.Economics.{split, to_fixed}
use sol_arch.Marketplace.Views.{VisitorEvent, is_view}

pub data Period : Type 0 where
  week month all_time : Period

-- `sinceDate`
unfoldable pub since : ℕ → Period → ℕ
since now week = now - 7 * 24 * 60 * 60 * 1000
since now month = now - 30 * 24 * 60 * 60 * 1000
since now all_time = 0

-- A confirmed payment, with the time of its confirmation.
pub record PaidAt : Type 0 where
  pub archive_id : String
  pub confirmed_at : ℕ

unfoldable pub count_events : String → ℕ → Bool → List VisitorEvent → ℕ
count_events id start views [] = 0
count_events id start views (e ∷ es) =
    let rest = count_events id start views es in
    if (e.archive_id == id)
      && leb start e.occurred_at
      && (if views then is_view e.event_type else not (is_view e.event_type))
    then suc rest
    else rest

unfoldable pub payments_since : String → ℕ → List PaidAt → List PaidAt
payments_since id start [] = []
payments_since id start (p ∷ ps) =
    let rest = payments_since id start ps in
    if (p.archive_id == id) && leb start p.confirmed_at then p ∷ rest else rest

-- The three sums of the revenue, in base units in the loop and in hundredths in the answer.
pub record Revenue : Type 0 where
  pub gross : ℕ
  pub creator : ℕ
  pub platform : ℕ

-- The loop over the payments, each at the archive's price
unfoldable pub revenue_of : Archive → List PaidAt → Revenue
unfolding split
revenue_of a [] = record { gross = 0; creator = 0; platform = 0 }
revenue_of a (p ∷ ps) =
    let rest = revenue_of a ps in
    let shares = split a.price_amount a.platform_fee_bps in
    record {
      gross = rest.gross + shares.total_units;
      creator = rest.creator + shares.creator_units;
      platform = rest.platform + shares.platform_units;
    }

-- `(units / 1_000_000).toFixed(2)` of each sum
unfoldable pub rounded : Revenue → Revenue
unfolding to_fixed
rounded r = record {
  gross = to_fixed r.gross;
  creator = to_fixed r.creator;
  platform = to_fixed r.platform;
}

pub record Analytics : Type 0 where
  pub views : ℕ
  pub downloads : ℕ
  pub paid_unlocks : ℕ
  pub revenue : Revenue

unfoldable pub analytics_of :
    ℕ → Period → String → Archive → List VisitorEvent → List PaidAt → Analytics
unfolding since count_events payments_since revenue_of rounded
analytics_of now period id a events paid =
    let start = since now period in
    record {
      views = count_events id start true events;
      downloads = count_events id start false events;
      paid_unlocks = length (payments_since id start paid);
      revenue = rounded (revenue_of a (payments_since id start paid));
    }

-- `getArchiveAnalytics`, less the two conversion rates
unfoldable pub get_archive_analytics :
    Db → ℕ → Period → String → String → List VisitorEvent → List PaidAt → Result Analytics
unfolding analytics_of
get_archive_analytics db now period id user_id events paid =
    or_throw (not_found plain) (find id db.archives) &&= λ a.
    unless_throw (a.creator_user_id == user_id) (forbidden plain) &&= λ _.
    ok (analytics_of now period id a events paid)
