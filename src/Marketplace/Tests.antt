-- ===== src/Marketplace/Tests.antt =====
-- The marketplace theorems at a listing of three items, two visits and two payments.
use sol_arch.Prelude.{ℕ, ◌*◌, String, ◌≡◌, refl, none, some, List, [], ◌∷◌, length}
use sol_arch.Table.{find, first}
use sol_arch.Db.{Db, MarketplaceStatus}
use sol_arch.Action.{ok}
use sol_arch.Samples.{archive, unpaid}
use sol_arch.Marketplace.Pages.{Sort, Item, whole, page_limit, total_pages}
use sol_arch.Marketplace.Pages.Cover.{first_pages}
use sol_arch.Marketplace.Views.{
  look_up, published_slug, should_record, create_view, record_download,
}
use sol_arch.Marketplace.Views.Traffic.{Step, Exclusive, traffic}
use sol_arch.Marketplace.Views.Spaced.{Spaced, traffic-Spaced}
use sol_arch.Payments.Economics.{to_fixed}
use sol_arch.Marketplace.Revenue.{
  Period, PaidAt, Analytics, analytics_of, payments_since, since, get_archive_analytics,
}
use sol_arch.Marketplace.Revenue.Split.{get_archive_analytics_lem}

abbrev item : String → ℕ → Item
item id downloads = record {
  archive_id = id;
  price_amount = 100;
  downloads = downloads;
  paid_unlocks = 0;
  window_paid = 0;
  window_downloads = 0;
}

abbrev rows : List Item
rows = item "a1" 1 ∷ item "a2" 5 ∷ item "a3" 3 ∷ []

abbrev pages : List Item
pages =
    first_pages Sort.most_downloaded (whole 2) rows
      (total_pages (length rows) (page_limit (whole 2)))

-- The archive with a published listing.
abbrev market : Db
market = record unpaid {
  listings =
      (
        "a1",
        record {
          slug = "plans";
          title = "plans";
          short_description = "";
          description = "";
          category = none;
          marketplace_status = MarketplaceStatus.published;
          published_at = some 1;
        },
      )
      ∷ [];
}

abbrev steps : List Step
steps =
    Step.writes 0 5
    ∷ Step.looks market 2000000 "plans" (some "s1")
    ∷ Step.writes 1 7
    ∷ Step.looks market 1000000 "plans" (some "s2")
    ∷ Step.looks market 1000000 "plans" (some "s1")
    ∷ Step.downloads 900000 "a1" none
    ∷ []

steps-Exclusive : Exclusive steps
unfolding Exclusive traffic look_up published_slug first should_record create_view record_download
steps-Exclusive = (refl, (refl, (refl, tt)))

steps_run : length (traffic steps).events ≡ 3
unfolding traffic look_up published_slug first should_record create_view record_download
steps_run = refl

traffic-Spaced_example : Spaced "a1" "s1" (traffic steps).events
traffic-Spaced_example = traffic-Spaced "a1" "s1" steps steps-Exclusive

abbrev paid : List PaidAt
paid =
    record { archive_id = "a1"; confirmed_at = 5 }
    ∷ record { archive_id = "a1"; confirmed_at = 9 }
    ∷ []

abbrev told : Analytics
told = analytics_of 10 Period.all_time "a1" archive [] paid

told_here : get_archive_analytics unpaid 10 Period.all_time "a1" "u1" [] paid ≡ ok told
unfolding get_archive_analytics find
told_here = refl

get_archive_analytics_example :
    (archive.creator_user_id ≡ "u1")
    × (told.paid_unlocks ≡ length (payments_since "a1" (since 10 Period.all_time) paid))
    × (told.revenue.gross ≡ to_fixed (told.paid_unlocks * (100 * 10000)))
    × (told.revenue.creator ≡ to_fixed (told.paid_unlocks * (100 * 9500)))
    × (told.revenue.platform ≡ to_fixed (told.paid_unlocks * (100 * 500)))
unfolding find
get_archive_analytics_example =
    get_archive_analytics_lem unpaid 10 Period.all_time "a1" "u1" [] paid archive told refl refl
      told_here
