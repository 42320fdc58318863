-- ===== src/Archives/Tests.antt =====
-- The archives theorems at one archive and its listing.
use sol_arch.Prelude.{
  ◌-◌, ◌<◌, ◌≡◌, refl, true, false, none, some, List, [], ◌∷◌, ◌⊎◌, ◌==◌, inl, inr, Bool-cases,
}
use sol_arch.Table.{find, first}
use sol_arch.Failure.{bad_request, plain}
use sol_arch.Db.{Archive, Listing, MarketplaceStatus, Db}
use sol_arch.Action.{ok, err, is_err}
use sol_arch.Samples.{platform, env, archive, unpaid}
use sol_arch.Archives.Price.{calculate_economics, hundredths_of_amount}
use sol_arch.Archives.Manage.{
  CreateArchive, CreateDraw, PayoutChain, is_payout_ready, checked_create, new_archive, create,
  list_for_creator, publish, block_archive, marked, relisted_as, published_at_time,
  is_frozen_license,
}
use sol_arch.Archives.Handlers.{Request, run}
use sol_arch.Archives.Agreement.{Listed, run-Listed}
use sol_arch.Archives.Terms.{HasTerms, terms, run-HasTerms}
use sol_arch.Archives.Publishing.{
  Offered, Publishable, creator_archive, rewritten, publish_returns, block_archive_returns,
  publish-Publishable,
}
use sol_arch.Archives.Unpriced.{create_unpriced}
use sol_arch.Archives.Ata.{AtaStatus, is_ata_ready, cache_lifetime}
use sol_arch.Archives.Ata.Recent.{Call, Seen, remember, is_ata_ready_lem}

abbrev listing : Listing
listing = record {
  slug = "plans-x1";
  title = "plans";
  short_description = "";
  description = "";
  category = none;
  marketplace_status = MarketplaceStatus.blocked;
  published_at = none;
}

abbrev blocked : Archive
blocked = record archive { marketplace_status = MarketplaceStatus.blocked }

abbrev stored : Db
stored = record unpaid { archives = ("a1", blocked) ∷ []; listings = ("a1", listing) ∷ [] }

abbrev chain : PayoutChain
chain = record {
  keys_parse = λ wallet account. true;
  account_exists = λ account. false;
  account_created = λ account. true;
}

offered : Offered "a1" blocked listing stored
unfolding find
offered = record { row = refl; listing = refl; priced = refl }

publish_returns_example : publish chain false 5 "a1" "u1" stored ≡ (
  ok (
      creator_archive "a1" (marked MarketplaceStatus.published blocked) true (
        rewritten "a1"
          (marked MarketplaceStatus.published blocked)
          (published_at_time 5 listing)
          stored)),
  rewritten "a1" (marked MarketplaceStatus.published blocked) (published_at_time 5 listing) stored,
)
unfolding is_payout_ready
publish_returns_example =
    publish_returns chain false 5 "a1" "u1" blocked listing stored offered refl refl refl

block_archive_returns_example : block_archive false "a1" stored ≡ (
  ok (
      creator_archive "a1" (marked MarketplaceStatus.blocked blocked) false (
        rewritten "a1"
          (marked MarketplaceStatus.blocked blocked)
          (relisted_as MarketplaceStatus.blocked listing)
          stored)),
  rewritten "a1"
      (marked MarketplaceStatus.blocked blocked)
      (relisted_as MarketplaceStatus.blocked listing)
      stored,
)
block_archive_returns_example = block_archive_returns false "a1" blocked listing stored offered

publish-Publishable_example : Publishable chain false "a1" "u1" stored
publish-Publishable_example =
    publish-Publishable chain false 5 "a1" "u1" stored
      (rewritten "a1" (marked MarketplaceStatus.published blocked) (published_at_time 5 listing)
        stored)
      (creator_archive "a1" (marked MarketplaceStatus.published blocked) true (
        rewritten "a1" (marked MarketplaceStatus.published blocked) (published_at_time 5 listing)
          stored))
      publish_returns_example

abbrev requests : List Request
requests =
    Request.publish_archive chain false 5 "a1" "u1"
    ∷ Request.unpublish_archive true "a1" "u1"
    ∷ Request.block_request true "a1"
    ∷ []

run-HasTerms_example : HasTerms "a1" (terms archive) (run platform env requests stored)
unfolding find
run-HasTerms_example =
    run-HasTerms "a1" (terms archive) platform env requests stored
      (record { stored = blocked; found = refl; same = refl })

stored-Listed : Listed stored
unfolding find
stored-Listed = record {
  same =
      λ id. elim (Bool-cases ("a1" == id)) [ inl own ↦ rw (own) refl | inr other ↦ rw (other) tt ];
}

run-Listed_example : Listed (run platform env requests stored)
run-Listed_example = run-Listed platform env requests stored stored-Listed

-- A price of 2 ^ -22 USDC, less than half a base unit.
abbrev cheap : CreateArchive
cheap = record {
  title = "plans";
  short_description = none;
  description = none;
  price_currency = "USDC";
  price = some (record { mantissa = 1; halvings = 22 });
  creator_payout_wallet = "creator wallet";
  license_policy = none;
}

abbrev create_draw : CreateDraw
create_draw = record { archive_id = "a2"; slug = "plans-x2"; payout_ready = true }

create_unpriced_example :
    ((create platform env create_draw "u1" cheap stored).0 ≡ err (bad_request plain))
    × (find "a2" (create platform env create_draw "u1" cheap stored).1.archives
        ≡ some (new_archive platform env "u1" cheap))
    × (is_err
          (list_for_creator
            (λ id. true)
            "u1"
            (create platform env create_draw "u1" cheap stored).1).0
        ≡ true)
unfolding checked_create is_frozen_license calculate_economics hundredths_of_amount find first
create_unpriced_example =
    create_unpriced platform env create_draw "u1" cheap stored (λ id. true) refl refl refl

abbrev calls : List Call
calls = Call.asked false (λ address. true) 1500 1501 (some "ata") ∷ Call.found "ata" 1000 ∷ []

is_ata_ready_example :
    ((is_ata_ready false (λ address. false) 9000 9001 (remember calls).cache (some "ata")).0
      ≡ false)
    ⊎ ((s : AtaStatus) × Seen "ata" s (remember calls).observed
        × ((is_ata_ready false (λ address. false) 9000 9001 (remember calls).cache (some "ata")).0
            ≡ s.ready)
        × (9000 - s.timestamp < cache_lifetime))
is_ata_ready_example = is_ata_ready_lem calls (λ address. false) 9000 9001 "ata" refl
