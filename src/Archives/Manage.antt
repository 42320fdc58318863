-- ===== src/Archives/Manage.antt =====
-- `create`, `findOne`, `listForCreator`, `getFilesForCreator`, `update`, `publish`, `unpublish` and
-- `blockArchive`.
use sol_arch.Prelude.{
  ℕ, String, Bool, true, false, not, ◌&&◌, ◌||◌, Option, none, some, List, [], ◌∷◌, ◌==◌, is_text,
  eqb, is_some, truthy, if◌then◌else◌,
}
use sol_arch.Table.{Table, find, put, first, select}
use sol_arch.Failure.{
  bad_request, not_found, conflict, internal, plain, invalid_request, payout_account_not_ready,
}
use sol_arch.Db.{Archive, Listing, TechnicalStatus, MarketplaceStatus, PublicFile, is_ready}
use sol_arch.Db.Contents.{files_of}
use sol_arch.Action.{
  Result, ok, err, Action, pure, throw, gets, lift, modify, unless_throw, or_throw, ◌>>=◌, ◌>>◌,
  ◌&&=◌,
}
use sol_arch.Platform.{Platform, Env}
use sol_arch.Archives.Price.{
  CreatorArchive, Amount, hundredths_of_amount, read_amount, calculate_economics,
  format_creator_archive, count_paid,
}

-- `archive.update({ where: { id }, data: { …, listing: { update } } })`, for data without content
-- columns: it throws where the archive or its listing is missing
abbrev pub write_both :
    String
    → Option Archive
    → Option Listing
    → (Archive → Archive)
    → (Listing → Listing)
    → Action Archive
write_both id none l change relist db = (err internal, db)
write_both id (some a) none change relist db = (err internal, db)
write_both id (some a) (some l) change relist db = (
  ok (change a),
  record db { archives = put id (change a) db.archives; listings = put id (relist l) db.listings },
)

unfoldable pub update_listed : String → (Archive → Archive) → (Listing → Listing) → Action Archive
update_listed id change relist db =
    write_both id (find id db.archives) (find id db.listings) change relist db

-- `archive.create` with its listing; the id and the slug are unique
unfoldable pub create_listed : String → Archive → Listing → Action (Unit {0})
create_listed id a l db =
    if is_some (find id db.archives)
      || is_some (find id db.listings)
      || is_some (first (λ m. m.slug == l.slug) db.listings)
    then throw internal db
    else modify (λ d. record d { archives = put id a d.archives; listings = put id l d.listings })
        db

-- `findUnique`, and the check of the owner
unfoldable pub owned_archive : String → String → Action Archive
owned_archive archive_id user_id = do
  found ← gets (λ db. find archive_id db.archives)
  archive ← lift (or_throw (not_found plain) found)
  lift (unless_throw (archive.creator_user_id == user_id) (not_found plain))
  pure archive

-- `formatCreatorArchive` with the included files and payments
unfoldable pub shown : String → Archive → Bool → Action CreatorArchive
unfolding format_creator_archive
shown archive_id a ready = do
  files ← gets (λ db. files_of archive_id db.public_files)
  paid ← gets (λ db. count_paid archive_id db.payments)
  lift (format_creator_archive archive_id a files paid ready)

pub record LicensePolicy : Type 0 where
  pub max_devices : Option ℕ
  pub allow_export : Option Bool
  pub watermark_enabled : Option Bool

-- `CreateArchiveDto`. The amount is the double that `parseFloat` reads; `none` is a text that is no
-- number, or negative.
pub record CreateArchive : Type 0 where
  pub title : String
  pub short_description : Option String
  pub description : Option String
  pub price_currency : String
  pub price : Option Amount
  pub creator_payout_wallet : String
  pub license_policy : Option LicensePolicy

pub record UpdateArchive : Type 0 where
  pub title : Option String
  pub short_description : Option String
  pub description : Option String
  pub category : Option String

-- `a !== undefined && a !== b`
abbrev pub differs : Option ℕ → ℕ → Bool
differs none b = false
differs (some a) b = not (eqb a b)

abbrev pub is_other : Option Bool → Bool → Bool
is_other none b = false
is_other (some a) b = if a then not b else b

-- The license policy is absent or the frozen one.
unfoldable pub is_frozen_license : Option LicensePolicy → Bool
is_frozen_license none = true
is_frozen_license (some p) =
    not (
      differs p.max_devices 1 || is_other p.allow_export false || is_other p.watermark_enabled true)

abbrev pub or_text : Option String → String → String
or_text none t = t
or_text (some s) t = s

-- `parseFloat(dto.price.amount).toFixed(2)`; a text that is no number does not come so far
abbrev pub stored_price : Option Amount → ℕ
stored_price none = 0
stored_price (some a) = hundredths_of_amount a

-- What is drawn and asked for during one call: the id, the slug with its random end, and the answer of
-- `isAtaReady` behind the write.
pub record CreateDraw : Type 0 where
  pub archive_id : String
  pub slug : String
  pub payout_ready : Bool

unfoldable pub new_archive : Platform → Env → String → CreateArchive → Archive
new_archive p env user_id dto = record {
  creator_user_id = user_id;
  title = dto.title;
  short_description = or_text (truthy dto.short_description) "";
  description = or_text (truthy dto.description) "";
  technical_status = TechnicalStatus.draft;
  marketplace_status = MarketplaceStatus.draft;
  creator_payout_wallet = dto.creator_payout_wallet;
  creator_usdc_ata = some (p.associated_token_address env.usdc_mint dto.creator_payout_wallet);
  price_currency = "USDC";
  price_amount = stored_price dto.price;
  platform_fee_bps = 500;
  content_key_ref = none;
  generated_slr_storage_key = none;
  archive_fingerprint = none;
  max_devices = 1;
  allow_export = false;
  watermark_enabled = true;
}

abbrev pub new_listing : CreateDraw → CreateArchive → Listing
new_listing draw dto = record {
  slug = draw.slug;
  title = dto.title;
  short_description = or_text (truthy dto.short_description) "";
  description = or_text (truthy dto.description) "";
  category = none;
  marketplace_status = MarketplaceStatus.draft;
  published_at = none;
}

-- The checks of `create`, up to the economics.
unfoldable pub checked_create : Platform → CreateArchive → Result (Unit {0})
unfolding is_frozen_license calculate_economics
checked_create p dto = unless_throw (dto.price_currency == "USDC") (bad_request plain) &&= λ _.
    unless_throw (is_frozen_license dto.license_policy) (bad_request invalid_request) &&= λ _.
    unless_throw (is_text (p.public_key dto.creator_payout_wallet) dto.creator_payout_wallet)
      (bad_request plain)
    &&= λ _. calculate_economics (read_amount dto.price) &&= λ _. ok tt

-- `create`
unfoldable pub create : Platform → Env → CreateDraw → String → CreateArchive → Action CreatorArchive
unfolding checked_create shown create_listed
create p env draw user_id dto = do
  lift (checked_create p dto)
  let archive = new_archive p env user_id dto
  create_listed draw.archive_id archive (new_listing draw dto)
  shown draw.archive_id archive draw.payout_ready

-- `findOne`
unfoldable pub find_one : Bool → String → String → Action CreatorArchive
unfolding owned_archive shown
find_one ready archive_id user_id = do
  archive ← owned_archive archive_id user_id
  shown archive_id archive ready

-- `getFilesForCreator`; the order by `sortOrder` is the order of insertion
unfoldable pub get_files_for_creator : String → String → Action (List PublicFile)
unfolding owned_archive
get_files_for_creator archive_id user_id = do
  owned_archive archive_id user_id
  gets (λ db. files_of archive_id db.public_files)

-- `Promise.all` over the archives of the creator, each with its answer of `isAtaReady`: the first throw
-- is the answer.
unfoldable pub show_all : (String → Bool) → Table Archive → Action (List CreatorArchive)
unfolding shown
show_all ready [] = pure []
show_all ready ((id, a) ∷ rest) = do
  one ← shown id a (ready id)
  more ← show_all ready rest
  pure (one ∷ more)

-- `listForCreator`
unfoldable pub list_for_creator : (String → Bool) → String → Action (List CreatorArchive)
unfolding show_all
list_for_creator ready user_id = do
  archives ← gets (λ db. select (λ a. a.creator_user_id == user_id) db.archives)
  show_all ready archives

abbrev pub retitled : UpdateArchive → Archive → Archive
retitled dto a = record a {
  title = or_text dto.title a.title;
  short_description = or_text dto.short_description a.short_description;
  description = or_text dto.description a.description;
}

-- `category: undefined` leaves the column
abbrev pub or_category : Option String → Option String → Option String
or_category none old = old
or_category (some c) old = some c

-- The texts of the listing come from the archive, not from its own columns.
abbrev pub relisted : UpdateArchive → Archive → Listing → Listing
relisted dto a l = record l {
  title = or_text dto.title a.title;
  short_description = or_text dto.short_description a.short_description;
  description = or_text dto.description a.description;
  category = or_category dto.category l.category;
}

-- `update`
unfoldable pub update : String → String → UpdateArchive → Action Archive
unfolding owned_archive update_listed
update archive_id user_id dto = do
  archive ← owned_archive archive_id user_id
  update_listed archive_id (retitled dto) (relisted dto archive)

-- What the chain answers while `publish` runs.
pub record PayoutChain : Type 0 where
  -- `new PublicKey` accepts the wallet and the account
  pub keys_parse : String → Option String → Bool
  -- `getAccount` returns
  pub account_exists : Option String → Bool
  -- `sendAndConfirmTransaction` returns
  pub account_created : Option String → Bool

unfoldable pub is_payout_ready : PayoutChain → Archive → Bool
is_payout_ready chain a =
    chain.keys_parse a.creator_payout_wallet a.creator_usdc_ata
    && (chain.account_exists a.creator_usdc_ata || chain.account_created a.creator_usdc_ata)

abbrev pub marked : MarketplaceStatus → Archive → Archive
marked status a = record a { marketplace_status = status }

abbrev pub relisted_as : MarketplaceStatus → Listing → Listing
relisted_as status l = record l { marketplace_status = status }

abbrev pub published_at_time : ℕ → Listing → Listing
published_at_time now l = record l {
  marketplace_status = MarketplaceStatus.published;
  published_at = some now;
}

-- `publish`, by the flag `skipAtaVerification`
unfoldable pub publish : PayoutChain → Bool → ℕ → String → String → Action CreatorArchive
unfolding owned_archive is_payout_ready update_listed shown
publish chain skip now archive_id user_id = do
  archive ← owned_archive archive_id user_id
  lift (unless_throw (is_ready archive.technical_status) (bad_request plain))
  lift (unless_throw (is_payout_ready chain archive || skip) (conflict payout_account_not_ready))
  updated ← update_listed archive_id (marked MarketplaceStatus.published) (published_at_time now)
  shown archive_id updated true

-- `unpublish`
unfoldable pub unpublish : Bool → String → String → Action CreatorArchive
unfolding owned_archive update_listed shown
unpublish ready archive_id user_id = do
  owned_archive archive_id user_id
  updated ←
      update_listed archive_id (marked MarketplaceStatus.unpublished)
        (relisted_as MarketplaceStatus.unpublished)
  shown archive_id updated ready

-- `blockArchive`, which reads no owner
unfoldable pub block_archive : Bool → String → Action CreatorArchive
unfolding update_listed shown
block_archive ready archive_id = do
  found ← gets (λ db. find archive_id db.archives)
  lift (or_throw (not_found plain) found)
  updated ←
      update_listed archive_id (marked MarketplaceStatus.blocked)
        (relisted_as MarketplaceStatus.blocked)
  shown archive_id updated ready
