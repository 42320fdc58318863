-- ===== src/Archives/Publishing.antt =====
-- When `publish` and `blockArchive` return, and what they ask for.
use sol_arch.Prelude.{
  ℕ, ◌*◌, String, ◌≡◌, refl, ◌∙◌, Bool, true, false, ◌||◌, some, eq_iff, eqb, length, ◌==◌,
}
use sol_arch.Table.{find, put}
use sol_arch.Db.Contents.{files_of}
use sol_arch.Failure.{bad_request, not_found, conflict, plain, payout_account_not_ready}
use sol_arch.Db.{Archive, Listing, MarketplaceStatus, Db, is_ready}
use sol_arch.Action.{ok, ◌>>=◌}
use sol_arch.Action.Returns.{
  bind_then, lift_then, unless_throw_holds, bind_ok, lift_bind_ok, gets_bind_ok, or_throw_ok,
  unless_throw_ok, pure_ok,
}
use sol_arch.Archives.Price.{
  shares_of, sum_sizes, count_paid, CreatorArchive, format_creator_archive,
}
use sol_arch.Archives.Manage.{
  PayoutChain, is_payout_ready, owned_archive, update_listed, shown, marked, relisted_as,
  published_at_time, publish, block_archive,
}

-- An archive and its listing, as they are stored, with a price.
pub record Offered (id : String) (a : Archive) (l : Listing) (db : Db) : Type 0 where
  pub row : find id db.archives ≡ some a
  pub listing : find id db.listings ≡ some l
  pub priced : eqb (a.price_amount * 10000) 0 ≡ false

abbrev pub rewritten : String → Archive → Listing → Db → Db
rewritten id a l db = record db { archives = put id a db.archives; listings = put id l db.listings }

both_written :
    (id : String) (a : Archive) (l : Listing) (change : Archive → Archive)
    (relist : Listing → Listing) (db : Db)
    → Offered id a l db
    → update_listed id change relist db ≡ (ok (change a), rewritten id (change a) (relist l) db)
unfolding update_listed
both_written id a l change relist db o = rw (o.row, o.listing) refl

-- The answer of `formatCreatorArchive` for an archive with a price.
abbrev pub creator_archive : String → Archive → Bool → Db → CreatorArchive
creator_archive id a ready db = record {
  archive_id = id;
  technical_status = a.technical_status;
  marketplace_status = a.marketplace_status;
  price_amount = a.price_amount;
  economics = shares_of (a.price_amount * 10000);
  payout_account_ready = ready;
  file_count = length (files_of id db.public_files);
  size_bytes = sum_sizes (files_of id db.public_files);
  paid_unlocks = count_paid id db.payments;
}

shown_priced :
    (id : String) (a : Archive) (ready : Bool) (db : Db)
    → eqb (a.price_amount * 10000) 0 ≡ false
    → shown id a ready db ≡ (ok (creator_archive id a ready db), db)
unfolding shown format_creator_archive ◌>>=◌
shown_priced id a ready db priced = rw (priced) refl

owned_archive_runs :
    (id user_id : String) (a : Archive) (db : Db)
    → find id db.archives ≡ some a
    → (a.creator_user_id == user_id) ≡ true
    → owned_archive id user_id db ≡ (ok a, db)
unfolding owned_archive ◌>>=◌
owned_archive_runs id user_id a db row owner = rw (row, owner) refl

-- An archive that is listed with a price, is ready, and whose payout account exists, can be created or
-- is not asked for, is published by its creator from every marketplace status, `blocked` included.
pub publish_returns :
    (chain : PayoutChain) (skip : Bool) (now : ℕ) (id user_id : String) (a : Archive) (l : Listing)
    (db : Db)
    → Offered id a l db
    → a.creator_user_id ≡ user_id
    → is_ready a.technical_status ≡ true
    → (is_payout_ready chain a || skip) ≡ true
    → publish chain skip now id user_id db ≡ (
      ok (
          creator_archive id
            (marked MarketplaceStatus.published a)
            true
            (rewritten id (marked MarketplaceStatus.published a) (published_at_time now l) db)),
      rewritten id (marked MarketplaceStatus.published a) (published_at_time now l) db,
    )
unfolding publish
publish_returns chain skip now id user_id a l db o owner ready account =
    bind_then _ _ db
      (owned_archive_runs id user_id a db o.row ((eq_iff a.creator_user_id user_id).1 owner))
    ∙ lift_then _ _ db (unless_throw_holds _ (bad_request plain) ready)
    ∙ lift_then _ _ db (unless_throw_holds _ (conflict payout_account_not_ready) account)
    ∙ bind_then _ _ db
        (both_written id a l (marked MarketplaceStatus.published) (published_at_time now) db o)
    ∙ shown_priced id (marked MarketplaceStatus.published a) true
        (rewritten id (marked MarketplaceStatus.published a) (published_at_time now l) db) o.priced

-- Any user's request blocks any archive that is listed with a price.
pub block_archive_returns :
    (ready : Bool) (id : String) (a : Archive) (l : Listing) (db : Db)
    → Offered id a l db
    → block_archive ready id db ≡ (
      ok (
          creator_archive id (marked MarketplaceStatus.blocked a) ready (
            rewritten id
              (marked MarketplaceStatus.blocked a)
              (relisted_as MarketplaceStatus.blocked l)
              db)),
      rewritten id
          (marked MarketplaceStatus.blocked a)
          (relisted_as MarketplaceStatus.blocked l)
          db,
    )
unfolding block_archive ◌>>=◌
block_archive_returns ready id a l db o =
    rw
      (
        o.row,
        both_written id a l (marked MarketplaceStatus.blocked)
            (relisted_as MarketplaceStatus.blocked) db o,
        shown_priced id (marked MarketplaceStatus.blocked a) ready
            (rewritten id (marked MarketplaceStatus.blocked a)
              (relisted_as MarketplaceStatus.blocked l) db)
            o.priced,
      )
      refl

-- What `publish` has found when it returns.
pub record Publishable (chain : PayoutChain) (skip : Bool) (id user_id : String) (db : Db)
    : Type 0 where
  pub archive : Archive
  pub row : find id db.archives ≡ some archive
  pub owner : archive.creator_user_id ≡ user_id
  pub ready : is_ready archive.technical_status ≡ true
  pub account : (is_payout_ready chain archive || skip) ≡ true

owned_archive_ok :
    (id user_id : String) (db after : Db) (a : Archive)
    → owned_archive id user_id db ≡ (ok a, after)
    → (find id db.archives ≡ some a) × (a.creator_user_id ≡ user_id) × (after ≡ db)
unfolding owned_archive
owned_archive_ok id user_id db after a run =
    let s1 = lift_bind_ok _ _ db (gets_bind_ok _ _ db run) in
    let s2 = lift_bind_ok _ _ db s1.2 in
    let s3 = pure_ok s1.0 db s2.2 in
    let owner = unless_throw_ok (s1.0.creator_user_id == user_id) (not_found plain) s2.1 in
    rw (s3.0) (or_throw_ok _ _ s1.1, (eq_iff s1.0.creator_user_id user_id).0 owner, s3.1)

-- Only its creator publishes an archive, only when its container is ready, and only with a payout
-- account that exists or that could be created, or where the configuration does not ask for one.
pub publish-Publishable :
    (chain : PayoutChain) (skip : Bool) (now : ℕ) (id user_id : String) (db after : Db)
    (c : CreatorArchive)
    → publish chain skip now id user_id db ≡ (ok c, after)
    → Publishable chain skip id user_id db
unfolding publish
publish-Publishable chain skip now id user_id db after c run =
    let s1 = bind_ok _ _ db run in
    let found = owned_archive_ok id user_id db s1.1 s1.0 s1.2 in
    let s2 = lift_bind_ok _ _ s1.1 s1.3 in
    let s3 = lift_bind_ok _ _ s1.1 s2.2 in
    record {
      archive = s1.0;
      row = found.0;
      owner = found.1;
      ready = unless_throw_ok (is_ready s1.0.technical_status) (bad_request plain) s2.1;
      account =
          unless_throw_ok (is_payout_ready chain s1.0 || skip) (conflict payout_account_not_ready)
            s3.1;
    }
