-- ===== src/Uploads/Completed/Refused.antt =====
-- What `complete` leaves behind when the ZIP is refused, and when the container cannot be built.
use sol_arch.Prelude.{ℕ, String, ◌≡◌, refl, sym, ◌∙◌, true, false, some, List, eq_refl}
use sol_arch.Table.{find}
use sol_arch.Table.Laws.{find-put_self}
use sol_arch.Failure.{Failure}
use sol_arch.Db.{Archive, TechnicalStatus, PublicFile, Db}
use sol_arch.Db.Contents.{put_archive, content_kept, update_archive, claim_archive}
use sol_arch.Action.{ok, err, ◌>>=◌}
use sol_arch.Uploads.Owned.{
  OwnedUpload, assert_upload_owner, assert_archive_mutable, is_archive_finalized, set_technical,
}
use sol_arch.Uploads.Opened.{Found}
use sol_arch.Uploads.Scan.{ZipEntry, inspect, stage}
use sol_arch.Uploads.Complete.{
  Tools, KeyDraw, stored_file, is_frozen_policy, can_claim_build, claim_build, build_claimed,
  build_input, or_fail, complete,
}
use sol_arch.Uploads.Completed.Steps.{processing, claimable_has_no_content}

-- `complete` gets as far as the entries of the ZIP.
pub record Inspecting (t : Tools) (user_id upload_id : String) (db : Db) (o : OwnedUpload)
    (entries : List ZipEntry) : Type 0 where
  pub content : List ℕ
  pub found : Found user_id upload_id db o
  pub mutable : is_archive_finalized o.paid o.archive ≡ false
  pub stored : stored_file o.upload.storage_key db ≡ some content
  pub policy : is_frozen_policy o.archive ≡ true
  pub claimed : can_claim_build o.upload.archive_id db o.archive ≡ true
  pub opens : t.paths.open_zip content ≡ some (some entries)

owner-Found :
    (user_id upload_id : String) (db : Db) (o : OwnedUpload)
    → Found user_id upload_id db o
    → assert_upload_owner user_id upload_id db ≡ (ok o, db)
unfolding assert_upload_owner ◌>>=◌
owner-Found user_id upload_id db o f =
    rw (f.upload, f.archive, f.owner, eq_refl user_id, sym f.paid) refl

claim_held :
    (id : String) (a : Archive) (db : Db)
    → find id db.archives ≡ some a
    → can_claim_build id db a ≡ true
    → claim_build id db ≡ (ok tt, put_archive id (processing a) db)
unfolding claim_build claim_archive ◌>>=◌
claim_held id a db stored held = rw (stored, held) refl

module _ (t : Tools) (draw : KeyDraw) (user_id upload_id : String) (db : Db) (o : OwnedUpload)
    (entries : List ZipEntry) (s : Inspecting t user_id upload_id db o entries) where
  -- The database after the claim.
  abbrev claimed_db : Db
  claimed_db = put_archive o.upload.archive_id (processing o.archive) db

  reaches_build :
      complete t draw user_id upload_id db
      ≡ build_claimed t draw upload_id o.upload.archive_id o.archive s.content claimed_db
  unfolding complete assert_archive_mutable ◌>>=◌
  reaches_build =
      rw
        (
          owner-Found user_id upload_id db o s.found,
          s.mutable,
          s.stored,
          s.policy,
          claim_held o.upload.archive_id o.archive db s.found.archive s.claimed,
        )
        refl

  failing :
      {A : Type 0} (e : Failure)
      → or_fail {A = A} o.upload.archive_id (err e) claimed_db ≡ (
        err e,
        put_archive o.upload.archive_id
            (set_technical TechnicalStatus.failed (processing o.archive))
            claimed_db,
      )
  unfolding or_fail update_archive content_kept ◌>>=◌
  failing e =
      rw
        (
          find-put_self o.upload.archive_id (processing o.archive) db.archives,
          claimable_has_no_content o.upload.archive_id o.archive db s.claimed,
        )
        refl

  -- An inspection that refuses the ZIP of an upload under way is the answer of `complete`, and leaves
  -- the archive failed, with nothing else changed.
  pub complete-refused :
      (e : Failure)
      → inspect t.paths o.upload.archive_id entries ≡ err e
      → complete t draw user_id upload_id db ≡ (
        err e,
        put_archive o.upload.archive_id
            (set_technical TechnicalStatus.failed (processing o.archive))
            claimed_db,
      )
  unfolding build_claimed ◌>>=◌
  complete-refused e refused = reaches_build ∙ rw (s.opens, refused, failing e) refl

  -- A builder that throws leaves the archive of an upload under way in `processing`, which no claim of
  -- `complete` takes up again.
  pub complete-build_failed :
      (e : Failure) (files : List PublicFile) (staged : List (String × List ℕ))
      → inspect t.paths o.upload.archive_id entries ≡ ok files
      → stage t.paths entries ≡ ok staged
      → t.build (build_input o.upload.archive_id o.archive staged) ≡ err e
      → (complete t draw user_id upload_id db ≡ (err e, claimed_db))
        × (can_claim_build o.upload.archive_id claimed_db (processing o.archive) ≡ false)
  unfolding build_claimed can_claim_build ◌>>=◌ or_fail
  complete-build_failed e files staged inspected stages fails =
      (reaches_build ∙ rw (s.opens, inspected, stages, fails) refl, refl)
