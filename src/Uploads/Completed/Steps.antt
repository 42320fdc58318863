-- ===== src/Uploads/Completed/Steps.antt =====
-- The writes of `complete`, at the rows that they find.
use sol_arch.Prelude.{String, ◌≡◌, refl, Bool, true, false, some, List, ◌++◌, arith, eqb, length}
use sol_arch.Table.{find, put}
use sol_arch.Failure.{conflict, archive_immutable}
use sol_arch.Db.{Archive, Upload, TechnicalStatus, PublicFile, AckCustodyEnvelope, Db}
use sol_arch.Db.Contents.{
  has_content, content_kept, put_archive, claim_archive, claim_row, update_archive, update_upload,
  replace_files, write_custody, without_files,
}
use sol_arch.Action.{ok, lift, unless_throw, ◌>>=◌}
use sol_arch.Uploads.Owned.{set_technical, is_unfinalized_draft}
use sol_arch.Uploads.Complete.{
  Tools, KeyDraw, BuildResult, Completion, can_claim_build, claim_build, finished, completed,
  publish_build,
}

abbrev pub processing : Archive → Archive
processing = set_technical TechnicalStatus.processing

claim_row_ok :
    (id : String) (test : Bool) (a : Archive) (db after : Db)
    → (claim_row id (λ b. test) processing (some a) >>= λ count.
          lift (unless_throw (eqb count 1) (conflict archive_immutable)))
        db
      ≡ (ok tt, after)
    → (test ≡ true) × (after ≡ put_archive id (processing a) db)
unfolding ◌>>=◌
claim_row_ok id true a db after h = (refl, cc h)
claim_row_ok id false a db after h = absurd (cc h)

-- A claim that succeeds has found the archive uploading and without content, and marks it.
pub claim_build_ok :
    (id : String) (a : Archive) (db after : Db)
    → find id db.archives ≡ some a
    → claim_build id db ≡ (ok tt, after)
    → (can_claim_build id db a ≡ true) × (after ≡ put_archive id (processing a) db)
unfolding claim_build claim_archive ◌>>=◌
claim_build_ok id a db after stored h =
    claim_row_ok id (can_claim_build id db a) a db after (rw (stored) at h)

pub claimable_has_no_content :
    (id : String) (a : Archive) (db : Db) → can_claim_build id db a ≡ true → has_content a ≡ false
unfolding can_claim_build is_unfinalized_draft
claimable_has_no_content id a db h = ground arith

-- The database after the writes.
unfoldable pub published :
    String
    → Upload
    → String
    → Archive
    → List PublicFile
    → BuildResult
    → String
    → AckCustodyEnvelope
    → Db
    → Db
published upload_id u id a files built key_ref e db = record db {
  custody = put id (some e) db.custody;
  public_files = without_files id db.public_files ++ files;
  archives = put id (finished built key_ref a) db.archives;
  uploads = put upload_id (completed u) db.uploads;
}

abbrev pub completion : String → String → List PublicFile → BuildResult → Completion
completion upload_id id files built = record {
  upload_id = upload_id;
  archive_id = id;
  archive_fingerprint = built.archive_fingerprint;
  file_count = length files;
  size_bytes = built.size_bytes;
}

pub publish_build_writes :
    (t : Tools) (draw : KeyDraw) (upload_id : String) (u : Upload) (id : String) (a : Archive)
    (files : List PublicFile) (built : BuildResult) (e : AckCustodyEnvelope) (db : Db)
    → find upload_id db.uploads ≡ some u
    → find id db.archives ≡ some a
    → has_content a ≡ false
    → publish_build t draw upload_id id files built e db ≡ (
      ok (completion upload_id id files built),
      published upload_id u id a files built draw.content_key_ref e db,
    )
unfolding publish_build published write_custody replace_files update_archive update_upload
    content_kept ◌>>=◌
publish_build_writes t draw upload_id u id a files built e db upload stored fresh =
    rw (stored, fresh, upload) refl
