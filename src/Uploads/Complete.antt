-- ===== src/Uploads/Complete.antt =====
-- `complete`: the inspection, the container, the custody of its key, and the archive made ready.
use sol_arch.Prelude.{
  ℕ, String, Bool, not, ◌&&◌, Option, none, some, List, ◌==◌, eqb, length, if◌then◌else◌,
}
use sol_arch.Table.{find}
use sol_arch.Failure.{bad_request, conflict, internal, plain, invalid_request, archive_immutable}
use sol_arch.Db.{
  Archive, Upload, UploadStatus, TechnicalStatus, PublicFile, AckCustodyEnvelope, Db, is_uploading,
}
use sol_arch.Db.Contents.{
  has_payments, claim_archive, update_archive, update_upload, replace_files, write_custody,
}
use sol_arch.Action.{
  Result, ok, err, Action, pure, throw, gets, lift, unless_throw, or_throw, ◌>>=◌, ◌>>◌,
}
use sol_arch.Platform.{Platform, Env}
use sol_arch.Platform.Sealing.{Sealing}
use sol_arch.Crypto.Custody.{seal}
use sol_arch.Uploads.Owned.{
  assert_upload_owner, assert_archive_mutable, is_unfinalized_draft, set_technical,
}
use sol_arch.Uploads.Scan.{Paths, inspect, stage}

-- `BuildArchiveInput`, with the staged files in place of their directory
pub record BuildInput : Type 0 where
  pub archive_id : String
  pub title : String
  pub creator_wallet : String
  pub price_amount : ℕ
  pub platform_fee_bps : ℕ
  pub max_devices : ℕ
  pub allow_export : Bool
  pub watermark_enabled : Bool
  pub source_files : List (String × List ℕ)

-- `BuildArchiveResult`
pub record BuildResult : Type 0 where
  pub output_file_path : String
  pub archive_fingerprint : String
  pub content_key : List ℕ
  pub size_bytes : ℕ

-- What `complete` calls.
pub record Tools : Type 0 where
  pub platform : Platform
  pub sealing : Sealing
  pub env : Env
  pub paths : Paths
  -- `archiveBuilder.build`
  pub build : BuildInput → Result BuildResult

-- The random values of one call: the `iv` and the name of the key.
pub record KeyDraw : Type 0 where
  pub iv : List ℕ
  pub content_key_ref : String

pub record Completion : Type 0 where
  pub upload_id : String
  pub archive_id : String
  pub archive_fingerprint : String
  pub file_count : ℕ
  pub size_bytes : ℕ

-- The policy that the builder is given.
unfoldable pub is_frozen_policy : Archive → Bool
is_frozen_policy a =
    (a.price_currency == "USDC")
    && eqb a.platform_fee_bps 500
    && eqb a.max_devices 1
    && not a.allow_export
    && a.watermark_enabled

-- `!upload.storageKey || !fs.existsSync(upload.storageKey)`
unfoldable pub stored_file : String → Db → Option (List ℕ)
stored_file path db = if path == "" then none else find path db.disk

-- `where` of the claim in `complete`
unfoldable pub can_claim_build : String → Db → Archive → Bool
unfolding is_unfinalized_draft
can_claim_build id db a =
    is_uploading a.technical_status && is_unfinalized_draft (has_payments id db) a

-- A throw that marks the archive as failed first.
unfoldable pub or_fail : {A : Type 0} → String → Result A → Action A
or_fail id (ok a) = pure a
or_fail id (err e) = do update_archive id (set_technical TechnicalStatus.failed); throw e

abbrev pub build_input : String → Archive → List (String × List ℕ) → BuildInput
build_input id a files = record {
  archive_id = id;
  title = a.title;
  creator_wallet = a.creator_payout_wallet;
  price_amount = a.price_amount;
  platform_fee_bps = a.platform_fee_bps;
  max_devices = a.max_devices;
  allow_export = a.allow_export;
  watermark_enabled = a.watermark_enabled;
  source_files = files;
}

-- The archive with its container.
abbrev pub finished : BuildResult → String → Archive → Archive
finished built key_ref a = record a {
  technical_status = TechnicalStatus.ready;
  archive_fingerprint = some built.archive_fingerprint;
  generated_slr_storage_key = some built.output_file_path;
  content_key_ref = some key_ref;
}

abbrev pub completed : Upload → Upload
completed u = record u { status = UploadStatus.completed }

-- `updateMany` and its count
unfoldable pub claim_build : String → Action (Unit {0})
unfolding can_claim_build
claim_build archive_id = do
  claimed ←
      claim_archive archive_id (can_claim_build archive_id)
        (set_technical TechnicalStatus.processing)
  lift (unless_throw (eqb claimed 1) (conflict archive_immutable))

module _ (t : Tools) (draw : KeyDraw) where
  -- From the sealed key on, `complete` only writes.
  unfoldable pub publish_build :
      String → String → List PublicFile → BuildResult → AckCustodyEnvelope → Action Completion
  publish_build upload_id archive_id files built envelope = do
    write_custody archive_id envelope
    replace_files archive_id files
    update_archive archive_id (finished built draw.content_key_ref)
    update_upload upload_id completed
    pure (record {
      upload_id = upload_id;
      archive_id = archive_id;
      archive_fingerprint = built.archive_fingerprint;
      file_count = length files;
      size_bytes = built.size_bytes;
    })

  -- What follows the claim.
  unfoldable pub build_claimed : String → String → Archive → List ℕ → Action Completion
  unfolding or_fail publish_build
  build_claimed upload_id archive_id a content = do
    zip ← or_fail archive_id (or_throw (bad_request plain) (t.paths.open_zip content))
    entries ← lift (or_throw internal zip)
    files ← or_fail archive_id (inspect t.paths archive_id entries)
    staged ← lift (stage t.paths entries)
    built ← lift (t.build (build_input archive_id a staged))
    envelope ← lift (
        seal t.platform t.sealing t.env.ack_kek_secret draw.iv archive_id built.archive_fingerprint
          built.content_key)
    publish_build upload_id archive_id files built envelope

  -- `complete`
  unfoldable pub complete : String → String → Action Completion
  unfolding is_frozen_policy stored_file claim_build build_claimed
  complete user_id upload_id = do
    owned ← assert_upload_owner user_id upload_id
    lift (assert_archive_mutable owned.paid owned.archive)
    file ← gets (stored_file owned.upload.storage_key)
    content ← lift (or_throw (bad_request plain) file)
    lift (unless_throw (is_frozen_policy owned.archive) (bad_request invalid_request))
    claim_build owned.upload.archive_id
    build_claimed upload_id owned.upload.archive_id owned.archive content
