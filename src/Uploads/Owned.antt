-- ===== src/Uploads/Owned.antt =====
-- `isArchiveFinalized`, `assertArchiveMutable`, `assertUploadOwner`, `init`, `setUploadedFile` and
-- `cancel`.
use sol_arch.Prelude.{
  ℕ, ◌*◌, String, Bool, not, ◌&&◌, ◌||◌, Option, none, some, ◌==◌, eqb, ltb, truthy, is_some,
  length, if◌then◌else◌,
}
use sol_arch.Table.{find}
use sol_arch.Failure.{bad_request, not_found, conflict, internal, plain, archive_immutable}
use sol_arch.Db.{Archive, Upload, UploadStatus, TechnicalStatus, Db, is_ready, is_draft}
use sol_arch.Db.Contents.{
  has_payments, claim_archive, insert_upload, update_upload, update_archive, files_of, or_unlink,
}
use sol_arch.Action.{
  Result, Action, pure, gets, lift, throw_if, unless_throw, or_throw, ◌>>=◌, ◌>>◌, ◌&&=◌,
}

-- `isArchiveFinalized`, by whether the archive has a payment
unfoldable pub is_archive_finalized : Bool → Archive → Bool
is_archive_finalized paid a =
    is_ready a.technical_status
    || not (is_draft a.marketplace_status)
    || is_some a.archive_fingerprint
    || is_some a.content_key_ref
    || is_some a.generated_slr_storage_key
    || paid

-- `assertArchiveMutable`
unfoldable pub assert_archive_mutable : Bool → Archive → Result (Unit {0})
unfolding is_archive_finalized
assert_archive_mutable paid a = throw_if (is_archive_finalized paid a) (conflict archive_immutable)

-- The columns that both claims ask for, next to the technical status.
unfoldable pub is_unfinalized_draft : Bool → Archive → Bool
is_unfinalized_draft paid a =
    is_draft a.marketplace_status
    && not (is_some a.archive_fingerprint)
    && not (is_some a.content_key_ref)
    && not (is_some a.generated_slr_storage_key)
    && not paid

abbrev pub set_technical : TechnicalStatus → Archive → Archive
set_technical status a = record a { technical_status = status }

-- An upload with its archive.
pub record OwnedUpload : Type 0 where
  pub upload : Upload
  pub archive : Archive
  pub paid : Bool

-- `assertUploadOwner`, whose steps begin the other handlers too
unfoldable pub assert_upload_owner : String → String → Action OwnedUpload
assert_upload_owner user_id upload_id = do
  found ← gets (λ db. find upload_id db.uploads)
  upload ← lift (or_throw (not_found plain) found)
  stored ← gets (λ db. find upload.archive_id db.archives)
  archive ← lift (or_throw internal stored)
  lift (unless_throw (archive.creator_user_id == user_id) (not_found plain))
  paid ← gets (has_payments upload.archive_id)
  pure (record { upload = upload; archive = archive; paid = paid })

pub record InitUpload : Type 0 where
  pub archive_id : String
  pub filename : Option String
  pub file_name : Option String
  pub size_bytes : Option ℕ
  pub file_size : Option ℕ

-- `a ?? b`, and `a || b` on texts through `truthy`
abbrev pub or_else {ℓ} : {A : Type ℓ} → Option A → Option A → Option A
or_else none b = b
or_else (some a) b = some a

abbrev pub max_upload_bytes : ℕ
max_upload_bytes = 512 * 1024 * 1024

-- `!filename || sizeBytes === undefined`, and the size limit
unfoldable pub checked_init : InitUpload → Result (String × ℕ)
checked_init dto =
    or_throw (bad_request plain) (truthy (or_else (truthy dto.filename) dto.file_name)) &&= λ name.
    or_throw (bad_request plain) (or_else dto.size_bytes dto.file_size) &&= λ size.
    throw_if (ltb max_upload_bytes size) (bad_request plain) &&= λ _. Result.ok (name, size)

-- `where` of the claim in `init`
unfoldable pub can_claim_upload : String → Db → Archive → Bool
unfolding is_unfinalized_draft
can_claim_upload id db a =
    not (is_ready a.technical_status) && is_unfinalized_draft (has_payments id db) a

abbrev pub new_upload : String → String → ℕ → Upload
new_upload archive_id name size = record {
  archive_id = archive_id;
  original_filename = name;
  size_bytes = size;
  storage_key = "";
  status = UploadStatus.pending;
}

-- `init`; the answer is the id of the upload, which is drawn at random
unfoldable pub init : String → String → InitUpload → Action String
unfolding assert_archive_mutable checked_init can_claim_upload
init upload_id user_id dto = do
  found ← gets (λ db. find dto.archive_id db.archives)
  archive ← lift (or_throw (not_found plain) found)
  lift (unless_throw (archive.creator_user_id == user_id) (not_found plain))
  paid ← gets (has_payments dto.archive_id)
  lift (assert_archive_mutable paid archive)
  named ← lift (checked_init dto)
  claimed ←
      claim_archive dto.archive_id (can_claim_upload dto.archive_id)
        (set_technical TechnicalStatus.uploading)
  lift (unless_throw (eqb claimed 1) (conflict archive_immutable))
  insert_upload upload_id (new_upload dto.archive_id named.0 named.1)
  pure upload_id

abbrev pub uploaded_to : String → Upload → Upload
uploaded_to path u = record u { storage_key = path; status = UploadStatus.uploaded }

-- What `setUploadedFile` checks before it writes.
unfoldable pub open_for_file : String → String → Action OwnedUpload
unfolding assert_upload_owner assert_archive_mutable
open_for_file user_id upload_id = do
  owned ← assert_upload_owner user_id upload_id
  lift (assert_archive_mutable owned.paid owned.archive)
  pure owned

-- `setUploadedFile`; a refused file is removed
unfoldable pub set_uploaded_file : String → String → String → Action UploadStatus
unfolding open_for_file
set_uploaded_file user_id upload_id path = do
  or_unlink path (open_for_file user_id upload_id)
  update_upload upload_id (uploaded_to path)
  pure UploadStatus.uploaded

abbrev pub cancelled : Upload → Upload
cancelled u = record u { status = UploadStatus.cancelled }

-- `technicalStatus` after a cancellation
abbrev pub reverted : ℕ → TechnicalStatus
reverted file_count = if ltb 0 file_count then TechnicalStatus.ready else TechnicalStatus.draft

abbrev pub revert_archive : String → Action UploadStatus
revert_archive archive_id = do
  count ← gets (λ db. length (files_of archive_id db.public_files))
  update_archive archive_id (set_technical (reverted count))
  pure UploadStatus.cancelled

-- `cancel`
unfoldable pub cancel : String → String → Action UploadStatus
unfolding assert_upload_owner is_archive_finalized
cancel user_id upload_id = do
  owned ← assert_upload_owner user_id upload_id
  update_upload upload_id cancelled
  (if is_archive_finalized owned.paid owned.archive
      then pure UploadStatus.cancelled
      else revert_archive owned.upload.archive_id)
