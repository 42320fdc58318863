-- ===== src/Uploads/Tests.antt =====
-- The uploads theorems at one archive: a ZIP of two documents and a directory.
use sol_arch.Prelude.{
  ℕ, arith, String, ◌≡◌, ◌≤◌, refl, true, false, none, some, List, [], ◌∷◌, ◌+◌, ◌==◌, map, length,
  if◌then◌else◌,
}
use sol_arch.Table.{find, put, first}
use sol_arch.Failure.{bad_request, internal, plain}
use sol_arch.Db.{
  Archive, Upload, UploadStatus, TechnicalStatus, MarketplaceStatus, AckCustodyEnvelope, Db,
}
use sol_arch.Db.Contents.{
  has_payments, put_archive, files_of, claim_archive, write_custody, replace_files, update_archive,
  content_kept, update_upload, without_files,
}
use sol_arch.Action.{ok, err, ◌>>=◌}
use sol_arch.Crypto.Custody.{unseal, seal_key, seal}
use sol_arch.Crypto.Custody.RoundTrip.{unseal-seal}
use sol_arch.Samples.Coder.{coder, coder_opens}
use sol_arch.Samples.{env, archive, sealing, unpaid, zeros32}
use sol_arch.Uploads.Owned.{
  OwnedUpload, is_archive_finalized, set_technical, assert_upload_owner, assert_archive_mutable,
  is_unfinalized_draft,
}
use sol_arch.Uploads.Scan.{
  ZipEntry, Paths, inspect, stage, scan, max_files_limit, max_uncompressed_total,
}
use sol_arch.Uploads.Complete.{
  Tools, KeyDraw, BuildResult, Completion, complete, can_claim_build, build_claimed, claim_build,
  is_frozen_policy, or_fail, publish_build, stored_file,
}
use sol_arch.Uploads.Completed.Steps.{processing}
use sol_arch.Uploads.Completed.Archive.{completed_archive, completed_files, BuiltOf}
use sol_arch.Uploads.Completed.Refused.{Inspecting, complete-refused, complete-build_failed}
use sol_arch.Uploads.Handlers.{Request, run}
use sol_arch.Uploads.Scanned.{all_accepted, kept_bytes, kept, numbered, scan_is_listed, listed}
use sol_arch.Uploads.Frozen.{SameContent}
use sol_arch.Uploads.Frozen.Requests.{run-SameContent}

abbrev entry : String → String → ZipEntry
entry name ext = record {
  entry_name = name;
  is_directory = false;
  size = 3;
  content = some (1 ∷ []);
}

abbrev folder : ZipEntry
folder = record { entry_name = "docs/"; is_directory = true; size = 0; content = none }

abbrev entries : List ZipEntry
entries = folder ∷ entry "a.pdf" ".pdf" ∷ entry "b.PDF" ".PDF" ∷ []

abbrev paths : Paths
paths = record {
  normalize = λ name. name;
  is_absolute = λ name. false;
  extname = λ name. if name == "evil.exe" then ".exe" else ".PDF";
  basename = λ name. name;
  open_zip = λ content. some (some entries);
}

abbrev tools : Tools
tools = record {
  platform = coder;
  sealing = sealing;
  env = env;
  paths = paths;
  build = λ input. ok (record {
    output_file_path = "a2.slr";
    archive_fingerprint = "fingerprint";
    content_key = zeros32;
    size_bytes = 9;
  });
}

abbrev key_draw : KeyDraw
key_draw = record { iv = []; content_key_ref = "ack_custody_1" }

abbrev empty_archive : Archive
empty_archive = record archive {
  technical_status = TechnicalStatus.uploading;
  marketplace_status = MarketplaceStatus.draft;
  content_key_ref = none;
  generated_slr_storage_key = none;
  archive_fingerprint = none;
}

abbrev upload : Upload
upload = record {
  archive_id = "a2";
  original_filename = "docs.zip";
  size_bytes = 9;
  storage_key = "/tmp/docs.zip";
  status = UploadStatus.uploaded;
}

abbrev uploaded : Db
uploaded = record unpaid {
  archives = ("a1", archive) ∷ ("a2", empty_archive) ∷ [];
  uploads = ("u1", upload) ∷ [];
  disk = ("/tmp/docs.zip", []) ∷ [];
}

abbrev answer : Completion
answer = record {
  upload_id = "u1";
  archive_id = "a2";
  archive_fingerprint = "fingerprint";
  file_count = 2;
  size_bytes = 9;
}

completed_here :
    complete tools key_draw "u1" "u1" uploaded
    ≡ (ok answer, (complete tools key_draw "u1" "u1" uploaded).1)
unfolding complete ◌>>=◌ assert_upload_owner find assert_archive_mutable has_payments first
    claim_archive inspect stage seal write_custody replace_files update_archive put content_kept
    update_upload without_files build_claimed can_claim_build claim_build is_frozen_policy or_fail
    publish_build stored_file is_archive_finalized is_unfinalized_draft scan
completed_here = refl

run-SameContent_example : SameContent "a1" uploaded (
    run tools
      (Request.complete_upload key_draw "u1" "u1" ∷ Request.cancel_upload "u1" "u1" ∷ [])
      uploaded)
unfolding find is_archive_finalized
run-SameContent_example =
    run-SameContent tools "a1" archive
      (Request.complete_upload key_draw "u1" "u1" ∷ Request.cancel_upload "u1" "u1" ∷ []) uploaded
      (record { stored = refl; finalized = refl })

scan_is_listed_example : scan paths "a2" entries 0 0 ≡ listed paths "a2" entries 0 0
scan_is_listed_example = scan_is_listed paths "a2" entries 0 0 (omega arith)

completed_archive_example :
    (a : Archive) × (b : Archive) × (es : List ZipEntry) × (staged : List (String × List ℕ))
    × (built : BuildResult) × BuiltOf tools "u1" uploaded answer a es staged built
    × (find "a2" uploaded.archives ≡ some a)
    × (a.creator_user_id ≡ "u1")
    × (is_archive_finalized (has_payments "a2" uploaded) a ≡ false)
    × (find "a2" (complete tools key_draw "u1" "u1" uploaded).1.archives ≡ some b)
    × (b.technical_status ≡ TechnicalStatus.ready)
    × (b.archive_fingerprint ≡ some "fingerprint")
    × (b.generated_slr_storage_key ≡ some built.output_file_path)
    × (unseal coder sealing ""
          (complete tools key_draw "u1" "u1" uploaded).1.custody
          "a2"
          "fingerprint"
          b.content_key_ref
        ≡ ok built.content_key)
completed_archive_example =
    completed_archive tools key_draw "u1" "u1" uploaded _ answer coder_opens refl completed_here

completed_files_example :
    (a : Archive) × (es : List ZipEntry) × (staged : List (String × List ℕ)) × (built : BuildResult)
    × BuiltOf tools "u1" uploaded answer a es staged built
    × (find "a2" uploaded.archives ≡ some a)
    × (length es ≤ max_files_limit)
    × (all_accepted paths es ≡ true)
    × (0 + kept_bytes paths es ≤ max_uncompressed_total)
    × (files_of "a2" (complete tools key_draw "u1" "u1" uploaded).1.public_files
        ≡ numbered paths "a2" (kept paths es) 0)
    × (1 ≤ 2)
    × (map (λ f. f.0) staged
        ≡ map
            (λ f. f.display_path)
            (files_of "a2" (complete tools key_draw "u1" "u1" uploaded).1.public_files))
completed_files_example = completed_files tools key_draw "u1" "u1" uploaded _ answer completed_here

-- A container that is ready after the archive was finished with another one.
abbrev late : BuildResult
late = record {
  output_file_path = "a1.slr";
  archive_fingerprint = "fingerprint";
  content_key = zeros32;
  size_bytes = 9;
}

abbrev late_file : AckCustodyEnvelope
late_file = seal_key coder sealing "" [] "a1" "fingerprint" zeros32

-- A ZIP with an executable, and a builder that throws.
abbrev refused_entries : List ZipEntry
refused_entries = entry "a.pdf" ".pdf" ∷ entry "evil.exe" ".exe" ∷ []

abbrev refusing : Tools
refusing = record tools {
  paths = record paths { open_zip = λ content. some (some refused_entries) };
}

abbrev owned : OwnedUpload
owned = record { upload = upload; archive = empty_archive; paid = false }

inspecting :
    (t : Tools) (es : List ZipEntry)
    → t.paths.open_zip [] ≡ some (some es)
    → Inspecting t "u1" "u1" uploaded owned es
unfolding find has_payments first is_archive_finalized is_frozen_policy can_claim_build
    is_unfinalized_draft stored_file
inspecting t es opens = record {
  content = [];
  found = record { upload = refl; archive = refl; owner = refl; paid = refl };
  mutable = refl;
  stored = refl;
  policy = refl;
  claimed = refl;
  opens = opens;
}

complete-refused_example : complete refusing key_draw "u1" "u1" uploaded ≡ (
  err (bad_request plain),
  put_archive "a2"
      (set_technical TechnicalStatus.failed (processing empty_archive))
      (put_archive "a2" (processing empty_archive) uploaded),
)
unfolding inspect scan
complete-refused_example =
    complete-refused refusing key_draw "u1" "u1" uploaded owned refused_entries
      (inspecting refusing refused_entries refl) (bad_request plain) refl

abbrev broken : Tools
broken = record tools { build = λ input. err internal }

complete-build_failed_example :
    (complete broken key_draw "u1" "u1" uploaded
      ≡ (err internal, put_archive "a2" (processing empty_archive) uploaded))
    × (can_claim_build "a2"
          (put_archive "a2" (processing empty_archive) uploaded)
          (processing empty_archive)
        ≡ false)
unfolding inspect scan stage numbered kept
complete-build_failed_example =
    complete-build_failed broken key_draw "u1" "u1" uploaded owned entries
      (inspecting broken entries refl) internal (numbered paths "a2" (kept paths entries) 0)
      (("a.pdf", 1 ∷ []) ∷ ("b.PDF", 1 ∷ []) ∷ []) refl refl refl

unseal-seal_example :
    unseal coder sealing ""
      (put "a2" (some (seal_key coder sealing "" [] "a2" "fingerprint" zeros32)) [])
      "a2"
      "fingerprint"
      (some "ack_custody_1")
    ≡ ok zeros32
unfolding seal
unseal-seal_example =
    unseal-seal coder sealing coder_opens "" "a2" "fingerprint" "ack_custody_1" [] zeros32
      (seal_key coder sealing "" [] "a2" "fingerprint" zeros32) [] refl refl
