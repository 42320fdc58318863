-- ===== src/Uploads/Frozen/Requests.antt =====
-- Every request, and any sequence of them.
use sol_arch.Prelude.{
  String, ◌≡◌, sym, ◌∙◌, ap, true, some, List, [], ◌∷◌, eq_iff, inl, inr, Bool-cases, ◌==◌,
  if◌then◌else◌,
}
use mathlib.Core.Path.{subst}
use sol_arch.Table.{find}
use sol_arch.Db.{Archive, UploadStatus, Db}
use sol_arch.Db.Contents.{update_upload, has_payments}
use sol_arch.Action.{Action, pure, ◌>>◌}
use sol_arch.Action.Keeps.{Keeps, keeps_rules, bind_keeps_at}
use sol_arch.Uploads.Owned.{
  InitUpload, OwnedUpload, assert_upload_owner, init, open_for_file, set_uploaded_file, cancel,
  cancelled, revert_archive, is_archive_finalized,
}
use sol_arch.Uploads.Opened.{Found, owned_upload}
use sol_arch.Uploads.Complete.{Tools}
use sol_arch.Uploads.Handlers.{Request, upload_data, upload_file, handle, run}
use sol_arch.Uploads.Frozen.{SameContent, Finalized, SameContent-refl}
use sol_arch.Uploads.Frozen.Writes.{
  Keeps-update_archive, Keeps-insert_upload, Keeps-update_upload, Keeps-store_file, Keeps-or_unlink,
}
use sol_arch.Uploads.Frozen.Claims.{Keeps-claim_upload, finalized_now}
use sol_arch.Uploads.Frozen.Building.{Keeps-complete, different}

some_inj : {A : Type 0} {a b : A} → some a ≡ some b → a ≡ b
some_inj h = cc h

module _ (id : String) (a : Archive) (start : Db) (fixed : Finalized id a start) where
  Keeps-assert_upload_owner :
      (user_id upload_id : String)
      → Keeps (SameContent id start) (assert_upload_owner user_id upload_id)
  unfolding assert_upload_owner
  Keeps-assert_upload_owner user_id upload_id = search keeps_rules depth 20

  Keeps-init :
      (upload_id user_id : String) (dto : InitUpload)
      → Keeps (SameContent id start) (init upload_id user_id dto)
  unfolding init
  Keeps-init upload_id user_id dto =
      search (keeps_rules, Keeps-claim_upload id a start fixed, Keeps-insert_upload id start) depth
        40

  Keeps-set_uploaded_file :
      (user_id upload_id path : String)
      → Keeps (SameContent id start) (set_uploaded_file user_id upload_id path)
  unfolding set_uploaded_file open_for_file
  Keeps-set_uploaded_file user_id upload_id path =
      search
        (
          keeps_rules,
          Keeps-assert_upload_owner,
          Keeps-or_unlink id start,
          Keeps-update_upload id start,
        )
        depth 20

  -- The tail of `cancel`.
  cancelled_then : OwnedUpload → String → Action UploadStatus
  cancelled_then o upload_id =
      update_upload upload_id cancelled
      >> (if is_archive_finalized o.paid o.archive
          then pure UploadStatus.cancelled
          else revert_archive o.upload.archive_id)

  cancelled_own :
      (db : Db) (o : OwnedUpload) (user_id upload_id : String)
      → SameContent id start db
      → Found user_id upload_id db o
      → o.upload.archive_id ≡ id
      → is_archive_finalized o.paid o.archive ≡ true
  cancelled_own db o user_id upload_id same found own =
      let stored = subst (λ i. find i db.archives ≡ some o.archive) own found.archive in
      let row = some_inj (sym stored ∙ same.row ∙ fixed.stored) in
      let paid = found.paid ∙ ap (λ i. has_payments i db) own in
      rw (row, paid) (finalized_now id a start fixed db same)

  Keeps-cancelled_then :
      (db : Db) (o : OwnedUpload) (user_id upload_id : String)
      → SameContent id start db
      → Found user_id upload_id db o
      → Keeps (SameContent id start) (cancelled_then o upload_id)
  unfolding cancelled_then
  Keeps-cancelled_then db o user_id upload_id same found =
      elim (Bool-cases (o.upload.archive_id == id)) [
        | inl e ↦
            rw (cancelled_own db o user_id upload_id same found ((eq_iff _ _).0 e))
              (search (keeps_rules, Keeps-update_upload id start) depth 8)
        | inr e ↦
            search
              (
                keeps_rules,
                Keeps-update_upload id start,
                Keeps-update_archive id start o.upload.archive_id (different e),
              )
              depth 12
      ]

  Keeps-cancel :
      (user_id upload_id : String) → Keeps (SameContent id start) (cancel user_id upload_id)
  unfolding cancel cancelled_then
  Keeps-cancel user_id upload_id = record {
    at = λ db h.
        bind_keeps_at (SameContent id start) (assert_upload_owner user_id upload_id) _ db
          ((Keeps-assert_upload_owner user_id upload_id).at db h)
          (λ o after ran.
            let found = owned_upload user_id upload_id db after o ran in
            (Keeps-cancelled_then db o user_id upload_id h found.0).at after
              (subst (SameContent id start) (sym found.1) h));
  }

  Keeps-handle : (t : Tools) (r : Request) → Keeps (SameContent id start) (handle t r)
  unfolding handle upload_data upload_file
  Keeps-handle t (Request.init_upload upload_id user dto) = search (keeps_rules, Keeps-init) depth 6
  Keeps-handle t (Request.send_body user upload_id path content) =
      search
        (keeps_rules, Keeps-assert_upload_owner, Keeps-store_file id start, Keeps-set_uploaded_file)
        depth 10
  Keeps-handle t (Request.send_file user upload_id path content) =
      search (keeps_rules, Keeps-store_file id start, Keeps-set_uploaded_file) depth 10
  Keeps-handle t (Request.complete_upload draw user upload_id) =
      search (keeps_rules, Keeps-complete id a start fixed t draw upload_id) depth 6
  Keeps-handle t (Request.cancel_upload user upload_id) = search (keeps_rules, Keeps-cancel) depth 6

  run_from :
      (t : Tools) (requests : List Request) (db : Db)
      → SameContent id start db
      → SameContent id start (run t requests db)
  unfolding run
  run_from t [] db same = same
  run_from t (r ∷ rs) db same = run_from t rs (handle t r db).1 ((Keeps-handle t r).at db same)

-- An archive that is ready, listed, paid or has content, keeps its row, its payments, its file list
-- and its custody file through any sequence of the requests of the uploads service that run one after
-- another, each to its end, by whichever users, on whichever uploads, and whether they return or throw.
pub run-SameContent :
    (t : Tools) (id : String) (a : Archive) (requests : List Request) (db : Db)
    → Finalized id a db
    → SameContent id db (run t requests db)
run-SameContent t id a requests db fixed =
    run_from id a db fixed t requests db (SameContent-refl id db)
