-- ===== src/Uploads/Handlers.antt =====
-- The requests of apps/api/src/modules/uploads/uploads.controller.ts, each to its end before the next
-- begins: what another request does between two awaits of one of them is not represented here.
use sol_arch.Prelude.{ℕ, String, List, [], ◌∷◌}
use sol_arch.Table.{put}
use sol_arch.Db.{UploadStatus, Db}
use sol_arch.Action.{Action, pure, modify, ◌>>◌}
use sol_arch.Uploads.Owned.{InitUpload, assert_upload_owner, init, set_uploaded_file, cancel}
use sol_arch.Uploads.Complete.{Tools, KeyDraw, complete}

-- A file written below the uploads directory.
unfoldable pub store_file : String → List ℕ → Action (Unit {0})
store_file path content = modify (λ db. record db { disk = put path content db.disk })

-- `uploadData`: the owner is checked before the body is written
unfoldable pub upload_data : String → String → String → List ℕ → Action UploadStatus
unfolding store_file
upload_data user_id upload_id path content = do
  assert_upload_owner user_id upload_id
  store_file path content
  set_uploaded_file user_id upload_id path

-- `uploadFile`: the interceptor has written the file before the service is called
unfoldable pub upload_file : String → String → String → List ℕ → Action UploadStatus
unfolding store_file
upload_file user_id upload_id path content = do
  store_file path content
  set_uploaded_file user_id upload_id path

-- A request, by the id of its user.
pub data Request : Type 0 where
  init_upload : String → String → InitUpload → Request
  send_body : String → String → String → List ℕ → Request
  send_file : String → String → String → List ℕ → Request
  complete_upload : KeyDraw → String → String → Request
  cancel_upload : String → String → Request

-- One whole request.
unfoldable pub handle : Tools → Request → Action (Unit {0})
handle t (init_upload upload_id user dto) = init upload_id user dto >> pure tt
handle t (send_body user upload_id path content) =
    upload_data user upload_id path content >> pure tt
handle t (send_file user upload_id path content) =
    upload_file user upload_id path content >> pure tt
handle t (complete_upload draw user upload_id) = complete t draw user upload_id >> pure tt
handle t (cancel_upload user upload_id) = cancel user upload_id >> pure tt

-- The database after the requests, whether they return or throw.
unfoldable pub run : Tools → List Request → Db → Db
unfolding handle
run t [] db = db
run t (r ∷ rs) db = run t rs (handle t r db).1
