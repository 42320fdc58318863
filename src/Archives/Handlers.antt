-- ===== src/Archives/Handlers.antt =====
-- The writing requests of apps/api/src/modules/archives/archives.controller.ts, one after another.

use sol_arch.Prelude.{ℕ, String, Bool, List, [], ◌∷◌}
use sol_arch.Db.{Db}
use sol_arch.Action.{Action, pure, ◌>>◌}
use sol_arch.Platform.{Platform, Env}
use sol_arch.Archives.Manage.{
  CreateArchive, UpdateArchive, CreateDraw, PayoutChain, create, update, publish, unpublish,
  block_archive,
}

-- A request, by the id of its user.
pub data Request : Type 0 where
  create_archive : CreateDraw → String → CreateArchive → Request
  update_archive : String → String → UpdateArchive → Request
  publish_archive : PayoutChain → Bool → ℕ → String → String → Request
  unpublish_archive : Bool → String → String → Request
  block_request : Bool → String → Request

unfoldable pub handle : Platform → Env → Request → Action (Unit {0})
handle p env (create_archive draw user dto) = create p env draw user dto >> pure tt
handle p env (update_archive id user dto) = update id user dto >> pure tt
handle p env (publish_archive chain skip now id user) = publish chain skip now id user >> pure tt
handle p env (unpublish_archive ready id user) = unpublish ready id user >> pure tt
handle p env (block_request ready id) = block_archive ready id >> pure tt

unfoldable pub run : Platform → Env → List Request → Db → Db
unfolding handle
run p env [] db = db
run p env (r ∷ rs) db = run p env rs (handle p env r db).1
