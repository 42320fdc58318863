-- ===== src/Uploads/Frozen.antt =====
-- A finalized archive keeps its row, its file list and its custody file through every request of the
-- uploads service.
pub mod Writes
pub mod Claims
pub mod Building
pub mod Requests
pub mod Overtaken
use sol_arch.Prelude.{String, ◌≡◌, refl, true, some}
use sol_arch.Table.{find}
use sol_arch.Db.{Archive, Db}
use sol_arch.Db.Contents.{has_payments, files_of}
use sol_arch.Uploads.Owned.{is_archive_finalized}

-- What a buyer of the archive relies on is the same in both states.
pub record SameContent (id : String) (before after : Db) : Type 0 where
  pub row : find id after.archives ≡ find id before.archives
  pub paid : has_payments id after ≡ has_payments id before
  pub files : files_of id after.public_files ≡ files_of id before.public_files
  pub key : find id after.custody ≡ find id before.custody

pub record Finalized (id : String) (a : Archive) (db : Db) : Type 0 where
  pub stored : find id db.archives ≡ some a
  pub finalized : is_archive_finalized (has_payments id db) a ≡ true

pub SameContent-refl : (id : String) (db : Db) → SameContent id db db
SameContent-refl id db = record { row = refl; paid = refl; files = refl; key = refl }
