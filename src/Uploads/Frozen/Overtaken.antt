-- ===== src/Uploads/Frozen/Overtaken.antt =====
-- A `complete` whose archive another one has finished while its own container was being built.
use sol_arch.Prelude.{String, ◌++◌, some, List}
use sol_arch.Table.{put}
use sol_arch.Db.{Archive, PublicFile, AckCustodyEnvelope, Db}
use sol_arch.Db.Contents.{without_files}
use sol_arch.Uploads.Complete.{Tools, KeyDraw, BuildResult}

module _ (t : Tools) (draw : KeyDraw) (upload_id id : String) (a : Archive) (fingerprint : String)
    (files : List PublicFile) (built : BuildResult) (e : AckCustodyEnvelope) (db : Db) where
  abbrev overwritten : Db
  overwritten = record db {
    custody = put id (some e) db.custody;
    public_files = without_files id db.public_files ++ files;
  }
