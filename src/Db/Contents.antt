-- ===== src/Db/Contents.antt =====
-- The writes of the uploads and archives services: the archive's row, with the trigger
-- "archives_finalized_content_immutable", its listing, its uploads, its file list and its files.
use sol_arch.Prelude.{
  ℕ, String, Bool, true, false, not, ◌&&◌, ◌||◌, Option, none, some, List, [], ◌∷◌, ◌++◌, ◌==◌,
  is_text, is_some, if◌then◌else◌,
}
use sol_arch.Table.{Table, find, put, first}
use sol_arch.Failure.{internal}
use sol_arch.Db.{Archive, Listing, Upload, PublicFile, AckCustodyEnvelope, Db}
use sol_arch.Action.{Result, ok, err, Action, throw, modify}

abbrev pub same_text : Option String → Option String → Bool
same_text none none = true
same_text none (some t) = false
same_text (some s) o = is_text o s

abbrev pub has_content : Archive → Bool
has_content a =
    is_some a.archive_fingerprint
    || is_some a.content_key_ref
    || is_some a.generated_slr_storage_key

abbrev pub same_content : Archive → Archive → Bool
same_content a b =
    same_text a.archive_fingerprint b.archive_fingerprint
    && same_text a.content_key_ref b.content_key_ref
    && same_text a.generated_slr_storage_key b.generated_slr_storage_key

-- TRIGGER "archives_finalized_content_immutable": it lets the update pass
unfoldable pub content_kept : Archive → Archive → Bool
content_kept old new = not (has_content old) || same_content old new

abbrev pub put_archive : String → Archive → Db → Db
put_archive id a db = record db { archives = put id a db.archives }

abbrev pub store_archive : String → Archive → Archive → Action (Unit {0})
store_archive id old new =
    if content_kept old new then modify (put_archive id new) else throw internal

abbrev pub change_archive : String → (Archive → Archive) → Option Archive → Action (Unit {0})
change_archive id change none = throw internal
change_archive id change (some old) = store_archive id old (change old)

-- `archive.update({ where: { id }, data })`
unfoldable pub update_archive : String → (Archive → Archive) → Action (Unit {0})
update_archive id change db = change_archive id change (find id db.archives) db

-- The archive has a payment: `_count.payments > 0`, and not `payments: { none: {} }`.
unfoldable pub has_payments : String → Db → Bool
has_payments id db = is_some (first (λ p. p.archive_id == id) db.payments)

abbrev pub claim_row :
    String → (Archive → Bool) → (Archive → Archive) → Option Archive → Db → Result ℕ × Db
claim_row id test change none db = (ok 0, db)
claim_row id test change (some a) db =
    if test a then (ok 1, put_archive id (change a) db) else (ok 0, db)

-- `archive.updateMany({ where: { id, … }, data })`, for data without content columns; its count
unfoldable pub claim_archive : String → (Db → Archive → Bool) → (Archive → Archive) → Action ℕ
claim_archive id test change db = claim_row id (test db) change (find id db.archives) db

-- `upload.create`
unfoldable pub insert_upload : String → Upload → Action (Unit {0})
insert_upload id u db =
    if is_some (find id db.uploads)
    then throw internal db
    else modify (λ d. record d { uploads = put id u d.uploads }) db

abbrev pub change_upload : String → (Upload → Upload) → Option Upload → Action (Unit {0})
change_upload id change none = throw internal
change_upload id change (some u) =
    modify (λ db. record db { uploads = put id (change u) db.uploads })

-- `upload.update({ where: { id }, data })`
unfoldable pub update_upload : String → (Upload → Upload) → Action (Unit {0})
update_upload id change db = change_upload id change (find id db.uploads) db

-- `archivePublicFile.deleteMany({ where: { archiveId } })`
unfoldable pub without_files : String → List PublicFile → List PublicFile
without_files id [] = []
without_files id (f ∷ fs) =
    let rest = without_files id fs in if f.archive_id == id then rest else f ∷ rest

-- `archivePublicFile.findMany({ where: { archiveId } })`
unfoldable pub files_of : String → List PublicFile → List PublicFile
files_of id [] = []
files_of id (f ∷ fs) = let rest = files_of id fs in if f.archive_id == id then f ∷ rest else rest

-- `deleteMany`, then `createMany`
unfoldable pub replace_files : String → List PublicFile → Action (Unit {0})
replace_files id files =
    modify (λ db. record db { public_files = without_files id db.public_files ++ files })

-- The custody file of an archive written.
unfoldable pub write_custody : String → AckCustodyEnvelope → Action (Unit {0})
write_custody id e = modify (λ db. record db { custody = put id (some e) db.custody })

unfoldable pub without_path {ℓ} : {V : Type ℓ} → String → Table V → Table V
without_path path [] = []
without_path path ((k, v) ∷ t) =
    let rest = without_path path t in if k == path then rest else (k, v) ∷ rest

abbrev pub unlink : {A : Type 0} → String → Result A × Db → Result A × Db
unlink path (ok a, db) = (ok a, db)
unlink path (err e, db) = (err e, record db { disk = without_path path db.disk })

-- A throw of `m` removes the file before it passes on.
unfoldable pub or_unlink : {A : Type 0} → String → Action A → Action A
or_unlink path m db = unlink path (m db)

-- `archiveListing.upsert` and `update`
unfoldable pub put_listing : String → Listing → Action (Unit {0})
put_listing id l = modify (λ db. record db { listings = put id l db.listings })
