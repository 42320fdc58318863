-- ===== src/Uploads/Frozen/Writes.antt =====
-- The writes to other archives, and those to no archive.
use sol_arch.Prelude.{
  ℕ, String, ◌≡◌, ◌≢◌, refl, ◌∙◌, Option, none, some, List, [], ◌∷◌, ◌++◌, arith, eq_iff, is_some,
}
use sol_arch.Table.{find}
use sol_arch.Table.Laws.{find-put}
use sol_arch.Db.{Archive, Upload, PublicFile, AckCustodyEnvelope, Db}
use sol_arch.Db.Contents.{
  has_payments, files_of, without_files, update_archive, change_archive, put_archive, content_kept,
  insert_upload, update_upload, change_upload, replace_files, write_custody, or_unlink, unlink,
}
use sol_arch.Action.{Result, ok, err, Action, ◌>>=◌}
use sol_arch.Action.Keeps.{Keeps, if_keeps, if_leaves}
use sol_arch.Uploads.Handlers.{store_file}
use sol_arch.Uploads.Frozen.{SameContent}

-- Every row is of the archive `id`.
abbrev pub AllOf : String → List PublicFile → Type 0
AllOf id [] = Unit
AllOf id (f ∷ fs) = (f.archive_id ≡ id) × AllOf id fs

files_of-AllOf :
    (id other : String) (fs : List PublicFile) → other ≢ id → AllOf other fs → files_of id fs ≡ []
unfolding files_of
files_of-AllOf id other [] ne h = refl
files_of-AllOf id other (f ∷ fs) ne h =
    ground (arith, files_of-AllOf id other fs ne h.1, eq_iff f.archive_id id, h.0)

pub files_of-replaced :
    (id other : String) (fs new : List PublicFile)
    → other ≢ id
    → AllOf other new
    → files_of id (without_files other fs ++ new) ≡ files_of id fs
unfolding files_of without_files
files_of-replaced id other [] new ne h = files_of-AllOf id other new ne h
files_of-replaced id other (f ∷ fs) new ne h = ground (
  arith,
  files_of-replaced id other fs new ne h,
  eq_iff f.archive_id id,
  eq_iff f.archive_id other,
)

module _ (id : String) (start : Db) where
  module _ (other : String) (ne : other ≢ id) where
    pub put_archive-SameContent :
        (a : Archive) (db : Db)
        → SameContent id start db
        → SameContent id start (put_archive other a db)
    unfolding has_payments
    put_archive-SameContent a db h = record {
      row = ground (arith, find-put other id a db.archives, eq_iff other id, h.row);
      paid = h.paid;
      files = h.files;
      key = h.key;
    }

    change_archive-SameContent :
        (change : Archive → Archive) (found : Option Archive) (db : Db)
        → SameContent id start db
        → SameContent id start (change_archive other change found db).1
    unfolding ◌>>=◌
    change_archive-SameContent change none db h = h
    change_archive-SameContent change (some old) db h =
        if_keeps (SameContent id start) (content_kept old (change old)) _ _ db
          (λ kept. put_archive-SameContent (change old) db h) (λ refused. h)

    pub Keeps-update_archive :
        (change : Archive → Archive) → Keeps (SameContent id start) (update_archive other change)
    unfolding update_archive
    Keeps-update_archive change = record {
      at = λ db h. change_archive-SameContent change (find other db.archives) db h;
    }

    pub Keeps-write_custody :
        (e : AckCustodyEnvelope) → Keeps (SameContent id start) (write_custody other e)
    unfolding write_custody ◌>>=◌ has_payments
    Keeps-write_custody e = record {
      at = λ db h. record {
        row = h.row;
        paid = h.paid;
        files = h.files;
        key = ground (arith, find-put other id (some e) db.custody, eq_iff other id, h.key);
      };
    }

    pub Keeps-replace_files :
        (new : List PublicFile)
        → AllOf other new
        → Keeps (SameContent id start) (replace_files other new)
    unfolding replace_files ◌>>=◌ has_payments
    Keeps-replace_files new own = record {
      at = λ db h. record {
        row = h.row;
        paid = h.paid;
        files = files_of-replaced id other db.public_files new ne own ∙ h.files;
        key = h.key;
      };
    }

  pub Keeps-insert_upload :
      (upload : String) (u : Upload) → Keeps (SameContent id start) (insert_upload upload u)
  unfolding insert_upload ◌>>=◌ has_payments
  Keeps-insert_upload upload u = record {
    at = λ db h.
        if_leaves (SameContent id start) (is_some (find upload db.uploads)) _ _ (λ taken. h)
          (λ free. record { row = h.row; paid = h.paid; files = h.files; key = h.key });
  }

  change_upload-SameContent :
      (upload : String) (change : Upload → Upload) (found : Option Upload) (db : Db)
      → SameContent id start db
      → SameContent id start (change_upload upload change found db).1
  unfolding ◌>>=◌ has_payments
  change_upload-SameContent upload change none db h = h
  change_upload-SameContent upload change (some u) db h = record {
    row = h.row;
    paid = h.paid;
    files = h.files;
    key = h.key;
  }

  pub Keeps-update_upload :
      (upload : String) (change : Upload → Upload)
      → Keeps (SameContent id start) (update_upload upload change)
  unfolding update_upload
  Keeps-update_upload upload change = record {
    at = λ db h. change_upload-SameContent upload change (find upload db.uploads) db h;
  }

  pub Keeps-store_file :
      (path : String) (content : List ℕ) → Keeps (SameContent id start) (store_file path content)
  unfolding store_file ◌>>=◌ has_payments
  Keeps-store_file path content = record {
    at = λ db h. record { row = h.row; paid = h.paid; files = h.files; key = h.key };
  }

  module _ {A : Type 0} where
    unlink-SameContent :
        (path : String) (r : Result A × Db)
        → SameContent id start r.1
        → SameContent id start (unlink path r).1
    unfolding has_payments
    unlink-SameContent path (ok a, db) h = h
    unlink-SameContent path (err e, db) h = record {
      row = h.row;
      paid = h.paid;
      files = h.files;
      key = h.key;
    }

    pub Keeps-or_unlink :
        (path : String) (m : Action A)
        → Keeps (SameContent id start) m
        → Keeps (SameContent id start) (or_unlink path m)
    unfolding or_unlink
    Keeps-or_unlink path m k = record { at = λ db h. unlink-SameContent path (m db) (k.at db h) }
