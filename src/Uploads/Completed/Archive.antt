-- ===== src/Uploads/Completed/Archive.antt =====
-- The archive that `complete` leaves: ready, with a key that can be unsealed and the files of the ZIP.
use sol_arch.Prelude.{
  ℕ, String, ◌≡◌, ◌≤◌, refl, sym, ◌∙◌, ap, true, false, some, List, [], ◌∷◌, ◌++◌, ◌+◌, map, arith,
  eq_iff, length, is_some, truthy,
}
use sol_arch.Table.{find, put}
use sol_arch.Table.Laws.{find-put_self}
use sol_arch.Db.{Archive, Upload, TechnicalStatus, PublicFile, Db}
use sol_arch.Db.Contents.{has_payments, files_of, without_files, put_archive}
use sol_arch.Action.{ok}
use sol_arch.Crypto.Custody.{unseal}
use sol_arch.Crypto.Custody.RoundTrip.{OpensSealed, unseal-seal}
use sol_arch.Uploads.Owned.{is_archive_finalized}
use sol_arch.Uploads.Scan.{ZipEntry, max_files_limit, max_uncompressed_total, stage}
use sol_arch.Uploads.Scanned.{
  all_accepted, kept_bytes, kept, numbered, inspected, staged_are_listed,
}
use sol_arch.Uploads.Complete.{
  Tools, KeyDraw, BuildResult, build_input, Completion, stored_file, complete, finished,
}
use sol_arch.Uploads.Frozen.Writes.{AllOf}
use sol_arch.Uploads.Frozen.Building.{inspect-AllOf}
use sol_arch.Uploads.Completed.Steps.{
  processing, claimable_has_no_content, published, completion, publish_build_writes,
}
use sol_arch.Uploads.Completed.Run.{Run, complete-Run}

files_of-appended :
    (id : String) (fs new : List PublicFile)
    → AllOf id new
    → files_of id (without_files id fs ++ new) ≡ new
unfolding files_of without_files
files_of-appended id [] [] own = refl
files_of-appended id [] (f ∷ new) own =
    ground (arith, files_of-appended id [] new own.1, own.0, eq_iff f.archive_id id)
files_of-appended id (f ∷ fs) new own =
    ground (arith, files_of-appended id fs new own, eq_iff f.archive_id id)

both : {A B : Type 0} {a c : A} {b d : B} → ◌≡◌ {A = A × B} (a, b) (c, d) → (a ≡ c) × (b ≡ d)
both h = (ap (λ p. p.0) h, ap (λ p. p.1) h)

ok_inj : {A : Type 0} {a b : A} → ok a ≡ ok b → a ≡ b
ok_inj h = cc h

module _ (t : Tools) (upload_id : String) (db : Db) where
  -- The entries of the ZIP that the stored file of the upload holds.
  pub record ZipOf (entries : List ZipEntry) : Type 0 where
    pub upload : Upload
    pub content : List ℕ
    pub row : find upload_id db.uploads ≡ some upload
    pub stored : stored_file upload.storage_key db ≡ some content
    pub opens : t.paths.open_zip content ≡ some (some entries)

  -- What the builder has made of the archive `a`: the container of the answer, from the staged files of
  -- the upload's ZIP.
  pub record BuiltOf (r : Completion) (a : Archive) (entries : List ZipEntry)
      (staged : List (String × List ℕ)) (built : BuildResult) : Type 0 where
    pub zip : ZipOf entries
    pub stages : stage t.paths entries ≡ ok staged
    pub builds : t.build (build_input r.archive_id a staged) ≡ ok built
    pub fingerprint : built.archive_fingerprint ≡ r.archive_fingerprint
    pub size : built.size_bytes ≡ r.size_bytes

module _ (t : Tools) (draw : KeyDraw) (user_id upload_id : String) (db after : Db)
    (r : Completion) where
  -- The response and the final state, from the run.
  final :
      (c : Run t draw upload_id user_id db after r)
      → (completion upload_id c.owned.upload.archive_id c.build.files c.build.built ≡ r)
        × (published upload_id c.owned.upload c.owned.upload.archive_id
              (processing c.owned.archive)
              c.build.files
              c.build.built
              draw.content_key_ref
              c.build.envelope
              (put_archive c.owned.upload.archive_id (processing c.owned.archive) db)
            ≡ after)
  final c =
      let id = c.owned.upload.archive_id in
      let a = processing c.owned.archive in
      let ran = both (
        sym (
          publish_build_writes t draw upload_id c.owned.upload id a c.build.files c.build.built
            c.build.envelope (put_archive id a db) c.found.upload (find-put_self id a db.archives)
            (claimable_has_no_content id c.owned.archive db c.claimed))
        ∙ c.build.writes) in
      (ok_inj ran.0, ran.1)

  built_of :
      (c : Run t draw upload_id user_id db after r)
      → BuiltOf t upload_id db
          (completion upload_id c.owned.upload.archive_id c.build.files c.build.built)
          c.owned.archive
          c.build.entries
          c.build.staged
          c.build.built
  built_of c = record {
    zip = record {
      upload = c.owned.upload;
      content = c.content;
      row = c.found.upload;
      stored = c.stored;
      opens = c.build.opens;
    };
    stages = c.build.stages;
    builds = c.build.builds;
    fingerprint = refl;
    size = refl;
  }

  -- Where AES-256-GCM opens what it sealed and the drawn name of the key is not empty, an upload that is completed belonged to the user and to an
  -- archive that was not finalized; the builder made its container from the staged files of the upload's
  -- ZIP; and the archive is ready afterwards, with the fingerprint and the path of that container, and a
  -- custody file that opens to that container's key.
  pub completed_archive :
      (h : OpensSealed t.platform t.sealing)
      → is_some (truthy (some draw.content_key_ref)) ≡ true
      → complete t draw user_id upload_id db ≡ (ok r, after)
      → (a : Archive) × (b : Archive) × (entries : List ZipEntry) × (staged : List
          (String × List ℕ))
        × (built : BuildResult) × BuiltOf t upload_id db r a entries staged built
        × (find r.archive_id db.archives ≡ some a)
        × (a.creator_user_id ≡ user_id)
        × (is_archive_finalized (has_payments r.archive_id db) a ≡ false)
        × (find r.archive_id after.archives ≡ some b)
        × (b.technical_status ≡ TechnicalStatus.ready)
        × (b.archive_fingerprint ≡ some r.archive_fingerprint)
        × (b.generated_slr_storage_key ≡ some built.output_file_path)
        × (unseal t.platform t.sealing t.env.ack_kek_secret after.custody r.archive_id
              r.archive_fingerprint b.content_key_ref
            ≡ ok built.content_key)
  unfolding published
  completed_archive h named run =
      let c = complete-Run t draw upload_id user_id db after r run in
      let id = c.owned.upload.archive_id in
      let a = processing c.owned.archive in
      let b = finished c.build.built draw.content_key_ref a in
      let ends = final c in
      rw (sym ends.0, sym ends.1)
        (
          c.owned.archive,
          b,
          c.build.entries,
          c.build.staged,
          c.build.built,
          built_of c,
          c.found.archive,
          c.found.owner,
          ap (λ p. is_archive_finalized p c.owned.archive) (sym c.found.paid) ∙ c.mutable,
          find-put_self id b (put id a db.archives),
          refl,
          refl,
          refl,
          unseal-seal t.platform t.sealing h t.env.ack_kek_secret id
              c.build.built.archive_fingerprint draw.content_key_ref draw.iv
              c.build.built.content_key c.build.envelope db.custody named c.build.seals,
        )

  -- An upload that is completed has a ZIP of at most 10000 entries, none of them refused, with at most
  -- 512 MiB in the files that are not skipped; the file list of the archive is those files, numbered
  -- from 0, and is not empty; and the builder made the container of the answer from files of the same
  -- paths, in the same order, staged from that ZIP.
  pub completed_files :
      complete t draw user_id upload_id db ≡ (ok r, after)
      → (a : Archive) × (entries : List ZipEntry) × (staged : List (String × List ℕ))
        × (built : BuildResult) × BuiltOf t upload_id db r a entries staged built
        × (find r.archive_id db.archives ≡ some a)
        × (length entries ≤ max_files_limit)
        × (all_accepted t.paths entries ≡ true)
        × (0 + kept_bytes t.paths entries ≤ max_uncompressed_total)
        × (files_of r.archive_id after.public_files
            ≡ numbered t.paths r.archive_id (kept t.paths entries) 0)
        × (1 ≤ r.file_count)
        × (map (λ f. f.0) staged
            ≡ map (λ f. f.display_path) (files_of r.archive_id after.public_files))
  unfolding published
  completed_files run =
      let c = complete-Run t draw upload_id user_id db after r run in
      let id = c.owned.upload.archive_id in
      let facts = inspected t.paths id c.build.entries c.build.files c.build.inspects in
      let own = inspect-AllOf t.paths id c.build.entries c.build.files c.build.inspects in
      let listed = files_of-appended id db.public_files c.build.files own in
      let ends = final c in
      rw (sym ends.0, sym ends.1, listed)
        (
          c.owned.archive,
          c.build.entries,
          c.build.staged,
          c.build.built,
          built_of c,
          c.found.archive,
          facts.0,
          facts.1,
          facts.2,
          facts.3,
          facts.4,
          staged_are_listed t.paths id c.build.entries 0 c.build.staged facts.1 c.build.stages
              ∙ ap (map (λ f. f.display_path)) (sym facts.3),
        )
