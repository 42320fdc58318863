-- ===== src/Uploads/Completed/Run.antt =====
-- A run of `complete` that returns, step by step.
use sol_arch.Prelude.{ℕ, String, ◌≡◌, ◌∙◌, ap, true, false, some, List}
use mathlib.Core.Path.{subst}
use sol_arch.Failure.{bad_request, conflict, plain, invalid_request, archive_immutable, internal}
use sol_arch.Db.{Archive, PublicFile, AckCustodyEnvelope, Db}
use sol_arch.Db.Contents.{put_archive}
use sol_arch.Action.{ok, or_throw}
use sol_arch.Action.Returns.{
  bind_ok, lift_bind_ok, gets_bind_ok, or_throw_ok, unless_throw_ok, throw_if_ok,
}
use sol_arch.Crypto.Custody.{seal}
use sol_arch.Uploads.Owned.{OwnedUpload, assert_archive_mutable, is_archive_finalized}
use sol_arch.Uploads.Opened.{Found, owned_upload, or_fail_ok}
use sol_arch.Uploads.Scan.{ZipEntry, inspect, stage}
use sol_arch.Uploads.Complete.{
  Tools, KeyDraw, BuildResult, Completion, stored_file, is_frozen_policy, build_input, complete,
  build_claimed, or_fail, publish_build, can_claim_build, claim_build,
}
use sol_arch.Uploads.Completed.Steps.{processing, claim_build_ok}

-- What follows the claim, on the database that the claim left.
pub record BuildRun (t : Tools) (draw : KeyDraw) (upload_id id : String) (a : Archive)
    (content : List ℕ) (db after : Db) (r : Completion) : Type 0 where
  pub entries : List ZipEntry
  pub files : List PublicFile
  pub staged : List (String × List ℕ)
  pub built : BuildResult
  pub envelope : AckCustodyEnvelope
  pub opens : t.paths.open_zip content ≡ some (some entries)
  pub inspects : inspect t.paths id entries ≡ ok files
  pub stages : stage t.paths entries ≡ ok staged
  pub builds : t.build (build_input id a staged) ≡ ok built
  pub seals :
      seal t.platform t.sealing t.env.ack_kek_secret draw.iv id built.archive_fingerprint
        built.content_key
      ≡ ok envelope
  pub writes : publish_build t draw upload_id id files built envelope db ≡ (ok r, after)

module _ (t : Tools) (draw : KeyDraw) (upload_id : String) where
  build_claimed_run :
      (id : String) (a : Archive) (content : List ℕ) (db after : Db) (r : Completion)
      → build_claimed t draw upload_id id a content db ≡ (ok r, after)
      → BuildRun t draw upload_id id a content db after r
  unfolding build_claimed
  build_claimed_run id a content db after r run =
      let s1 =
        bind_ok (or_fail id (or_throw (bad_request plain) (t.paths.open_zip content))) _ db run in
      let zip = or_fail_ok id _ db s1.1 s1.0 s1.2 in
      let s2 = lift_bind_ok (or_throw internal s1.0) _ s1.1 s1.3 in
      let s3 = bind_ok (or_fail id (inspect t.paths id s2.0)) _ s1.1 s2.2 in
      let files = or_fail_ok id _ s1.1 s3.1 s3.0 s3.2 in
      let s4 = lift_bind_ok (stage t.paths s2.0) _ s3.1 s3.3 in
      let s5 = lift_bind_ok (t.build (build_input id a s4.0)) _ s3.1 s4.2 in
      let s6 = lift_bind_ok _ _ s3.1 s5.2 in
      record {
        entries = s2.0;
        files = s3.0;
        staged = s4.0;
        built = s5.0;
        envelope = s6.0;
        opens =
            or_throw_ok (bad_request plain) (t.paths.open_zip content) zip.0
            ∙ ap some (or_throw_ok internal s1.0 s2.1);
        inspects = files.0;
        stages = s4.1;
        builds = s5.1;
        seals = s6.1;
        writes =
            subst (λ d. publish_build t draw upload_id id s3.0 s5.0 s6.0 d ≡ (ok r, after))
              (files.1 ∙ zip.1) s6.2;
      }

  -- The whole of `complete`.
  pub record Run (user_id : String) (db after : Db) (r : Completion) : Type 0 where
    pub owned : OwnedUpload
    pub content : List ℕ
    pub found : Found user_id upload_id db owned
    pub mutable : is_archive_finalized owned.paid owned.archive ≡ false
    pub stored : stored_file owned.upload.storage_key db ≡ some content
    pub policy : is_frozen_policy owned.archive ≡ true
    pub claimed : can_claim_build owned.upload.archive_id db owned.archive ≡ true
    pub build :
        BuildRun t draw upload_id owned.upload.archive_id owned.archive content
          (put_archive owned.upload.archive_id (processing owned.archive) db)
          after
          r

  pub complete-Run :
      (user_id : String) (db after : Db) (r : Completion)
      → complete t draw user_id upload_id db ≡ (ok r, after)
      → Run user_id db after r
  unfolding complete assert_archive_mutable
  complete-Run user_id db after r run =
      let s1 = bind_ok _ _ db run in
      let found = owned_upload user_id upload_id db s1.1 s1.0 s1.2 in
      let o = s1.0 in
      let s2 = lift_bind_ok (assert_archive_mutable o.paid o.archive) _ s1.1 s1.3 in
      let s3 =
        lift_bind_ok _ _ s1.1 (gets_bind_ok (stored_file o.upload.storage_key) _ s1.1 s2.2) in
      let s4 = lift_bind_ok _ _ s1.1 s3.2 in
      let s5 = bind_ok _ _ s1.1 s4.2 in
      let claim =
        claim_build_ok o.upload.archive_id o.archive db s5.1 found.0.archive
          (subst (λ d. claim_build o.upload.archive_id d ≡ (ok tt, s5.1)) found.1 s5.2) in
      record {
        owned = o;
        content = s3.0;
        found = found.0;
        mutable =
            throw_if_ok (is_archive_finalized o.paid o.archive) (conflict archive_immutable) s2.1;
        stored =
            subst (λ d. stored_file o.upload.storage_key d ≡ some s3.0) found.1
              (or_throw_ok (bad_request plain) _ s3.1);
        policy = unless_throw_ok (is_frozen_policy o.archive) (bad_request invalid_request) s4.1;
        claimed = claim.0;
        build = build_claimed_run o.upload.archive_id o.archive s3.0 _ after r (
            subst
              (λ d.
                build_claimed t draw upload_id o.upload.archive_id o.archive s3.0 d ≡ (ok r, after))
              claim.1 s5.3);
      }
