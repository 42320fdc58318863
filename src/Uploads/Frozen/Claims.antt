-- ===== src/Uploads/Frozen/Claims.antt =====
-- The two claims of `updateMany` pass over a finalized archive.
use sol_arch.Prelude.{
  String, ◌≡◌, ◌≢◌, refl, sym, ◌∙◌, ap, Bool, true, false, ◌&&◌, Option, none, some, arith, eq_iff,
  inl, inr, Bool-cases, ◌==◌,
}
use mathlib.Core.Path.{subst}
use sol_arch.Table.{find}
use sol_arch.Db.{Archive, TechnicalStatus, Db, is_ready, is_uploading}
use sol_arch.Db.Contents.{has_payments, claim_archive, claim_row}
use sol_arch.Failure.{conflict, archive_immutable}
use sol_arch.Action.{ok, err, ◌>>=◌}
use sol_arch.Action.Keeps.{Keeps, if_leaves, Keeps-bind, Keeps-lift}
use sol_arch.Uploads.Owned.{
  is_archive_finalized, is_unfinalized_draft, can_claim_upload, set_technical,
}
use sol_arch.Uploads.Complete.{can_claim_build, claim_build}
use sol_arch.Uploads.Frozen.{SameContent, Finalized}
use sol_arch.Uploads.Frozen.Writes.{put_archive-SameContent}

uploading_or_ready : (s : TechnicalStatus) → (is_uploading s && is_ready s) ≡ false
uploading_or_ready TechnicalStatus.draft = refl
uploading_or_ready TechnicalStatus.uploading = refl
uploading_or_ready TechnicalStatus.processing = refl
uploading_or_ready TechnicalStatus.ready = refl
uploading_or_ready TechnicalStatus.failed = refl

module _ (id : String) (a : Archive) (start : Db) (fixed : Finalized id a start) where
  module _ (db : Db) (same : SameContent id start db) where
    pub finalized_now : is_archive_finalized (has_payments id db) a ≡ true
    finalized_now = ap (λ b. is_archive_finalized b a) same.paid ∙ fixed.finalized

    pub not_claimed_upload : can_claim_upload id db a ≡ false
    unfolding can_claim_upload is_unfinalized_draft is_archive_finalized
    not_claimed_upload = ground (arith, finalized_now)

    pub not_claimed_build : can_claim_build id db a ≡ false
    unfolding can_claim_build is_unfinalized_draft is_archive_finalized
    not_claimed_build = ground (arith, finalized_now, uploading_or_ready a.technical_status)

  -- A claim whose condition the archive does not meet.
  claim_row_same :
      (test : Archive → Bool) (change : Archive → Archive) (db : Db)
      → test a ≡ false
      → claim_row id test change (some a) db ≡ (ok 0, db)
  claim_row_same test change db refused = rw (refused) refl

  pub claim_missed :
      (test : Db → Archive → Bool) (change : Archive → Archive) (db : Db)
      → SameContent id start db
      → test db a ≡ false
      → claim_archive id test change db ≡ (ok 0, db)
  unfolding claim_archive
  claim_missed test change db same refused =
      rw (same.row ∙ fixed.stored) (claim_row_same (test db) change db refused)

  claim_row-SameContent :
      (other : String) (ne : other ≢ id) (test : Archive → Bool) (change : Archive → Archive)
      (found : Option Archive) (db : Db)
      → SameContent id start db
      → SameContent id start (claim_row other test change found db).1
  claim_row-SameContent other ne test change none db same = same
  claim_row-SameContent other ne test change (some b) db same =
      if_leaves (SameContent id start) (test b) _ _
        (λ held. put_archive-SameContent id start other ne (change b) db same) (λ failed. same)

  pub Keeps-claim_other :
      (other : String) (ne : other ≢ id) (test : Db → Archive → Bool) (change : Archive → Archive)
      → Keeps (SameContent id start) (claim_archive other test change)
  unfolding claim_archive
  Keeps-claim_other other ne test change = record {
    at =
        λ db same. claim_row-SameContent other ne (test db) change (find other db.archives) db same;
  }

  Keeps-claim_own :
      (change : Archive → Archive)
      → Keeps (SameContent id start) (claim_archive id (can_claim_upload id) change)
  Keeps-claim_own change = record {
    at = λ db same.
        rw (claim_missed (can_claim_upload id) change db same (not_claimed_upload db same)) same;
  }

  -- The claim of `init`, on whichever archive.
  pub Keeps-claim_upload :
      (other : String) (change : Archive → Archive)
      → Keeps (SameContent id start) (claim_archive other (can_claim_upload other) change)
  Keeps-claim_upload other change = elim (Bool-cases (other == id)) [
    | inl e ↦
        subst (λ o. Keeps (SameContent id start) (claim_archive o (can_claim_upload o) change))
          (sym ((eq_iff other id).0 e)) (Keeps-claim_own change)
    | inr e ↦ Keeps-claim_other other (ground (arith, eq_iff other id, e)) _ change
  ]

  -- The claim of `complete` throws on the archive, before anything else is written.
  pub claim_build_blocked :
      (db : Db)
      → SameContent id start db
      → claim_build id db ≡ (err (conflict archive_immutable), db)
  unfolding claim_build ◌>>=◌
  claim_build_blocked db same =
      rw
        (claim_missed (can_claim_build id) (set_technical TechnicalStatus.processing) db same
          (not_claimed_build db same))
        refl

  pub Keeps-claim_build :
      (other : String) → other ≢ id → Keeps (SameContent id start) (claim_build other)
  unfolding claim_build
  Keeps-claim_build other ne =
      Keeps-bind _ _ (Keeps-claim_other other ne _ _) (λ count. Keeps-lift _)
