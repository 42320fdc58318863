-- ===== src/Uploads/Frozen/Building.antt =====
-- `complete` on a finalized archive, and on the others.
use sol_arch.Prelude.{
  ℕ, suc, String, ◌≡◌, ◌≢◌, refl, sym, false, List, [], ◌∷◌, arith, eq_iff, inl, inr, Bool-cases,
  ◌==◌,
}
use mathlib.Core.Path.{subst}
use sol_arch.Db.{Archive, PublicFile, AckCustodyEnvelope, Db}
use sol_arch.Action.{Result, ok, err, ◌>>=◌, ◌>>◌}
use sol_arch.Action.Keeps.{Keeps, keeps_rules, Keeps-bind, bind_keeps_at, Keeps-lift}
use sol_arch.Uploads.Owned.{assert_upload_owner}
use sol_arch.Uploads.Scan.{Paths, ZipEntry, file_row, inspect}
use sol_arch.Uploads.Scanned.{kept, numbered, inspected}
use sol_arch.Uploads.Opened.{or_fail_ok}
use sol_arch.Uploads.Complete.{
  Tools, KeyDraw, BuildResult, or_fail, publish_build, build_claimed, claim_build, complete,
}
use sol_arch.Uploads.Frozen.{SameContent, Finalized}
use sol_arch.Uploads.Frozen.Writes.{
  AllOf, Keeps-update_archive, Keeps-write_custody, Keeps-replace_files, Keeps-update_upload,
}
use sol_arch.Uploads.Frozen.Claims.{claim_build_blocked, Keeps-claim_build}

numbered-AllOf :
    (paths : Paths) (id : String) (es : List ZipEntry) (n : ℕ) → AllOf id (numbered paths id es n)
unfolding numbered file_row
numbered-AllOf paths id [] n = tt
numbered-AllOf paths id (e ∷ es) n = (refl, numbered-AllOf paths id es (suc n))

pub inspect-AllOf :
    (paths : Paths) (id : String) (es : List ZipEntry) (files : List PublicFile)
    → inspect paths id es ≡ ok files
    → AllOf id files
inspect-AllOf paths id es files h =
    subst (AllOf id) (sym (inspected paths id es files h).3)
      (numbered-AllOf paths id (kept paths es) 0)

module _ (id : String) (start : Db) (other : String) (ne : other ≢ id) where
  Keeps-or_fail : {A : Type 0} (r : Result A) → Keeps (SameContent id start) (or_fail other r)
  unfolding or_fail
  Keeps-or_fail (ok a) = search keeps_rules depth 4
  Keeps-or_fail (err e) = search (keeps_rules, Keeps-update_archive id start other ne) depth 8

  module _ (t : Tools) (draw : KeyDraw) (upload_id : String) where
    Keeps-publish_build :
        (files : List PublicFile) (built : BuildResult) (e : AckCustodyEnvelope)
        → AllOf other files
        → Keeps (SameContent id start) (publish_build t draw upload_id other files built e)
    unfolding publish_build
    Keeps-publish_build files built e own =
        search
          (
            keeps_rules,
            Keeps-write_custody id start other ne,
            Keeps-replace_files id start other ne,
            Keeps-update_archive id start other ne,
            Keeps-update_upload id start,
            own,
          )
          depth 20

    Keeps-build_claimed :
        (a : Archive) (content : List ℕ)
        → Keeps (SameContent id start) (build_claimed t draw upload_id other a content)
    unfolding build_claimed
    Keeps-build_claimed a content = Keeps-bind _ _ (Keeps-or_fail _) (λ zip.
        Keeps-bind _ _ (Keeps-lift _) (λ entries. record {
          at = λ db h.
              bind_keeps_at (SameContent id start) (or_fail other (inspect t.paths other entries)) _
                db ((Keeps-or_fail _).at db h)
                (λ files after ran.
                  (Keeps-bind _ _ (Keeps-lift _) (λ staged. Keeps-bind _ _ (Keeps-lift _) (λ built.
                      Keeps-bind _ _ (Keeps-lift _) (λ e. Keeps-publish_build files built e (
                        inspect-AllOf t.paths other entries files
                          (or_fail_ok other _ db after files ran).0))))).at
                    after
                    (subst (SameContent id start) (sym (or_fail_ok other _ db after files ran).1)
                      h));
        }))

pub different : {s t : String} → (s == t) ≡ false → s ≢ t
different {s} {t} e = ground (arith, eq_iff s t, e)

-- The steps from the claim on.
module _ (id : String) (a : Archive) (start : Db) (fixed : Finalized id a start) (t : Tools)
    (draw : KeyDraw) (upload_id : String) where
  claim_then_build_own :
      (b : Archive) (content : List ℕ)
      → Keeps (SameContent id start) (claim_build id >> build_claimed t draw upload_id id b content)
  unfolding ◌>>=◌
  claim_then_build_own b content = record {
    at = λ db h. rw (claim_build_blocked id a start fixed db h) h;
  }

  claim_then_build :
      (other : String) (b : Archive) (content : List ℕ)
      → Keeps
          (SameContent id start)
          (claim_build other >> build_claimed t draw upload_id other b content)
  claim_then_build other b content = elim (Bool-cases (other == id)) [
    | inl e ↦
        subst
          (λ o.
            Keeps (SameContent id start)
              (claim_build o >> build_claimed t draw upload_id o b content))
          (sym ((eq_iff other id).0 e)) (claim_then_build_own b content)
    | inr e ↦
        let ne = different e in
        Keeps-bind _ _ (Keeps-claim_build id a start fixed other ne)
          (λ done. Keeps-build_claimed id start other ne t draw upload_id b content)
  ]

  pub Keeps-complete :
      (user_id : String) → Keeps (SameContent id start) (complete t draw user_id upload_id)
  unfolding complete assert_upload_owner
  Keeps-complete user_id = search (keeps_rules, claim_then_build) depth 40
