-- ===== src/Uploads/Opened.antt =====
-- What the common steps of the handlers have found when they return.
use sol_arch.Prelude.{String, ◌≡◌, refl, sym, ap, some, eq_iff, ◌==◌}
use sol_arch.Table.{find}
use sol_arch.Failure.{Failure, not_found, plain}
use sol_arch.Db.{Db}
use sol_arch.Db.Contents.{has_payments}
use sol_arch.Action.{Result, ok, err, throw}
use sol_arch.Action.Returns.{
  bind_ok, lift_bind_ok, gets_bind_ok, pure_ok, or_throw_ok, unless_throw_ok,
}
use sol_arch.Action.Rollback.{Reads, rollback_rules}
use sol_arch.Uploads.Owned.{OwnedUpload, assert_upload_owner}
use sol_arch.Uploads.Complete.{or_fail}

-- The upload, its archive and whether that is paid for, as they are stored.
pub record Found (user_id upload_id : String) (db : Db) (o : OwnedUpload) : Type 0 where
  pub upload : find upload_id db.uploads ≡ some o.upload
  pub archive : find o.upload.archive_id db.archives ≡ some o.archive
  pub owner : o.archive.creator_user_id ≡ user_id
  pub paid : o.paid ≡ has_payments o.upload.archive_id db

pub owned_upload :
    (user_id upload_id : String) (db after : Db) (o : OwnedUpload)
    → assert_upload_owner user_id upload_id db ≡ (ok o, after)
    → Found user_id upload_id db o × (after ≡ db)
unfolding assert_upload_owner
owned_upload user_id upload_id db after o run =
    let s1 = lift_bind_ok _ _ db (gets_bind_ok _ _ db run) in
    let s2 = lift_bind_ok _ _ db (gets_bind_ok _ _ db s1.2) in
    let s3 = lift_bind_ok _ _ db s2.2 in
    let s4 = pure_ok _ db (gets_bind_ok _ _ db s3.2) in
    let owner = unless_throw_ok (s2.0.creator_user_id == user_id) (not_found plain) s3.1 in
    (
      rw (s4.0) (record {
        upload = or_throw_ok _ _ s1.1;
        archive = or_throw_ok _ _ s2.1;
        owner = (eq_iff s2.0.creator_user_id user_id).0 owner;
        paid = refl;
      }),
      s4.1,
    )

pub Reads-assert_upload_owner :
    (user_id upload_id : String) → Reads (assert_upload_owner user_id upload_id)
unfolding assert_upload_owner
Reads-assert_upload_owner user_id upload_id = search rollback_rules depth 20

thrown :
    {A B : Type 0} {P : A → Db → Type 0} (e : Failure) {b : B} {after : Db}
    → ((a : A) × (db : Db) × P a db × (throw {A = B} e db ≡ (ok b, after)))
    → ⊥
unfolding throw
thrown e h = cc (h.3)

pub or_fail_ok :
    {A : Type 0} (id : String) (r : Result A) (db after : Db) (a : A)
    → or_fail id r db ≡ (ok a, after)
    → (r ≡ ok a) × (after ≡ db)
unfolding or_fail
or_fail_ok id (ok b) db after a h =
    let returned = pure_ok b db h in (ap Result.ok (sym returned.0), returned.1)
or_fail_ok id (err e) db after a h = absurd (thrown e (bind_ok _ (λ _. throw e) db h))
