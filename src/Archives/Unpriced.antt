-- ===== src/Archives/Unpriced.antt =====
-- A price that rounds to zero hundredths is refused after the archive is stored.
use sol_arch.Prelude.{
  ◌*◌, String, ◌≡◌, refl, ap, ◌∙◌, Bool, true, false, ◌||◌, some, [], ◌∷◌, ◌⊎◌, inl, inr, arith,
  eq_iff, eqb, is_some, ◌==◌,
}
use sol_arch.Table.{Table, find, put, first, select}
use sol_arch.Table.Laws.{find-put_self}
use sol_arch.Failure.{bad_request, plain}
use sol_arch.Db.{Archive, Db}
use sol_arch.Action.{Result, ok, err, is_err, Action, ◌>>=◌}
use sol_arch.Action.Returns.{bind_then, lift_then}
use sol_arch.Platform.{Platform, Env}
use sol_arch.Archives.Price.{format_creator_archive, calculate_economics}
use sol_arch.Archives.Manage.{
  CreateArchive, CreateDraw, checked_create, create_listed, new_archive, new_listing, shown, create,
  show_all, list_for_creator, stored_price,
}

-- The action throws, whatever the database.
pub record Throws {A : Type 0} (m : Action A) : Type 0 where
  pub thrown : (db : Db) → is_err (m db).0 ≡ true

module _ {A B : Type 0} where
  first_err_at :
      (m : Action A) (f : A → Action B) (db : Db) (r : Result A × Db)
      → m db ≡ r
      → is_err r.0 ≡ true
      → is_err ((m >>= f) db).0 ≡ true
  unfolding ◌>>=◌
  first_err_at m f db (ok a, after) e h = absurd (cc h)
  first_err_at m f db (err x, after) e h = rw (e) refl

  first-Throws : (m : Action A) (f : A → Action B) → Throws m → Throws (m >>= f)
  first-Throws m f h = record { thrown = λ db. first_err_at m f db (m db) refl (h.thrown db) }

  bind_err_at :
      (m : Action A) (f : A → Action B) (db : Db) (r : Result A × Db)
      → m db ≡ r
      → ((a : A) → Throws (f a))
      → is_err ((m >>= f) db).0 ≡ true
  unfolding ◌>>=◌
  bind_err_at m f db (ok a, after) e h = rw (e) ((h a).thrown after)
  bind_err_at m f db (err x, after) e h = rw (e) refl

  bind-Throws : (m : Action A) (f : A → Action B) → ((a : A) → Throws (f a)) → Throws (m >>= f)
  bind-Throws m f h = record { thrown = λ db. bind_err_at m f db (m db) refl h }

shown_unpriced :
    (id : String) (a : Archive) (ready : Bool) (db : Db)
    → eqb (a.price_amount * 10000) 0 ≡ true
    → shown id a ready db ≡ (err (bad_request plain), db)
unfolding shown format_creator_archive calculate_economics ◌>>=◌
shown_unpriced id a ready db free = rw (free) refl

-- The table holds an archive of the user without a price.
abbrev Unpriced : String → Table Archive → Type 0
Unpriced user [] = ⊥
Unpriced user ((id, a) ∷ t) =
    ((a.creator_user_id ≡ user) × (eqb (a.price_amount * 10000) 0 ≡ true)) ⊎ Unpriced user t

put-Unpriced :
    (user id : String) (a : Archive) (t : Table Archive)
    → a.creator_user_id ≡ user
    → eqb (a.price_amount * 10000) 0 ≡ true
    → Unpriced user (put id a t)
unfolding put
put-Unpriced user id a [] owner free = inl (owner, free)
put-Unpriced user id a ((j, b) ∷ t) owner free =
    ground (arith, put-Unpriced user id a t owner free, owner, free)

select-Unpriced :
    (user : String) (t : Table Archive)
    → Unpriced user t
    → Unpriced user (select (λ a. a.creator_user_id == user) t)
unfolding select
select-Unpriced user [] h = elim h [ ]
select-Unpriced user ((id, a) ∷ t) (inl own) =
    ground (arith, own.0, own.1, eq_iff a.creator_user_id user)
select-Unpriced user ((id, a) ∷ t) (inr later) = ground (arith, select-Unpriced user t later)

show_all-Throws :
    (ready : String → Bool) (user : String) (t : Table Archive)
    → Unpriced user t
    → Throws (show_all ready t)
unfolding show_all
show_all-Throws ready user [] h = elim h [ ]
show_all-Throws ready user ((id, a) ∷ t) (inl own) =
    first-Throws _ _
      (record { thrown = λ db. ap (λ r. is_err r.0) (shown_unpriced id a (ready id) db own.1) })
show_all-Throws ready user ((id, a) ∷ t) (inr later) =
    bind-Throws _ _ (λ one. first-Throws _ _ (show_all-Throws ready user t later))

listing_throws :
    (ready : String → Bool) (user : String) (db : Db)
    → Unpriced user db.archives
    → is_err (list_for_creator ready user db).0 ≡ true
unfolding list_for_creator ◌>>=◌
listing_throws ready user db h =
    (show_all-Throws ready user (select (λ a. a.creator_user_id == user) db.archives)
        (select-Unpriced user db.archives h)).thrown
      db

module _ (p : Platform) (env : Env) (draw : CreateDraw) (user : String) (dto : CreateArchive)
    (db : Db) where
  -- The id and the slug are free.
  abbrev pub is_taken : Bool
  is_taken =
      is_some (find draw.archive_id db.archives)
      || is_some (find draw.archive_id db.listings)
      || is_some (first (λ m. m.slug == draw.slug) db.listings)

  abbrev pub with_new : Db
  with_new = record db {
    archives = put draw.archive_id (new_archive p env user dto) db.archives;
    listings = put draw.archive_id (new_listing draw dto) db.listings;
  }

  stored_new :
      is_taken ≡ false
      → create_listed draw.archive_id (new_archive p env user dto) (new_listing draw dto) db
        ≡ (ok tt, with_new)
  unfolding create_listed ◌>>=◌
  stored_new free = rw (free) refl

  unpriced_new :
      stored_price dto.price ≡ 0 → eqb ((new_archive p env user dto).price_amount * 10000) 0 ≡ true
  unfolding new_archive
  unpriced_new zero_price = rw (zero_price) refl

  owned_new : (new_archive p env user dto).creator_user_id ≡ user
  unfolding new_archive
  owned_new = refl

  create_run :
      checked_create p dto ≡ ok tt
      → stored_price dto.price ≡ 0
      → is_taken ≡ false
      → create p env draw user dto db ≡ (err (bad_request plain), with_new)
  unfolding create
  create_run checked zero_price free =
      lift_then _ _ db checked
      ∙ bind_then _ _ db (stored_new free)
      ∙ shown_unpriced draw.archive_id (new_archive p env user dto) draw.payout_ready with_new
          (unpriced_new zero_price)

  -- A price that passes the checks and rounds to zero hundredths is an error of `create`, which has
  -- stored the archive all the same; and in the state that it leaves, the list of the creator's archives
  -- throws.
  pub create_unpriced :
      (ready : String → Bool)
      → checked_create p dto ≡ ok tt
      → stored_price dto.price ≡ 0
      → is_taken ≡ false
      → ((create p env draw user dto db).0 ≡ err (bad_request plain))
        × (find draw.archive_id (create p env draw user dto db).1.archives
            ≡ some (new_archive p env user dto))
        × (is_err (list_for_creator ready user (create p env draw user dto db).1).0 ≡ true)
  create_unpriced ready checked zero_price free = rw (create_run checked zero_price free) (
    refl,
    find-put_self draw.archive_id (new_archive p env user dto) db.archives,
    listing_throws ready user with_new (
        put-Unpriced user draw.archive_id (new_archive p env user dto) db.archives owned_new
          (unpriced_new zero_price)),
  )
