-- ===== src/Archives/Agreement.antt =====
-- The two marketplace statuses of an archive, on its row and on its listing, are one, and the terms of
-- a sale never change.
use sol_arch.Prelude.{
  ℕ, String, ◌≡◌, refl, Option, none, some, List, [], ◌∷◌, ◌||◌, ◌==◌, is_some, inl, inr,
  Bool-cases,
}
use sol_arch.Table.{Table, find, put, first}
use sol_arch.Table.Laws.{find-put}
use sol_arch.Db.{Archive, Listing, MarketplaceStatus, Db}
use sol_arch.Action.{◌>>=◌}
use sol_arch.Action.Keeps.{Keeps, keeps_rules, if_leaves}
use sol_arch.Platform.{Platform, Env}
use sol_arch.Archives.Manage.{
  CreateArchive, UpdateArchive, CreateDraw, write_both, update_listed, create_listed, owned_archive,
  shown, new_archive, new_listing, retitled, relisted, marked, relisted_as, published_at_time,
  create, update, publish, unpublish, block_archive,
}
use sol_arch.Archives.Handlers.{Request, handle, run}

-- Both rows or none, with one status.
abbrev pub SameStatus : Option Archive → Option Listing → Type 0
SameStatus none none = Unit
SameStatus none (some l) = ⊥
SameStatus (some a) none = ⊥
SameStatus (some a) (some l) = a.marketplace_status ≡ l.marketplace_status

pub record Listed (db : Db) : Type 0 where
  pub same : (id : String) → SameStatus (find id db.archives) (find id db.listings)

at_key :
    (id j : String) (a : Archive) (l : Listing) (archives : Table Archive)
    (listings : Table Listing)
    → a.marketplace_status ≡ l.marketplace_status
    → SameStatus (find j archives) (find j listings)
    → SameStatus (find j (put id a archives)) (find j (put id l listings))
at_key id j a l archives listings one h = elim (Bool-cases (id == j)) [
  | inl own ↦ rw (find-put id j a archives, find-put id j l listings, own) one
  | inr other ↦ rw (find-put id j a archives, find-put id j l listings, other) h
]

-- A write of both rows that keeps their statuses equal.
pub record Alike (change : Archive → Archive) (relist : Listing → Listing) : Type 0 where
  pub alike :
      (a : Archive) (l : Listing)
      → a.marketplace_status ≡ l.marketplace_status
      → (change a).marketplace_status ≡ (relist l).marketplace_status

write_both-Listed :
    (id : String) (change : Archive → Archive) (relist : Listing → Listing) (db : Db)
    (oa : Option Archive) (ol : Option Listing)
    → Alike change relist
    → SameStatus oa ol
    → Listed db
    → Listed (write_both id oa ol change relist db).1
write_both-Listed id change relist db none ol k s h = h
write_both-Listed id change relist db (some a) none k s h = h
write_both-Listed id change relist db (some a) (some l) k s h = record {
  same = λ j. at_key id j (change a) (relist l) db.archives db.listings (k.alike a l s) (h.same j);
}

Keeps-update_listed :
    (id : String) (change : Archive → Archive) (relist : Listing → Listing)
    → Alike change relist
    → Keeps Listed (update_listed id change relist)
unfolding update_listed
Keeps-update_listed id change relist k = record {
  at = λ db h.
      write_both-Listed id change relist db (find id db.archives) (find id db.listings) k
        (h.same id) h;
}

Keeps-create_listed :
    (id : String) (a : Archive) (l : Listing)
    → a.marketplace_status ≡ l.marketplace_status
    → Keeps Listed (create_listed id a l)
unfolding create_listed ◌>>=◌
Keeps-create_listed id a l one = record {
  at = λ db h.
      if_leaves Listed
        (is_some (find id db.archives)
          || is_some (find id db.listings)
          || is_some (first (λ m. m.slug == l.slug) db.listings))
        _ _ (λ taken. h)
        (λ free. record { same = λ j. at_key id j a l db.archives db.listings one (h.same j) });
}

Keeps-create_new :
    (p : Platform) (env : Env) (draw : CreateDraw) (user : String) (dto : CreateArchive)
    → Keeps Listed
        (create_listed draw.archive_id (new_archive p env user dto) (new_listing draw dto))
unfolding new_archive
Keeps-create_new p env draw user dto = Keeps-create_listed _ _ _ refl

marked-Alike : (s : MarketplaceStatus) → Alike (marked s) (relisted_as s)
marked-Alike s = record { alike = λ a l e. refl }

published-Alike : (now : ℕ) → Alike (marked MarketplaceStatus.published) (published_at_time now)
published-Alike now = record { alike = λ a l e. refl }

retitled-Alike : (dto : UpdateArchive) (b : Archive) → Alike (retitled dto) (relisted dto b)
retitled-Alike dto b = record { alike = λ a l e. e }

Keeps-handle : (p : Platform) (env : Env) (r : Request) → Keeps Listed (handle p env r)
unfolding handle create update publish unpublish block_archive owned_archive shown
Keeps-handle p env (Request.create_archive draw user dto) =
    search (keeps_rules, Keeps-create_new) depth 20
Keeps-handle p env (Request.update_archive id user dto) =
    search (keeps_rules, Keeps-update_listed, retitled-Alike) depth 20
Keeps-handle p env (Request.publish_archive chain skip now id user) =
    search (keeps_rules, Keeps-update_listed, published-Alike) depth 30
Keeps-handle p env (Request.unpublish_archive ready id user) =
    search (keeps_rules, Keeps-update_listed, marked-Alike) depth 30
Keeps-handle p env (Request.block_request ready id) =
    search (keeps_rules, Keeps-update_listed, marked-Alike) depth 30

-- Through any sequence of the requests of the archives service, an archive and its listing exist
-- together and have one marketplace status, if that is so at the start.
pub run-Listed :
    (p : Platform) (env : Env) (rs : List Request) (db : Db) → Listed db → Listed (run p env rs db)
unfolding run
run-Listed p env [] db h = h
run-Listed p env (r ∷ rs) db h =
    run-Listed p env rs (handle p env r db).1 ((Keeps-handle p env r).at db h)
