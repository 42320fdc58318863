-- ===== src/Archives/Terms.antt =====
-- What a buyer pays for is fixed when the archive is created.
use sol_arch.Prelude.{
  String, ◌≡◌, refl, sym, ap, ◌∙◌, false, Option, none, some, List, [], ◌∷◌, arith, eq_iff, ◌||◌,
  ◌==◌, is_some, inl, inr, Bool-cases,
}
use sol_arch.Table.{Table, find, put, first}
use sol_arch.Table.Laws.{find-put}
use sol_arch.Db.{Archive, Listing, MarketplaceStatus, Db}
use sol_arch.Action.{◌>>=◌}
use sol_arch.Action.Keeps.{Keeps, keeps_rules, if_leaves}
use sol_arch.Platform.{Platform, Env}
use sol_arch.Archives.Manage.{
  UpdateArchive, write_both, update_listed, create_listed, owned_archive, shown, retitled, marked,
  create, update, publish, unpublish, block_archive,
}
use sol_arch.Archives.Handlers.{Request, handle, run}

-- An archive less its texts and its place on the marketplace: the creator, the wallets, the price, the
-- fee, the content, the policy and the technical status.
abbrev pub terms : Archive → Archive
terms a = record a {
  title = "";
  short_description = "";
  description = "";
  marketplace_status = MarketplaceStatus.draft;
}

-- The archive is stored with these terms.
pub record HasTerms (id : String) (t : Archive) (db : Db) : Type 0 where
  pub stored : Archive
  pub found : find id db.archives ≡ some stored
  pub same : terms stored ≡ t

-- A change of an archive that leaves its terms.
pub record KeepsTerms (change : Archive → Archive) : Type 0 where
  pub kept : (a : Archive) → terms (change a) ≡ terms a

some_inj : {A : Type 0} {a b : A} → some a ≡ some b → a ≡ b
some_inj h = cc h

module _ (id : String) (t : Archive) where
  put_other :
      (key : String) (a : Archive) (db : Db) (listings : Table Listing)
      → (key == id) ≡ false
      → HasTerms id t db
      → HasTerms id t (record db { archives = put key a db.archives; listings = listings })
  put_other key a db listings other h = record {
    stored = h.stored;
    found = rw (find-put key id a db.archives, other) h.found;
    same = h.same;
  }

  put_changed :
      (key : String) (a : Archive) (change : Archive → Archive) (db : Db) (listings : Table Listing)
      → find key db.archives ≡ some a
      → KeepsTerms change
      → HasTerms id t db
      → HasTerms id t (record db { archives = put key (change a) db.archives; listings = listings })
  put_changed key a change db listings row k h = elim (Bool-cases (key == id)) [
    | inl own ↦
        let row_id = ap (λ j. find j db.archives) (sym ((eq_iff key id).0 own)) ∙ row in
        record {
          stored = change a;
          found = rw (find-put key id (change a) db.archives, own) refl;
          same = k.kept a ∙ ap terms (some_inj (sym row_id ∙ h.found)) ∙ h.same;
        }
    | inr other ↦ put_other key (change a) db listings other h
  ]

  write_both-HasTerms :
      (key : String) (change : Archive → Archive) (relist : Listing → Listing) (db : Db)
      (oa : Option Archive) (ol : Option Listing)
      → find key db.archives ≡ oa
      → KeepsTerms change
      → HasTerms id t db
      → HasTerms id t (write_both key oa ol change relist db).1
  write_both-HasTerms key change relist db none ol row k h = h
  write_both-HasTerms key change relist db (some a) none row k h = h
  write_both-HasTerms key change relist db (some a) (some l) row k h =
      put_changed key a change db (put key (relist l) db.listings) row k h

  Keeps-update_listed :
      (key : String) (change : Archive → Archive) (relist : Listing → Listing)
      → KeepsTerms change
      → Keeps (HasTerms id t) (update_listed key change relist)
  unfolding update_listed
  Keeps-update_listed key change relist k = record {
    at = λ db h.
        write_both-HasTerms key change relist db (find key db.archives) (find key db.listings) refl
          k h;
  }

  -- A new archive has another id.
  fresh_key :
      (key : String) (db : Db)
      → is_some (find key db.archives) ≡ false
      → HasTerms id t db
      → (key == id) ≡ false
  fresh_key key db free h = elim (Bool-cases (key == id)) [
    | inl own ↦ absurd (cc (rw ((eq_iff key id).0 own, h.found) at free))
    | inr other ↦ other
  ]

  Keeps-create_listed :
      (key : String) (a : Archive) (l : Listing) → Keeps (HasTerms id t) (create_listed key a l)
  unfolding create_listed ◌>>=◌
  Keeps-create_listed key a l = record {
    at = λ db h.
        if_leaves (HasTerms id t)
          (is_some (find key db.archives)
            || is_some (find key db.listings)
            || is_some (first (λ m. m.slug == l.slug) db.listings))
          _ _ (λ taken. h)
          (λ free.
            put_other key a db (put key l db.listings) (fresh_key key db (ground (arith, free)) h)
              h);
  }

  marked-KeepsTerms : (s : MarketplaceStatus) → KeepsTerms (marked s)
  marked-KeepsTerms s = record { kept = λ a. refl }

  retitled-KeepsTerms : (dto : UpdateArchive) → KeepsTerms (retitled dto)
  retitled-KeepsTerms dto = record { kept = λ a. refl }

  Keeps-handle : (p : Platform) (env : Env) (r : Request) → Keeps (HasTerms id t) (handle p env r)
  unfolding handle create update publish unpublish block_archive owned_archive shown
  Keeps-handle p env (Request.create_archive draw user dto) =
      search (keeps_rules, Keeps-create_listed) depth 20
  Keeps-handle p env (Request.update_archive key user dto) =
      search (keeps_rules, Keeps-update_listed, retitled-KeepsTerms) depth 20
  Keeps-handle p env (Request.publish_archive chain skip now key user) =
      search (keeps_rules, Keeps-update_listed, marked-KeepsTerms) depth 30
  Keeps-handle p env (Request.unpublish_archive ready key user) =
      search (keeps_rules, Keeps-update_listed, marked-KeepsTerms) depth 30
  Keeps-handle p env (Request.block_request ready key) =
      search (keeps_rules, Keeps-update_listed, marked-KeepsTerms) depth 30

  -- No sequence of create, update, publish, unpublish and block requests changes the creator, the wallets, the price,
  -- the fee, the content, the policy or the technical status of a stored archive.
  pub run-HasTerms :
      (p : Platform) (env : Env) (rs : List Request) (db : Db)
      → HasTerms id t db
      → HasTerms id t (run p env rs db)
  unfolding run
  run-HasTerms p env [] db h = h
  run-HasTerms p env (r ∷ rs) db h =
      run-HasTerms p env rs (handle p env r db).1 ((Keeps-handle p env r).at db h)
