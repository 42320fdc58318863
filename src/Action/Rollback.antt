-- ===== src/Action/Rollback.antt =====
-- Actions that write nothing when they throw.
use sol_arch.Prelude.{◌≡◌, refl, sym, ap, ◌∙◌}
use sol_arch.Failure.{Failure}
use sol_arch.Db.{Db}
use sol_arch.Action.{Result, ok, err, Action, pure, gets, lift, transaction, ◌>>=◌}
use sol_arch.Action.Returns.{transaction_err}

-- `m` writes nothing at all.
pub record Reads {A : Type 0} (m : Action A) : Type 0 where
  pub same : (db : Db) → (m db).1 ≡ db

-- `m` leaves the database as it was, if it throws.
pub record RollsBack {A : Type 0} (m : Action A) : Type 0 where
  pub restored : {e : Failure} {db' : Db} → (db : Db) → m db ≡ (err e, db') → db' ≡ db

module _ {A : Type 0} where
  pub Reads-gets : (f : Db → A) → Reads (gets f)
  unfolding gets
  Reads-gets f = record { same = λ db. refl }

  pub Reads-pure : (a : A) → Reads (pure a)
  unfolding pure
  Reads-pure a = record { same = λ db. refl }

  pub Reads-lift : (r : Result A) → Reads (lift r)
  unfolding lift
  Reads-lift r = record { same = λ db. refl }

  pub Reads-RollsBack : (m : Action A) → Reads m → RollsBack m
  Reads-RollsBack m h = record { restored = λ db e. ap (λ r. r.1) (sym e) ∙ h.same db }

  pub transaction-RollsBack : (m : Action A) → RollsBack (transaction m)
  transaction-RollsBack m = record { restored = λ db e. transaction_err m db e }

module _ {A B : Type 0} (m : Action A) (f : A → Action B) where
  Reads-at :
      (db : Db) (r : Result A × Db)
      → m db ≡ r
      → Reads m
      → ((a : A) → Reads (f a))
      → ((m >>= f) db).1 ≡ db
  unfolding ◌>>=◌
  Reads-at db (ok a, db1) e h k = rw (e) ((k a).same db1 ∙ sym (ap (λ r. r.1) e) ∙ h.same db)
  Reads-at db (err x, db1) e h k = rw (e) (sym (ap (λ r. r.1) e) ∙ h.same db)

  pub Reads-bind : Reads m → ((a : A) → Reads (f a)) → Reads (m >>= f)
  Reads-bind h k = record { same = λ db. Reads-at db (m db) refl h k }

  RollsBack-at :
      (db : Db) (r : Result A × Db) {e : Failure} {db' : Db}
      → m db ≡ r
      → Reads m
      → ((a : A) → RollsBack (f a))
      → (m >>= f) db ≡ (err e, db')
      → db' ≡ db
  unfolding ◌>>=◌
  RollsBack-at db (ok a, db1) e h k done =
      (k a).restored db1 (rw (e) at done) ∙ sym (ap (λ r. r.1) e) ∙ h.same db
  RollsBack-at db (err x, db1) e h k done =
      sym (ap (λ r. r.1) (rw (e) at done)) ∙ sym (ap (λ r. r.1) e) ∙ h.same db

  pub RollsBack-bind : Reads m → ((a : A) → RollsBack (f a)) → RollsBack (m >>= f)
  RollsBack-bind h k = record { restored = λ db done. RollsBack-at db (m db) refl h k done }

pub ruleset rollback_rules =
    (Reads-pure, Reads-gets, Reads-lift, Reads-bind, transaction-RollsBack, RollsBack-bind)
