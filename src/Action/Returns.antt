-- ===== src/Action/Returns.antt =====
-- What an action that returned has done: the inversion of each way to build one.
use sol_arch.Prelude.{
  ◌≡◌, refl, Bool, true, false, ◌⊎◌, inl, inr, Option, none, some, if◌then◌else◌,
}
use sol_arch.Failure.{Failure}
use sol_arch.Db.{Db}
use sol_arch.Action.{
  Result, ok, err, Action, pure, lift, gets, settle, transaction, throw_if, unless_throw, or_throw,
  ◌>>=◌, ◌&&=◌,
}

module _ {A B : Type 0} where
  bind_ok_at :
      (m : Action A) (f : A → Action B) (db : Db) (r : Result A × Db) {b : B} {db' : Db}
      → m db ≡ r
      → (m >>= f) db ≡ (ok b, db')
      → (a : A) × (db1 : Db) × (m db ≡ (ok a, db1)) × (f a db1 ≡ (ok b, db'))
  unfolding ◌>>=◌
  bind_ok_at m f db (ok a, db1) e h = (a, db1, e, rw (e, ◌>>=◌) at h)
  bind_ok_at m f db (err x, db1) e h = absurd (cc (rw (e, ◌>>=◌) at h))

  pub bind_ok :
      (m : Action A) (f : A → Action B) (db : Db) {b : B} {db' : Db}
      → (m >>= f) db ≡ (ok b, db')
      → (a : A) × (db1 : Db) × (m db ≡ (ok a, db1)) × (f a db1 ≡ (ok b, db'))
  bind_ok m f db h = bind_ok_at m f db (m db) refl h

  pub lift_bind_ok :
      (r : Result A) (f : A → Action B) (db : Db) {b : B} {db' : Db}
      → (lift r >>= f) db ≡ (ok b, db')
      → (a : A) × (r ≡ ok a) × (f a db ≡ (ok b, db'))
  unfolding ◌>>=◌
  lift_bind_ok (ok a) f db h = (a, refl, h)
  lift_bind_ok (err x) f db h = absurd (cc h)

  pub gets_bind_ok :
      (g : Db → A) (f : A → Action B) (db : Db) {b : B} {db' : Db}
      → (gets g >>= f) db ≡ (ok b, db')
      → f (g db) db ≡ (ok b, db')
  unfolding ◌>>=◌
  gets_bind_ok g f db h = h

  -- The other way round: a step that returns hands over to the next.
  pub bind_then :
      (m : Action A) (f : A → Action B) (db : Db) {a : A} {db' : Db}
      → m db ≡ (ok a, db')
      → (m >>= f) db ≡ f a db'
  unfolding ◌>>=◌
  bind_then m f db h = rw (h) refl

  pub gets_then : (g : Db → A) (f : A → Action B) (db : Db) → (gets g >>= f) db ≡ f (g db) db
  unfolding ◌>>=◌
  gets_then g f db = refl

  pub lift_then :
      (r : Result A) (f : A → Action B) (db : Db) {a : A} → r ≡ ok a → (lift r >>= f) db ≡ f a db
  unfolding ◌>>=◌
  lift_then r f db h = rw (h) refl

  pub check_bind_ok :
      (r : Result A) (f : A → Result B) {b : B}
      → (r &&= f) ≡ ok b
      → (a : A) × (r ≡ ok a) × (f a ≡ ok b)
  check_bind_ok (ok a) f h = (a, refl, h)
  check_bind_ok (err x) f h = absurd (cc h)

module _ {A : Type 0} where
  settle_ok :
      (db : Db) (r : Result A × Db) {a : A} {db' : Db} → settle db r ≡ (ok a, db') → r ≡ (ok a, db')
  settle_ok db (ok a, db1) h = h
  settle_ok db (err x, db1) h = absurd (cc h)

  settle_err :
      (db : Db) (r : Result A × Db) {e : Failure} {db' : Db} → settle db r ≡ (err e, db') → db' ≡ db
  settle_err db (ok a, db1) h = absurd (cc h)
  settle_err db (err x, db1) h = cc

  pub transaction_ok :
      (m : Action A) (db : Db) {a : A} {db' : Db}
      → transaction m db ≡ (ok a, db')
      → m db ≡ (ok a, db')
  unfolding transaction
  transaction_ok m db h = settle_ok db (m db) h

  -- A transaction that throws has written nothing.
  pub transaction_err :
      (m : Action A) (db : Db) {e : Failure} {db' : Db} → transaction m db ≡ (err e, db') → db' ≡ db
  unfolding transaction
  transaction_err m db h = settle_err db (m db) h

  pub transaction_then :
      (m : Action A) (db : Db) {a : A} {db' : Db}
      → m db ≡ (ok a, db')
      → transaction m db ≡ (ok a, db')
  unfolding transaction
  transaction_then m db h = rw (h) refl

  pub pure_ok :
      (a : A) (db : Db) {b : A} {db' : Db} → pure a db ≡ (ok b, db') → (b ≡ a) × (db' ≡ db)
  unfolding pure
  pure_ok a db h = (cc, cc)

  -- Either branch of a test.
  pub if_ok :
      (b : Bool) (m n : Action A) (db : Db) {r : Result A × Db}
      → (if b then m else n) db ≡ r
      → ((b ≡ true) × (m db ≡ r)) ⊎ ((b ≡ false) × (n db ≡ r))
  if_ok true m n db h = inl (refl, h)
  if_ok false m n db h = inr (refl, h)

  pub lift_ok :
      (r : Result A) (db : Db) {b : A} {db' : Db}
      → lift r db ≡ (ok b, db')
      → (r ≡ ok b) × (db' ≡ db)
  unfolding lift
  lift_ok r db h = (cc, cc)

  pub or_throw_ok : (e : Failure) (o : Option A) {a : A} → or_throw e o ≡ ok a → o ≡ some a
  or_throw_ok e none h = absurd (cc h)
  or_throw_ok e (some a) h = cc

pub unless_throw_ok : (b : Bool) (e : Failure) {u : Unit {0}} → unless_throw b e ≡ ok u → b ≡ true
unless_throw_ok true e h = refl
unless_throw_ok false e h = absurd (cc h)

pub throw_if_ok : (b : Bool) (e : Failure) {u : Unit {0}} → throw_if b e ≡ ok u → b ≡ false
throw_if_ok true e h = absurd (cc h)
throw_if_ok false e h = refl

pub or_throw_holds :
    {A : Type 0} (e : Failure) (o : Option A) {a : A} → o ≡ some a → or_throw e o ≡ ok a
or_throw_holds e o h = rw (h) refl

pub unless_throw_holds : (b : Bool) (e : Failure) → b ≡ true → unless_throw b e ≡ ok tt
unless_throw_holds b e h = rw (h) refl
