-- ===== src/Action/Keeps.antt =====
-- Invariants of actions: one rule for each way to build an action.
use sol_arch.Prelude.{◌≡◌, refl, Bool, true, false, if◌then◌else◌}
use sol_arch.Failure.{Failure}
use sol_arch.Db.{Db}
use sol_arch.Action.{
  Result, ok, err, Action, pure, throw, gets, lift, settle, transaction, rescued, rescue, when,
  ◌>>=◌,
}

-- `m` keeps `P`, whether it returns or throws.
pub record Keeps (P : Db → Type 0) {A : Type 0} (m : Action A) : Type 0 where
  pub at : (db : Db) → P db → P (m db).1

settle_keeps :
    {A : Type 0} (P : Db → Type 0) (db : Db) (r : Result A × Db) → P db → P r.1 → P (settle db r).1
settle_keeps P db (ok a, db') h k = k
settle_keeps P db (err e, db') h k = h

rescued_keeps :
    {A : Type 0} (P : Db → Type 0) (a : A) (r : Result A × Db) → P r.1 → P (rescued a r).1
rescued_keeps P a (ok x, db) h = h
rescued_keeps P a (err e, db) h = h

bind_keeps :
    {A B : Type 0} (P : Db → Type 0) (m : Action A) (f : A → Action B) (db : Db) (r : Result A × Db)
    → m db ≡ r
    → P r.1
    → ((a : A) → Keeps P (f a))
    → P ((m >>= f) db).1
unfolding ◌>>=◌
bind_keeps P m f db (ok a, db') e h kf = rw e ((kf a).at db' h)
bind_keeps P m f db (err x, db') e h kf = rw e h

module _ {P : Db → Type 0} {A : Type 0} where
  pub Keeps-pure : (a : A) → Keeps P (pure a)
  unfolding pure
  Keeps-pure a = record { at = λ db h. h }

  pub Keeps-throw : (e : Failure) → Keeps P (throw {A = A} e)
  unfolding throw
  Keeps-throw e = record { at = λ db h. h }

  pub Keeps-gets : (f : Db → A) → Keeps P (gets f)
  unfolding gets
  Keeps-gets f = record { at = λ db h. h }

  pub Keeps-lift : (r : Result A) → Keeps P (lift r)
  unfolding lift
  Keeps-lift r = record { at = λ db h. h }

  pub Keeps-if : (b : Bool) (m n : Action A) → Keeps P m → Keeps P n → Keeps P (if b then m else n)
  Keeps-if true m n km kn = km
  Keeps-if false m n km kn = kn

  pub Keeps-transaction : (m : Action A) → Keeps P m → Keeps P (transaction m)
  unfolding transaction
  Keeps-transaction m km = record { at = λ db h. settle_keeps P db (m db) h (km.at db h) }

  pub Keeps-rescue : (m : Action A) (a : A) → Keeps P m → Keeps P (rescue m a)
  unfolding rescue
  Keeps-rescue m a km = record { at = λ db h. rescued_keeps P a (m db) (km.at db h) }

module _ {P : Db → Type 0} where
  pub Keeps-when : (b : Bool) (m : Action (Unit {0})) → Keeps P m → Keeps P (when b m)
  unfolding when pure
  Keeps-when true m km = km
  Keeps-when false m km = record { at = λ db h. h }

module _ {P : Db → Type 0} {A B : Type 0} where
  pub Keeps-bind :
      (m : Action A) (f : A → Action B) → Keeps P m → ((a : A) → Keeps P (f a)) → Keeps P (m >>= f)
  Keeps-bind m f km kf = record { at = λ db h. bind_keeps P m f db (m db) refl (km.at db h) kf }

module _ {A B : Type 0} (P : Db → Type 0) (m : Action A) (f : A → Action B) (db : Db) where
  bind_keeps_from :
      (r : Result A × Db)
      → m db ≡ r
      → P r.1
      → ((a : A) (after : Db) → m db ≡ (ok a, after) → P (f a after).1)
      → P ((m >>= f) db).1
  unfolding ◌>>=◌
  bind_keeps_from (ok a, after) e h next = rw (e) (next a after e)
  bind_keeps_from (err x, after) e h next = rw (e) h

  -- The second step may use what the first has returned.
  pub bind_keeps_at :
      P (m db).1
      → ((a : A) (after : Db) → m db ≡ (ok a, after) → P (f a after).1)
      → P ((m >>= f) db).1
  bind_keeps_at h next = bind_keeps_from (m db) refl h next

-- Both branches of a test.
pub if_keeps :
    {A : Type 0} (P : Db → Type 0) (b : Bool) (m n : Action A) (db : Db)
    → (b ≡ true → P (m db).1)
    → (b ≡ false → P (n db).1)
    → P ((if b then m else n) db).1
if_keeps P true m n db hm hn = hm refl
if_keeps P false m n db hm hn = hn refl

pub if_leaves :
    {A : Type 0} (P : Db → Type 0) (b : Bool) (x y : Result A × Db)
    → (b ≡ true → P x.1)
    → (b ≡ false → P y.1)
    → P (if b then x else y).1
if_leaves P true x y hx hy = hx refl
if_leaves P false x y hx hy = hy refl

pub ruleset keeps_rules = (
  Keeps-pure, Keeps-throw, Keeps-gets, Keeps-lift, Keeps-if, Keeps-transaction, Keeps-rescue,
  Keeps-when, Keeps-bind,
)
