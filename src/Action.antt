-- ===== src/Action.antt =====
-- A handler of the API: it reads and writes the database and may throw. What was written before a
-- throw stays written, except in a transaction, which Prisma rolls back.
pub mod Keeps
pub mod Returns
pub mod Rollback
use sol_arch.Prelude.{Bool, true, false, Option, none, some, if◌then◌else◌}
use sol_arch.Failure.{Failure}
use sol_arch.Db.{Db}

pub data Result {ℓ} (A : Type ℓ) : Type ℓ where
  ok : A → Result A
  err : Failure → Result A

abbrev pub is_err {ℓ} : {A : Type ℓ} → Result A → Bool
is_err (ok a) = false
is_err (err e) = true

abbrev pub Action : Type 0 → Type 0
Action A = Db → Result A × Db

module _ {A : Type 0} where
  unfoldable pub pure : A → Action A
  pure a db = (ok a, db)

  unfoldable pub throw : Failure → Action A
  throw e db = (err e, db)

  unfoldable pub gets : (Db → A) → Action A
  gets f db = (ok (f db), db)

  -- A step that reads nothing and writes nothing, but may throw.
  unfoldable pub lift : Result A → Action A
  lift r db = (r, db)

  abbrev pub or_throw : Failure → Option A → Result A
  or_throw e none = err e
  or_throw e (some a) = ok a

  -- `prisma.$transaction(async (tx) => …)`: a throw undoes every write.
  abbrev pub settle : Db → Result A × Db → Result A × Db
  settle db (ok a, db') = (ok a, db')
  settle db (err e, _) = (err e, db)

  unfoldable pub transaction : Action A → Action A
  transaction m db = settle db (m db)

  -- `try { … } catch { … }` with a value for the caught throw; what was written stays.
  abbrev pub rescued : A → Result A × Db → Result A × Db
  rescued a (ok x, db) = (ok x, db)
  rescued a (err e, db) = (ok a, db)

  unfoldable pub rescue : Action A → A → Action A
  rescue m a db = rescued a (m db)

unfoldable pub modify : (Db → Db) → Action (Unit {0})
modify f db = (ok tt, f db)

abbrev pub throw_if : Bool → Failure → Result (Unit {0})
throw_if c e = if c then err e else ok tt

abbrev pub unless_throw : Bool → Failure → Result (Unit {0})
unless_throw c e = if c then ok tt else err e

abbrev continue : {A B : Type 0} → Result A → (A → Action B) → Action B
continue (ok a) f db = f a db
continue (err e) f db = (err e, db)

unfoldable pub when : Bool → Action (Unit {0}) → Action (Unit {0})
when c m = if c then m else pure tt

infixl 5 ◌>>=◌ ◌>>◌
-- Opening this opens the other actions of this module.
unfoldable pub ◌>>=◌ : {A B : Type 0} → Action A → (A → Action B) → Action B
unfolding pure throw gets lift transaction rescue modify when
◌>>=◌ m f db = let (r, db') = m db in continue r f db'

abbrev pub ◌>>◌ : {A B : Type 0} → Action A → Action B → Action B
m >> k = m >>= λ _. k

-- The same for checks, which have no database.
infixl 5 ◌&&=◌
abbrev pub ◌&&=◌ : {A B : Type 0} → Result A → (A → Result B) → Result B
ok a &&= f = f a
err e &&= f = err e
