-- ===== src/Table.antt =====
-- A database table as the handlers see it: rows under their `id`, in the order of insertion.
pub mod Laws
use sol_arch.Prelude.{String, Bool, Option, none, some, List, [], ◌∷◌, map, ◌==◌, if◌then◌else◌}

abbrev pub Table {ℓ} : Type ℓ → Type ℓ
Table V = List (String × V)

module _ {ℓ} {V : Type ℓ} where
  -- `findUnique({ where: { id } })`
  unfoldable pub find : String → Table V → Option V
  find k [] = none
  find k ((j, v) ∷ t) = if j == k then some v else find k t

  -- The row `k` written: the old one replaced, or a new one at the end.
  unfoldable pub put : String → V → Table V → Table V
  put k v [] = (k, v) ∷ []
  put k v ((j, w) ∷ t) = if j == k then (k, v) ∷ t else (j, w) ∷ put k v t

  -- `findFirst` and `findUnique` by a condition on the columns
  unfoldable pub first : (V → Bool) → Table V → Option (String × V)
  first p [] = none
  first p ((k, v) ∷ t) = if p v then some (k, v) else first p t

  -- The rows that meet a condition.
  unfoldable pub select : (V → Bool) → Table V → Table V
  select p [] = []
  select p ((k, v) ∷ t) = let rest = select p t in if p v then (k, v) ∷ rest else rest
