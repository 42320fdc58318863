-- ===== src/Table/Laws.antt =====
-- The laws of tables that the handlers' proofs use.
use sol_arch.Prelude.{
  String, ◌≡◌, refl, ◌⊎◌, inl, inr, Bool-cases, Bool, true, false, Option, none, some, [], ◌∷◌,
  arith, eq_iff, eq_refl, ◌==◌, if◌then◌else◌,
}
use sol_arch.Table.{Table, find, put, first}

module _ {ℓ} {V : Type ℓ} where
  pub find-put :
      (k j : String) (v : V) (t : Table V)
      → find j (put k v t) ≡ (if k == j then some v else find j t)
  unfolding find put
  find-put k j v [] = refl
  find-put k j v ((i, w) ∷ t) = ground (arith, eq_iff k j, eq_iff i k, eq_iff i j, find-put k j v t)

  pub find-put_self : (k : String) (v : V) (t : Table V) → find k (put k v t) ≡ some v
  find-put_self k v t = simp (find-put, eq_refl)

  -- No two rows have one key.
  abbrev pub IsKeyed : Table V → Type ℓ
  IsKeyed [] = Unit
  IsKeyed ((k, v) ∷ t) = (find k t ≡ none) × IsKeyed t

  pub put-IsKeyed : (k : String) (v : V) (t : Table V) → IsKeyed t → IsKeyed (put k v t)
  unfolding find put
  put-IsKeyed k v [] h = (refl, tt)
  put-IsKeyed k v ((j, w) ∷ t) h =
      ground (arith, put-IsKeyed k v t h.1, find-put k j v t, eq_iff j k, eq_iff k j)

  -- What `first` returns meets the condition.
  pub first_holds :
      (p : V → Bool) (t : Table V) (k : String) (v : V) → first p t ≡ some (k, v) → p v ≡ true
  unfolding first
  first_holds p [] k v e = cc
  first_holds p ((j, w) ∷ t) k v e = ground (arith, first_holds p t k v)

  -- What `first` returns stands under its key.
  pub find-first :
      (p : V → Bool) (t : Table V) (k : String) (v : V)
      → IsKeyed t
      → first p t ≡ some (k, v)
      → find k t ≡ some v
  unfolding find first
  find-first p [] k v h e = cc
  find-first p ((j, w) ∷ t) k v h e = ground (arith, find-first p t k v h.1, eq_iff j k, eq_refl k)

  -- Where `first` returns nothing, no row meets the condition.
  pub first-none :
      (p : V → Bool) (t : Table V) (k : String) (v : V)
      → first p t ≡ none
      → find k t ≡ some v
      → p v ≡ false
  unfolding find first
  first-none p [] k v e f = cc
  first-none p ((j, w) ∷ t) k v e f = ground (arith, first-none p t k v, eq_iff j k)

  -- The new row is the one that meets the condition.
  pub first-put_new :
      (p : V → Bool) (k : String) (v : V) (t : Table V)
      → find k t ≡ none
      → first p t ≡ none
      → p v ≡ true
      → first p (put k v t) ≡ some (k, v)
  unfolding find put first
  first-put_new p k v [] fresh missing holds = ground arith
  first-put_new p k v ((j, w) ∷ t) fresh missing holds =
      ground (arith, first-put_new p k v t, eq_iff j k)

  -- In a table of one row.
  pub find_single : (k j : String) (v w : V) → find j ((k, v) ∷ []) ≡ some w → w ≡ v
  unfolding find
  find_single k j v w e = ground (arith, eq_iff k j)

module _ {V : Type 0} where
  head_row :
      (j : String) (w : V) (k : String) (v : V)
      → ◌≡◌ {A = Option (String × V)} (some (j, w)) (some (k, v))
      → (j ≡ k) × (w ≡ v)
  head_row j w k v e = (cc e, cc e)

  -- The row stands in the table, under the key.
  abbrev pub Holds : String → V → Table V → Type 0
  Holds k v [] = ⊥
  Holds k v ((j, w) ∷ t) = ((j ≡ k) × (w ≡ v)) ⊎ Holds k v t

  pub first-Holds :
      (p : V → Bool) (t : Table V) (k : String) (v : V) → first p t ≡ some (k, v) → Holds k v t
  unfolding first
  first-Holds p [] k v e = absurd (cc e)
  first-Holds p ((j, w) ∷ t) k v e = elim (Bool-cases (p w)) [
    | inl here ↦ inl (head_row j w k v (rw (here) at e))
    | inr later ↦ inr (first-Holds p t k v (rw (later) at e))
  ]
