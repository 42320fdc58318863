-- ===== src/Prelude/Trimmed.antt =====
-- A trimmed text is its own trim.
use Prim.Native.String.{String, [], ◌∷◌}
use mathlib.Core.Bool.{Bool, false, ◌&&◌}
use mathlib.Core.Path.{◌≡◌, refl, ap, ◌∙◌}
use mathlib.Core.Logic.{inl, inr}
use sol_arch.Prelude.Tests.{◌==◌, Bool-cases}
use sol_arch.Prelude.Text.{is_space, trim_start, trim_end, trim}

begins_with_space : String → Bool
begins_with_space [] = false
begins_with_space (c ∷ s) = is_space c

trim_start-begins : (s : String) → begins_with_space (trim_start s) ≡ false
unfolding begins_with_space
trim_start-begins [] = refl
trim_start-begins (c ∷ s) = elim (Bool-cases (is_space c)) [
  | inl e ↦ rw (e) (trim_start-begins s)
  | inr e ↦ rw (e) e
]

trim_start_same : (s : String) → begins_with_space s ≡ false → trim_start s ≡ s
unfolding begins_with_space
trim_start_same [] e = refl
trim_start_same (c ∷ s) e = rw (e) refl

trim_end-begins :
    (s : String) → begins_with_space s ≡ false → begins_with_space (trim_end s) ≡ false
unfolding begins_with_space
trim_end-begins [] e = refl
trim_end-begins (c ∷ s) e = rw (e) e

trim_end_twice : (s : String) → trim_end (trim_end s) ≡ trim_end s
trim_end_twice [] = refl
trim_end_twice (c ∷ s) = elim (Bool-cases (is_space c && trim_end s == "")) [
  | inl e ↦ rw (e) refl
  | inr e ↦ rw (e, trim_end_twice s, e) refl
]

pub trim_twice : (s : String) → trim (trim s) ≡ trim s
trim_twice s =
    ap trim_end (trim_start_same (trim s) (trim_end-begins _ (trim_start-begins s)))
    ∙ trim_end_twice (trim_start s)
