-- ===== src/Prelude/Text.antt =====
-- The text operations of JavaScript that the services use.
use Prim.Native.Nat.{ℕ, suc}
use Prim.Native.Char.{Char, code}
use Prim.Native.String.{String, [], ◌∷◌}
use mathlib.Core.Bool.{Bool, true, false, ◌&&◌, ◌||◌}
use mathlib.Core.Option.{Option, none, some}
use sol_arch.Prelude.Tests.{leb, eqb, ◌==◌, if◌then◌else◌}

-- `s.length`, for texts of the Basic Multilingual Plane
abbrev pub text_length : String → ℕ
text_length [] = 0
text_length (c ∷ s) = suc (text_length s)

-- the white space and line ends that `trim` removes, in ASCII
abbrev pub is_space : Char → Bool
is_space c = eqb (code c) 32 || (leb 9 (code c) && leb (code c) 13)

abbrev pub trim_start : String → String
trim_start [] = []
trim_start (c ∷ s) = let rest = trim_start s in if is_space c then rest else c ∷ s

abbrev pub trim_end : String → String
trim_end [] = []
trim_end (c ∷ s) = let rest = trim_end s in if is_space c && rest == "" then [] else c ∷ rest

-- `s.trim()`
abbrev pub trim : String → String
trim s = trim_end (trim_start s)

-- `s.startsWith(p)`, with the rest of the text
abbrev pub strip_prefix : String → String → Option String
strip_prefix [] s = some s
strip_prefix (c ∷ p) [] = none
strip_prefix (c ∷ p) (d ∷ s) =
    let rest = strip_prefix p s in if eqb (code c) (code d) then rest else none

abbrev is_hex_digit : Char → Bool
is_hex_digit c =
    (leb b'0' (code c) && leb (code c) b'9') || (leb b'a' (code c) && leb (code c) b'f')

abbrev all_hex : String → Bool
all_hex [] = true
all_hex (c ∷ s) = is_hex_digit c && all_hex s

-- `/^[0-9a-f]{64}$/.test(s)`
unfoldable pub is_hex64 : String → Bool
is_hex64 s = eqb (text_length s) 64 && all_hex s

-- A nullable text as a condition: `null` and `''` are false.
abbrev pub truthy : Option String → Option String
truthy none = none
truthy (some []) = none
truthy (some (c ∷ s)) = some (c ∷ s)

-- `s.endsWith('=')`
abbrev pub ends_with_pad : String → Bool
ends_with_pad [] = false
ends_with_pad (c ∷ []) = eqb (code c) b'='
ends_with_pad (c ∷ d ∷ s) = ends_with_pad (d ∷ s)

abbrev pub append_text : String → String → String
append_text [] t = t
append_text (c ∷ s) t = c ∷ append_text s t

-- `s.startsWith(p)`
abbrev pub starts_with : String → String → Bool
starts_with [] s = true
starts_with (c ∷ p) [] = false
starts_with (c ∷ p) (d ∷ s) = let rest = starts_with p s in eqb (code c) (code d) && rest

-- `s.endsWith(t)`
abbrev pub ends_with : String → String → Bool
ends_with t [] = t == ""
ends_with t (c ∷ s) = let rest = ends_with t s in (c ∷ s) == t || rest

-- A character that stands in the first text becomes the one at its place in the second.
abbrev swap : String → String → Char → Char
swap [] q c = c
swap (a ∷ p) [] c = c
swap (a ∷ p) (b ∷ q) c = let rest = swap p q c in if eqb (code a) (code c) then b else rest

abbrev each : (Char → Char) → String → String
each f [] = []
each f (c ∷ s) = f c ∷ each f s

-- `s.replace(/\\/g, '/')`
abbrev pub slashed : String → String
slashed = each (swap "\\" "/")

-- `s.toLowerCase()`, in ASCII
abbrev pub lower : String → String
lower = each (swap "ABCDEFGHIJKLMNOPQRSTUVWXYZ" "abcdefghijklmnopqrstuvwxyz")

-- `s.replace('.', '')`: the first full stop goes
abbrev pub without_dot : String → String
without_dot [] = []
without_dot (c ∷ s) = let rest = without_dot s in if eqb (code c) b'.' then s else c ∷ rest
