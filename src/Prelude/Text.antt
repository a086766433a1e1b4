-- ===== src/Prelude/Text.antt =====
-- Text as the list of its bytes, and the order of Go's strings on such lists.
use Prim.Native.Nat.{ℕ, ◌<◌}
use Prim.Native.Char.{code}
use Prim.Native.String.{String}
use mathlib.Core.Path.{◌≡◌}
use mathlib.Core.Logic.{◌⊎◌}
use mathlib.Core.List.{List, [], ◌∷◌}

-- The bytes of an ASCII text.
abbrev pub codes : String → List ℕ
codes String.[] = []
codes (String.◌∷◌ letter text) = code letter ∷ codes text

-- The order of Go's strings, byte by byte.
infix 50 ◌<ₗ◌
abbrev pub ◌<ₗ◌ : List ℕ → List ℕ → Type 0
[] <ₗ [] = ⊥
[] <ₗ (y ∷ ys) = Unit
(x ∷ xs) <ₗ [] = ⊥
(x ∷ xs) <ₗ (y ∷ ys) = (x < y) ⊎ ((x ≡ y) × (xs <ₗ ys))
