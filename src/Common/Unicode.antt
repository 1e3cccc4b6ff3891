-- ===== src/Common/Unicode.antt =====
-- The character tables behind Python's `str` methods and `re`, which the program uses and does
-- not implement, with the methods that are built on them.
use Prim.Native.Nat.{ℕ}
use mathlib.Core.Bool.{Bool}
use mathlib.Core.List.{[], ◌∷◌, reverse}
use omarchy_hardware.Common.Checks.{if◌then◌else◌}
use omarchy_hardware.Common.Text.{Text}

-- `\d` of `re`, `str.isspace`, and `str.lower` and `str.upper` of a text.
pub record Unicode : Type 0 where
  pub is_digit : ℕ → Bool
  pub is_space : ℕ → Bool
  pub lower : Text → Text
  pub upper : Text → Text

unfoldable pub lstrip : (ℕ → Bool) → Text → Text
lstrip p [] = []
lstrip p (c ∷ s) = if p c then lstrip p s else c ∷ s

-- `s.strip()`
unfoldable pub strip : Unicode → Text → Text
unfolding lstrip
strip u s = reverse (lstrip u.is_space (reverse (lstrip u.is_space s)))
