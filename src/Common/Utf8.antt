-- ===== src/Common/Utf8.antt =====
-- Python's UTF-8 codec, which the program uses and does not implement.
use mathlib.Core.Path.{◌≡◌}
use mathlib.Core.Option.{Option, some}
use mathlib.Core.List.{List}
use Prim.Native.Nat.{ℕ}
use omarchy_hardware.Common.Text.{Text}

-- `encode` has no value on a text with a lone surrogate, `decode` none on bytes that are not UTF-8.
-- Decoding what was encoded gives the text back.
pub record Utf8 : Type 0 where
  pub encode : Text → Option (List ℕ)
  pub decode : List ℕ → Option Text
  pub decode-encode : (t : Text) (bytes : List ℕ) → encode t ≡ some bytes → decode bytes ≡ some t
