-- ===== src/Common/Words.antt =====
-- Numbers as bytes, the highest first.
use Prim.Native.Nat.{ℕ, zero, suc, ◌+◌, ◌*◌, ◌/◌, ◌%◌, ◌^◌, ◌<◌}
use mathlib.Core.Path.{◌≡◌, refl}
use mathlib.Core.List.{List, [], ◌∷◌, ◌++◌}
use native.Mathlib.Omega.{arith}
use omarchy_hardware.Common.Lists.{length, length-append}

-- The `width` bytes of a number, highest first, and the number of some bytes.
abbrev pub word : ℕ → ℕ → List ℕ
word zero n = []
word (suc width) n = word width (n / 256) ++ n % 256 ∷ []

abbrev pub value_of : ℕ → List ℕ → ℕ
value_of acc [] = acc
value_of acc (b ∷ bs) = value_of (acc * 256 + b) bs

value_of-append :
    (acc : ℕ) (bs : List ℕ) (b : ℕ) → value_of acc (bs ++ b ∷ []) ≡ value_of acc bs * 256 + b
value_of-append acc [] b = refl
value_of-append acc (c ∷ bs) b = value_of-append (acc * 256 + c) bs b

pub value_of-word : (width n : ℕ) → n < 256 ^ width → value_of 0 (word width n) ≡ n
value_of-word zero n h = omega arith
value_of-word (suc width) n h = omega (
  arith,
  value_of-append 0 (word width (n / 256)) (n % 256),
  value_of-word width (n / 256) (below width n h),
)
  where
    below : (w n : ℕ) → n < 256 ^ suc w → n / 256 < 256 ^ w
    below w n h = omega arith

pub length-word : (width n : ℕ) → length (word width n) ≡ width
length-word zero n = refl
length-word (suc width) n =
    omega (arith, length-append (word width (n / 256)) (n % 256 ∷ []), length-word width (n / 256))
