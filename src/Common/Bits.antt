-- ===== src/Common/Bits.antt =====
-- `|` and `&` on numbers as arithmetic.
use Prim.Native.Nat.{
  ℕ, zero, suc, ◌+◌, ◌*◌, ◌/◌, ◌%◌, ◌^◌, ◌≤◌, ◌<◌, max, bit_and, bit_or, digits, bit_or-bitwise,
}
use mathlib.Core.Path.{◌≡◌, refl, ap}
use mathlib.Core.Bool.{Bool, true, false}
use native.Mathlib.Omega.{arith}
use native.Mathlib.Nat.{pow-suc}
use omarchy_hardware.Common.Checks.{◌==◌, ==_iff, if◌then◌else◌}

-- A test that is true of every number below a bound.
unfoldable pub everywhere : (ℕ → Bool) → ℕ → Bool
everywhere test zero = true
everywhere test (suc bound) = if test bound then everywhere test bound else false

pub everywhere→at :
    (test : ℕ → Bool) (bound at : ℕ) → at < bound → everywhere test bound ≡ true → test at ≡ true
unfolding everywhere
everywhere→at test zero at below h = absurd (omega arith)
everywhere→at test (suc bound) at below h = ground (arith, everywhere→at test bound at)

low_bits : ℕ → Bool
low_bits x = bit_and x 0x7f == x % 128

high_bit : ℕ → Bool
high_bit x = bit_and x 0x80 == x / 128 * 128

low_bits_or : ℕ → Bool
low_bits_or x = bit_or x 0x80 == x + 128

pub bit_and_127 : (x : ℕ) → x < 256 → bit_and x 0x7f ≡ x % 128
unfolding low_bits everywhere
bit_and_127 x h = (==_iff _ _).0 (everywhere→at low_bits 256 x h refl)

pub bit_and_128 : (x : ℕ) → x < 256 → bit_and x 0x80 ≡ x / 128 * 128
unfolding high_bit everywhere
bit_and_128 x h = (==_iff _ _).0 (everywhere→at high_bit 256 x h refl)

pub bit_or_128 : (x : ℕ) → x < 128 → bit_or x 0x80 ≡ x + 128
unfolding low_bits_or everywhere
bit_or_128 x h = (==_iff _ _).0 (everywhere→at low_bits_or 128 x h refl)

-- `|` by its recursion on fuel: any fuel that is not below the left number gives the same.
abbrev merge : ℕ → ℕ → ℕ → ℕ
merge fuel = digits (λ y. y) max fuel

merge-zero : (fuel right : ℕ) → merge fuel 0 right ≡ right
merge-zero zero right = refl
merge-zero (suc fuel) right = refl

merge-fuel :
    (left right fuel enough : ℕ)
    → left ≤ fuel
    → left ≤ enough
    → merge fuel left right ≡ merge enough left right
merge-fuel zero right fuel enough p q =
    omega (arith, merge-zero fuel right, merge-zero enough right)
merge-fuel (suc left) right zero enough p q = absurd (omega arith)
merge-fuel (suc left) right (suc fuel) zero p q = absurd (omega arith)
merge-fuel (suc left) right (suc fuel) (suc enough) p q =
    let halved = merge-fuel (suc left / 2) (right / 2) fuel enough (omega arith) (omega arith) in
    omega (arith, halved)

zero-bit_or : (right : ℕ) → bit_or 0 right ≡ right
zero-bit_or right = bit_or-bitwise 0 right

-- The lowest binary digit apart from the others.
bit_or_halves :
    (left right : ℕ)
    → bit_or left right ≡ bit_or (left / 2) (right / 2) * 2 + max (left % 2) (right % 2)
bit_or_halves zero right = omega (arith, zero-bit_or right, zero-bit_or (right / 2))
bit_or_halves (suc left) right =
    let half = suc left / 2 in
    let whole = bit_or-bitwise (suc left) right in
    let halves = bit_or-bitwise half (right / 2) in
    omega (arith, whole, halves, merge-fuel half (right / 2) left half (omega arith) (omega arith))

mul-two_pow : (b k : ℕ) → b * 2 ^ suc k ≡ b * 2 ^ k * 2
mul-two_pow b k = rw pow-suc (omega arith)

half_double : (n : ℕ) → n * 2 / 2 ≡ n
half_double n = omega arith

half_lt : (k a : ℕ) → a < 2 ^ suc k → a / 2 < 2 ^ k
half_lt k a h = omega (arith, pow-suc 2 k)

-- Numbers with no binary digit in common: `|` is the sum.
pub bit_or_disjoint : (k a b : ℕ) → a < 2 ^ k → bit_or a (b * 2 ^ k) ≡ a + b * 2 ^ k
bit_or_disjoint zero a b h =
    let e : a ≡ 0 = omega arith in rw e (omega (arith, zero-bit_or (b * 1)))
bit_or_disjoint (suc k) a b h = rw (mul-two_pow b k) (
    omega (
      arith,
      bit_or_halves a (b * 2 ^ k * 2),
      ap (λ (t : ℕ). bit_or (a / 2) t) (half_double (b * 2 ^ k)),
      bit_or_disjoint k (a / 2) b (half_lt k a h),
    ))
