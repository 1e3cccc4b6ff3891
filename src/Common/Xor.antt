-- ===== src/Common/Xor.antt =====
-- `^` on bytes: to mask twice is to leave as it was.
use Prim.Native.Nat.{ℕ, ◌<◌, bit_xor}
use mathlib.Core.Path.{◌≡◌, refl}
use mathlib.Core.Bool.{Bool}
use omarchy_hardware.Common.Checks.{◌==◌, ==_iff}
use omarchy_hardware.Common.Bits.{everywhere, everywhere→at}

undone : ℕ → ℕ → Bool
undone mask byte = bit_xor (bit_xor byte mask) mask == byte

undone_by : ℕ → Bool
unfolding undone everywhere
undone_by mask = everywhere (undone mask) 256

pub bit_xor-twice :
    (byte mask : ℕ) → byte < 256 → mask < 256 → bit_xor (bit_xor byte mask) mask ≡ byte
unfolding undone undone_by everywhere
bit_xor-twice byte mask h k =
    (==_iff _ _).0
      (everywhere→at (undone mask) 256 byte h (everywhere→at undone_by 256 mask k refl))
