-- ===== src/Mqtt/Wire/Length.antt =====
-- `_encode_length` on every length.
use Prim.Native.Nat.{bit_or}
use native.Mathlib.Nat.{pow-suc}
use omarchy_hardware.Common.{
  ℕ, zero, suc, ◌/◌, ◌%◌, ◌^◌, ◌≤◌, ◌<◌, ◌≡◌, ◌≢◌, leb→le, false, ◌==◌, leb, ==_iff, some, List, [],
  ◌∷◌, length, arith, Bool-cases, inl, inr, All,
}
use omarchy_hardware.Common.Bits.{bit_or_128}
use omarchy_hardware.Common.Text.{Text}
use omarchy_hardware.Common.Utf8.{Utf8}
use omarchy_hardware.Mqtt.Outcome.{ok, err, stuck, packet_too_large}
use omarchy_hardware.Mqtt.Wire.{
  encode_loop, of_fuel, encode_length, max_remaining_length, packet, text_field, bytes_field,
  pack_word,
}

abbrev pub IsByte : ℕ → Type 0
IsByte b = b < 256

div_below : (k n : ℕ) → n < 128 ^ suc (suc k) → n / 128 < 128 ^ suc k
div_below k n h = omega (arith, pow-suc 128 (suc k))

encode_loop_last : (k n : ℕ) → n / 128 ≡ 0 → encode_loop (suc k) n ≡ some (n % 128 ∷ [])
unfolding encode_loop
encode_loop_last k n h = rw ((==_iff (n / 128) 0).1 h)

encode_loop_more :
    (k n : ℕ) (bytes : List ℕ)
    → (n / 128 == 0) ≡ false
    → encode_loop k (n / 128) ≡ some bytes
    → encode_loop (suc k) n ≡ some (bit_or (n % 128) 0x80 ∷ bytes)
unfolding encode_loop
encode_loop_more k n bytes h e = rw (h, e)

encode_loop_total :
    (k n : ℕ)
    → n < 128 ^ suc k
    → (bytes : List ℕ) × (encode_loop (suc k) n ≡ some bytes)
      × All IsByte bytes
      × (1 ≤ length bytes)
      × (length bytes ≤ suc k)
encode_loop_total zero n h =
    (n % 128 ∷ [], encode_loop_last 0 n (omega arith), omega arith, omega arith, omega arith)
encode_loop_total (suc k) n h = elim (Bool-cases (n / 128 == 0)) [
  | inl e ↦ (
    n % 128 ∷ [],
    encode_loop_last (suc k) n ((==_iff (n / 128) 0).0 e),
    omega arith,
    omega arith,
    omega arith,
  )
  | inr e ↦
      let (bytes, r, small, lo, hi) = encode_loop_total k (n / 128) (div_below k n h) in
      (
        bit_or (n % 128) 0x80 ∷ bytes,
        encode_loop_more (suc k) n bytes e r,
        (rw (bit_or_128 (n % 128) (omega arith)) (omega arith), small),
        omega arith,
        omega arith,
      )
]

-- A length up to 268435455 is encoded, in one to four bytes that are each below 256.
pub encode_length_total :
    (n : ℕ)
    → n ≤ max_remaining_length
    → (bytes : List ℕ) × (encode_length n ≡ ok bytes)
      × All IsByte bytes
      × (1 ≤ length bytes)
      × (length bytes ≤ 4)
unfolding encode_length of_fuel
encode_length_total n h =
    let (bytes, r, small, lo, hi) = encode_loop_total 3 n (omega arith) in
    (bytes, ground (arith, r), small, lo, hi)

-- A longer one is refused.
pub encode_length_refused :
    (n : ℕ) → max_remaining_length < n → encode_length n ≡ err packet_too_large
unfolding encode_length
encode_length_refused n h = ground arith

-- `_encode_length` ends on every length.
encode_length-ne-stuck : (n : ℕ) → encode_length n ≢ stuck
encode_length-ne-stuck n = elim (Bool-cases (leb n max_remaining_length)) [
  | inl small ↦ rw ((encode_length_total n (leb→le _ _ small)).1) (λ e. cc)
  | inr large ↦ rw (encode_length_refused n (ground arith)) (λ e. cc)
]

pub packet-ne-stuck : (header : ℕ) (body : List ℕ) → packet header body ≢ stuck
unfolding packet
packet-ne-stuck header body = ground (arith, encode_length-ne-stuck (length body))

pub text_field-ne-stuck : (u : Utf8) (t : Text) → text_field u t ≢ stuck
unfolding text_field bytes_field
text_field-ne-stuck u t = ground arith

pub pack_word-ne-stuck : (n : ℕ) → pack_word n ≢ stuck
unfolding pack_word
pack_word-ne-stuck n = ground arith
