-- ===== src/Mqtt/Wire.antt =====
-- `_encode_length`, `_string` and `_packet` of mcp/omarchy_hardware/mqtt_lite.py. Bytes are numbers.
pub mod Length
use Prim.Native.Nat.{bit_or}
use omarchy_hardware.Common.{
  ℕ, zero, suc, ◌+◌, ◌*◌, ◌/◌, ◌%◌, ◌==◌, leb, Option, none, some, List, [], ◌∷◌, ◌++◌, length,
  if◌then◌else◌,
}
use omarchy_hardware.Common.Text.{Text}
use omarchy_hardware.Common.Utf8.{Utf8}
use omarchy_hardware.Mqtt.Outcome.{
  Outcome, ok, err, stuck, packet_too_large, string_too_long, unencodable, struct_error, ◌>>=◌,
}

abbrev pub max_remaining_length : ℕ
max_remaining_length = 268435455

-- The `while` loop: `none` means that the fuel ran out.
unfoldable pub encode_loop : ℕ → ℕ → Option (List ℕ)
encode_loop zero n = none
encode_loop (suc fuel) n =
    let rest = n / 128 in
    let more = encode_loop fuel rest in
    if rest == 0
    then some (n % 128 ∷ [])
    else elim more [ none ↦ none | some bytes ↦ some (bit_or (n % 128) 0x80 ∷ bytes) ]

unfoldable pub of_fuel : Option (List ℕ) → Outcome (List ℕ)
of_fuel none = stuck
of_fuel (some bytes) = ok bytes

unfoldable pub encode_length : ℕ → Outcome (List ℕ)
unfolding encode_loop of_fuel
encode_length n =
    if leb n max_remaining_length then of_fuel (encode_loop 4 n) else err packet_too_large

-- The two bytes of a number below 2 ^ 16, highest first.
abbrev pub word_bytes : ℕ → List ℕ
word_bytes n = n / 256 ∷ n % 256 ∷ []

-- `struct.pack("!H", n)`
unfoldable pub pack_word : ℕ → Outcome (List ℕ)
pack_word n = if leb n 65535 then ok (word_bytes n) else err struct_error

-- `struct.unpack("!H", bs[:2])[0]`, for a list of two bytes at least.
abbrev pub word_at : List ℕ → ℕ
word_at (hi ∷ lo ∷ bs) = hi * 256 + lo
word_at _ = 0

-- `_string` of `bytes`, and of a `str` by its UTF-8 encoding.
unfoldable pub bytes_field : List ℕ → Outcome (List ℕ)
bytes_field raw =
    if leb (length raw) 65535 then ok (word_bytes (length raw) ++ raw) else err string_too_long

unfoldable pub text_field : Utf8 → Text → Outcome (List ℕ)
text_field u value = elim (u.encode value) [ none ↦ err unencodable | some raw ↦ bytes_field raw ]

unfoldable pub packet : ℕ → List ℕ → Outcome (List ℕ)
packet header body = do remaining ← encode_length (length body); ok (header ∷ (remaining ++ body))
