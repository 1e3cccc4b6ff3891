-- ===== src/Ws/Frame.antt =====
-- Frames of mcp/omarchy_hardware/ws_lite.py: `_send_frame`, `_read_frame` and `_read_rest`.
pub mod Server
pub mod Reads
pub mod Ends
use Prim.Native.Nat.{bit_and, bit_or, bit_xor}
use omarchy_hardware.Common.{
  ℕ, zero, suc, ◌+◌, ◌*◌, ◌/◌, ◌%◌, ◌^◌, ◌==◌, ltb, leb, min, Bool, true, false, not, ◌&&◌, ◌||◌,
  Option, none, some, List, [], ◌∷◌, ◌++◌, length, if◌then◌else◌,
}
use omarchy_hardware.Common.Text.{Text}
use omarchy_hardware.Common.Words.{word, value_of}
use omarchy_hardware.Ws.Client.{
  WsError, Outcome, ok, timeout, waiting, stuck, err, send_failed, stalled_halfway, reserved_bits,
  masked_frame, oversized_frame, invalid_control, unencodable, struct_error, Python, Client, M,
  then_do, ◌>>=◌, ◌>>◌, pure, raise, choose, clock, set_deadline, recv_exact,
}

abbrev pub max_message_bytes : ℕ
max_message_bytes = 1024 * 1024

-- `FRAME_TIMEOUT`, in seconds.
abbrev pub frame_timeout : ℕ
frame_timeout = 15

abbrev pub op_cont : ℕ
op_cont = 0x0

abbrev pub op_text : ℕ
op_text = 0x1

abbrev pub op_binary : ℕ
op_binary = 0x2

abbrev pub op_close : ℕ
op_close = 0x8

abbrev pub op_ping : ℕ
op_ping = 0x9

abbrev pub op_pong : ℕ
op_pong = 0xA

-- `struct.pack("!Q", n)`
abbrev pub pack_long : ℕ → Outcome (List ℕ)
pack_long n = if ltb n (2 ^ 64) then ok (word 8 n) else err struct_error

-- What follows the first byte of the header; the mask bit is set.
unfoldable pub length_field : ℕ → Outcome (List ℕ)
length_field length =
    if ltb length 126
    then ok (bit_or 0x80 length ∷ [])
    else if ltb length (2 ^ 16)
    then ok (bit_or 0x80 126 ∷ word 2 length)
    else elim (pack_long length) [ ok bytes ↦ ok (bit_or 0x80 127 ∷ bytes) | _ ↦ err struct_error ]

-- `byte ^ mask[index % 4]` for each byte, given the number of the first.
unfoldable pub masked : (ℕ → ℕ) → ℕ → List ℕ → List ℕ
masked mask index [] = []
masked mask index (byte ∷ bytes) = bit_xor byte (mask (index % 4)) ∷ masked mask (suc index) bytes

-- `os.urandom(4)`: the four bytes as a function of their index.
abbrev pub draw_mask : Python → M (ℕ → ℕ)
draw_mask py s = (ok (λ i. py.urandom (s.drawn + i)), record s { drawn = s.drawn + 4 })

abbrev pub mask_bytes : (ℕ → ℕ) → List ℕ
mask_bytes mask = mask 0 ∷ mask 1 ∷ mask 2 ∷ mask 3 ∷ []

unfoldable pub hand_over : List ℕ → List Bool → M (Unit {0})
hand_over bytes [] s = (ok tt, record s { sent = s.sent ++ bytes ∷ [] })
hand_over bytes (true ∷ rest) s = (ok tt, record s { sends = rest; sent = s.sent ++ bytes ∷ [] })
hand_over bytes (false ∷ rest) s = (err send_failed, record s { sends = rest })

abbrev pub lift : {A : Type 0} → Outcome A → M A
lift r s = (r, s)

unfoldable pub send_frame : Python → ℕ → List ℕ → M (Unit {0})
unfolding length_field masked hand_over
send_frame py opcode payload = do
  field ← lift (length_field (length payload))
  mask ← draw_mask py
  λ s.
      hand_over (bit_or 0x80 opcode ∷ (field ++ (mask_bytes mask ++ masked mask 0 payload))) s.sends
        s

-- `send_text`
abbrev encoded : Option (List ℕ) → Outcome (List ℕ)
encoded none = err unencodable
encoded (some bytes) = ok bytes

unfoldable pub send_text : Python → Text → M (Unit {0})
unfolding send_frame
send_text py text = lift (encoded (py.encode text)) >>= send_frame py op_text

pub record Frame : Type 0 where
  pub fin : Bool
  pub opcode : ℕ
  pub payload : List ℕ

-- The length of the payload, by the second byte of the frame.
unfoldable pub read_length : Python → ℕ → M ℕ
unfolding recv_exact
read_length py length =
    choose (length == 126) (recv_exact py 2 >>= λ bytes. pure (value_of 0 bytes))
      (choose (length == 127) (recv_exact py 8 >>= λ bytes. pure (value_of 0 bytes)) (pure length))

abbrev pub is_set : ℕ → Bool
is_set bits = not (bits == 0)

-- The end of `_read_rest`, once the length is known.
unfoldable pub read_payload : Python → Bool → ℕ → ℕ → M Frame
unfolding recv_exact
read_payload py fin opcode length = choose (ltb max_message_bytes length) (raise oversized_frame) (
    choose (leb op_close opcode && (not fin || ltb 125 length)) (raise invalid_control) (
      recv_exact py length >>= λ payload.
      pure (record { fin = fin; opcode = opcode; payload = payload })))

unfoldable pub read_rest : Python → ℕ → ℕ → M Frame
unfolding read_length read_payload
read_rest py first second = choose (is_set (bit_and first 0x70)) (raise reserved_bits) (
    choose (is_set (bit_and second 0x80)) (raise masked_frame) (
      read_length py (bit_and second 0x7F)
      >>= read_payload py (is_set (bit_and first 0x80)) (bit_and first 0x0F)))

abbrev pub first_of : List ℕ → ℕ
first_of [] = 0
first_of (b ∷ bs) = b

abbrev pub second_of : List ℕ → ℕ
second_of (a ∷ b ∷ bs) = b
second_of _ = 0

abbrev pub sooner : Option ℕ → ℕ → ℕ
sooner none at = at
sooner (some deadline) at = min deadline at

-- The deadline of a frame that has begun: this many seconds from now, or the caller's if it is
-- sooner.
unfoldable pub start_frame : Python → M (Unit {0})
start_frame py = clock py >>= λ now s.
    set_deadline (some (sooner s.deadline (now + frame_timeout * py.ticks_per_second))) s

-- `except TimeoutError: raise WsError(...)`
abbrev pub timeout_as : {A : Type 0} → WsError → Outcome A × Client → Outcome A × Client
timeout_as e (timeout, s) = (err e, s)
timeout_as e (ok a, s) = (ok a, s)
timeout_as e (waiting, s) = (waiting, s)
timeout_as e (stuck, s) = (stuck, s)
timeout_as e (err x, s) = (err x, s)

unfoldable pub rest_in_time : Python → ℕ → ℕ → M Frame
unfolding read_rest
rest_in_time py first second s = timeout_as stalled_halfway (read_rest py first second s)

unfoldable pub read_frame : Python → M Frame
unfolding recv_exact rest_in_time start_frame
read_frame py = do
  head ← recv_exact py 2
  start_frame py
  rest_in_time py (first_of head) (second_of head)
