-- ===== src/Mqtt/Client.antt =====
-- `Client` of mcp/omarchy_hardware/mqtt_lite.py: its state, the transport and `_read_packet`.
-- What the socket does is a script of events; the client consumes it from the front.
pub mod Stream
pub mod Framing
pub mod Progress
use Prim.Native.Nat.{bit_and, bit_or}
use omarchy_hardware.Common.{
  ℕ, zero, suc, ◌+◌, ◌*◌, ◌%◌, ◌^◌, ◌==◌, leb, ltb, Bool, true, false, List, [], ◌∷◌, ◌++◌, length,
  if◌then◌else◌,
}
use omarchy_hardware.Common.Text.{Text}
use omarchy_hardware.Mqtt.Outcome.{
  MqttError, Outcome, ok, timeout, err, stuck, not_connected, send_lost, read_lost, closed,
  bad_length, oversized,
}

-- What `recv` meets next: bytes that are there (one at least), the deadline, an `OSError`, the
-- end of the stream. After the last event nothing arrives before any deadline.
pub data Recv : Type 0 where
  chunk : ℕ → List ℕ → Recv
  late lost eof : Recv

pub record Message : Type 0 where
  pub topic : Text
  pub payload : List ℕ
  pub qos : ℕ
  pub retain : Bool

-- `inbox` is the script of the socket, `sends` the outcomes of the coming `sendall` calls (they
-- succeed when it has run out), `sent` what was handed to `sendall` with success, oldest first.
pub record Client : Type 0 where
  pub connected : Bool
  pub max_packet : ℕ
  pub next_id : ℕ
  pub keepalive : ℕ
  pub early : List Message
  pub inbox : List Recv
  pub sends : List Bool
  pub sent : List (List ℕ)

abbrev pub M : Type 0 → Type 0
M A = Client → Outcome A × Client

abbrev pub then_do : {A B : Type 0} → (A → M B) → Outcome A × Client → Outcome B × Client
then_do f (ok a, s) = f a s
then_do f (timeout, s) = (timeout, s)
then_do f (err e, s) = (err e, s)
then_do f (stuck, s) = (stuck, s)

infixl 5 ◌>>=◌ ◌>>◌
abbrev pub ◌>>=◌ : {A B : Type 0} → M A → (A → M B) → M B
◌>>=◌ m f s = then_do f (m s)

abbrev pub ◌>>◌ : {B : Type 0} → M (Unit {0}) → M B → M B
m >> k = m >>= λ _. k

abbrev pub pure : {A : Type 0} → A → M A
pure a s = (ok a, s)

abbrev pub raise : {A : Type 0} → MqttError → M A
raise e s = (err e, s)

-- A value computed with no access to the client.
abbrev pub lift : {A : Type 0} → Outcome A → M A
lift r s = (r, s)

abbrev pub gets : {A : Type 0} → (Client → A) → M A
gets f s = (ok (f s), s)

abbrev pub timeout_as : {A : Type 0} → MqttError → Outcome A × Client → Outcome A × Client
timeout_as e (ok a, s) = (ok a, s)
timeout_as e (timeout, s) = (err e, s)
timeout_as e (err x, s) = (err x, s)
timeout_as e (stuck, s) = (stuck, s)

-- `except TimeoutError: raise e from None`
abbrev pub on_timeout : {A : Type 0} → MqttError → M A → M A
on_timeout e m s = timeout_as e (m s)

-- `kind & 0xF0`
abbrev pub kind_of : ℕ → ℕ
kind_of header = bit_and header 0xf0

-- How much is left to read.
abbrev pub size : List Recv → ℕ
size [] = 0
size (chunk b bs ∷ inbox) = suc (length bs) + size inbox
size (late ∷ inbox) = suc (size inbox)
size (lost ∷ inbox) = suc (size inbox)
size (eof ∷ inbox) = suc (size inbox)

unfoldable pub hand_over : List ℕ → Client → List Bool → Outcome (Unit {0}) × Client
hand_over bytes s [] = (ok tt, record s { sent = s.sent ++ bytes ∷ [] })
hand_over bytes s (true ∷ rest) = (ok tt, record s { sends = rest; sent = s.sent ++ bytes ∷ [] })
hand_over bytes s (false ∷ rest) = (err send_lost, record s { sends = rest })

-- `_send`: the bytes are handed over whole, or the connection is lost.
unfoldable pub send : List ℕ → M (Unit {0})
send bytes s = if s.connected then hand_over bytes s s.sends else (err not_connected, s)

-- What is left of a chunk stays in front.
abbrev pub put_back : List ℕ → List Recv → List Recv
put_back [] inbox = inbox
put_back (b ∷ bs) inbox = chunk b bs ∷ inbox

abbrev pub prepend : ℕ → Outcome (List ℕ) × List Recv → Outcome (List ℕ) × List Recv
prepend b (ok bs, inbox) = (ok (b ∷ bs), inbox)
prepend b (timeout, inbox) = (timeout, inbox)
prepend b (err e, inbox) = (err e, inbox)
prepend b (stuck, inbox) = (stuck, inbox)

-- The loop of `_recv_exact`, on the number of bytes still missing. The clock and the socket are
-- asked again where a chunk ends; within a chunk the bytes are taken one by one.
unfoldable pub recv_loop : ℕ → List Recv → Outcome (List ℕ) × List Recv
recv_loop zero inbox = (ok [], inbox)
recv_loop (suc n) [] = (timeout, [])
recv_loop (suc n) (chunk b bs ∷ inbox) = prepend b (recv_loop n (put_back bs inbox))
recv_loop (suc n) (late ∷ inbox) = (timeout, inbox)
recv_loop (suc n) (lost ∷ inbox) = (err read_lost, inbox)
recv_loop (suc n) (eof ∷ inbox) = (err closed, eof ∷ inbox)

unfoldable pub recv_exact : ℕ → M (List ℕ)
recv_exact count s =
    let (r, inbox) = recv_loop count s.inbox in
    if s.connected then (r, record s { inbox = inbox }) else (err not_connected, s)

-- `bs[0]`, of a list that is not empty.
abbrev pub first : List ℕ → ℕ
first [] = 0
first (b ∷ bs) = b

unfoldable pub recv_byte : M ℕ
recv_byte = do bs ← recv_exact 1; pure (first bs)

-- The `for` loop of `_read_packet` over the shifts, with its `else`.
unfoldable pub read_length : List ℕ → ℕ → M ℕ
read_length [] n = raise bad_length
read_length (shift ∷ shifts) n = do
  byte ← recv_byte
  let n' = bit_or n (bit_and byte 0x7f * 2 ^ shift)
  if bit_and byte 0x80 == 0 then pure n' else read_length shifts n'

unfoldable pub read_packet : M (ℕ × List ℕ)
read_packet = do
  header ← recv_byte
  n ← read_length (0 ∷ 7 ∷ 14 ∷ 21 ∷ []) 0
  limit ← gets (λ s. s.max_packet)
  if ltb limit n then raise (oversized n) else do body ← recv_exact n; pure (header, body)

-- The clock of a call that waits for an answer, in milliseconds: a reading when it begins to wait,
-- and one as it turns to each packet.
pub record Clock : Type 0 where
  pub start : ℕ
  pub readings : List ℕ

-- `_read_packet` by a deadline, at a reading of the clock; the event `late` is the deadline when it
-- passes later, within the packet.
unfoldable pub read_packet_by : (deadline now : ℕ) → M (ℕ × List ℕ)
unfolding read_packet
read_packet_by deadline now s = if leb deadline now then (timeout, s) else read_packet s

-- `_packet_id`
unfoldable pub packet_id : M ℕ
packet_id s = (ok s.next_id, record s { next_id = s.next_id % 65535 + 1 })
