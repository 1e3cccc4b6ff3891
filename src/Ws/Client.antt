-- ===== src/Ws/Client.antt =====
-- `Client` of mcp/omarchy_hardware/ws_lite.py: its state, the clock, and `_recv_exact`.
pub mod Takes
pub mod Stream
use omarchy_hardware.Common.{
  ℕ, zero, suc, ◌+◌, leb, Bool, true, false, Option, none, some, List, [], ◌∷◌, ◌++◌, length, take,
  drop, if◌then◌else◌,
}
use omarchy_hardware.Common.Text.{Text}

-- What `recv` meets next: bytes that are there (one at least), nothing before the deadline, an
-- `OSError`, the end of the stream. After the last event nothing happens any more.
pub data Recv : Type 0 where
  chunk : ℕ → List ℕ → Recv
  quiet lost eof : Recv

-- A `WsError`, with a constructor for each of its messages; last, Python's `UnicodeEncodeError`
-- and `struct.error`, which the module does not catch. `closed` is the class `Closed`.
pub data WsError : Type 0 where
  connection_lost closed send_failed stalled_halfway reserved_bits masked_frame : WsError
  oversized_frame invalid_control nested_message orphan_continuation : WsError
  unknown_opcode : ℕ → WsError
  oversized_message stalled_message unencodable struct_error : WsError

-- A result, Python's `TimeoutError`, a `WsError`; `waiting` is a call that blocks for ever;
-- `stuck` is no behaviour of the program: the fuel of a loop ran out.
pub data Outcome (A : Type 0) : Type 0 where
  ok : A → Outcome A
  timeout waiting stuck : Outcome A
  err : WsError → Outcome A

-- What the client uses of Python: the clock at its successive readings, in ticks, the bytes of
-- `os.urandom` in the order in which they are drawn, and UTF-8; `encode` is `none` on a lone
-- surrogate, `decode` replaces what it cannot read.
pub record Python : Type 0 where
  pub ticks_per_second : ℕ
  pub monotonic : ℕ → ℕ
  pub urandom : ℕ → ℕ
  pub encode : Text → Option (List ℕ)
  pub decode : List ℕ → Text

-- `inbox` is the script of the socket, `sends` the outcomes of the coming `sendall` calls (they
-- succeed when it has run out), `sent` what was handed over with success, oldest first; `readings`
-- counts the readings of the clock, `drawn` the random bytes.
pub record Client : Type 0 where
  pub buffer : List ℕ
  pub deadline : Option ℕ
  pub inbox : List Recv
  pub sends : List Bool
  pub sent : List (List ℕ)
  pub readings : ℕ
  pub drawn : ℕ

abbrev pub M : Type 0 → Type 0
M A = Client → Outcome A × Client

abbrev pub then_do : {A B : Type 0} → (A → M B) → Outcome A × Client → Outcome B × Client
then_do f (ok a, s) = f a s
then_do f (timeout, s) = (timeout, s)
then_do f (waiting, s) = (waiting, s)
then_do f (stuck, s) = (stuck, s)
then_do f (err e, s) = (err e, s)

infixl 5 ◌>>=◌ ◌>>◌
abbrev pub ◌>>=◌ : {A B : Type 0} → M A → (A → M B) → M B
◌>>=◌ m f s = then_do f (m s)

abbrev pub ◌>>◌ : {B : Type 0} → M (Unit {0}) → M B → M B
m >> k = m >>= λ _. k

abbrev pub pure : {A : Type 0} → A → M A
pure a s = (ok a, s)

abbrev pub raise : {A : Type 0} → WsError → M A
raise e s = (err e, s)

abbrev pub wait : {A : Type 0} → M A
wait s = (waiting, s)

abbrev pub time_out : {A : Type 0} → M A
time_out s = (timeout, s)

abbrev pub choose : {A : Type 0} → Bool → M A → M A → M A
choose b m k s = if b then m s else k s

-- `time.monotonic()`
abbrev pub clock : Python → M ℕ
clock py s = (ok (py.monotonic s.readings), record s { readings = suc s.readings })

abbrev pub set_deadline : Option ℕ → M (Unit {0})
set_deadline deadline s = (ok tt, record s { deadline = deadline })

abbrev pub remaining_until : Python → Option ℕ → M (Unit {0})
remaining_until py none = pure tt
remaining_until py (some deadline) =
    clock py >>= λ now. choose (leb deadline now) time_out (pure tt)

-- `_remaining`; the timeout that it gives to the socket shows as the event `quiet`.
unfoldable pub remaining : Python → M (Unit {0})
remaining py s = remaining_until py s.deadline s

abbrev pub arrived : List ℕ → List Recv → M (Unit {0})
arrived bytes inbox s = (ok tt, record s { buffer = s.buffer ++ bytes; inbox = inbox })

abbrev pub consumed : List Recv → M (Unit {0})
consumed inbox s = (ok tt, record s { inbox = inbox })

-- Nothing arrives: with a deadline `recv` times out, without one it goes on waiting.
abbrev pub at_deadline : {A : Type 0} → M A → M A → Option ℕ → M A
at_deadline late on none = on
at_deadline late on (some deadline) = late

abbrev pub quietly : {A : Type 0} → M A → M A → M A
quietly late on s = at_deadline late on s.deadline s

-- One turn of the loop of `_recv_exact`, given what follows its test.
abbrev pub unless_filled : ℕ → M (Unit {0}) → M (Unit {0})
unless_filled count more s = choose (leb count (length s.buffer)) (pure tt) more s

-- The `while` loop of `_recv_exact`, on what the socket has still to give.
unfoldable pub fill : Python → ℕ → List Recv → M (Unit {0})
unfolding remaining
fill py count [] = unless_filled count (remaining py >> quietly time_out wait)
fill py count (chunk b bs ∷ inbox) =
    unless_filled count (remaining py >> (arrived (b ∷ bs) inbox >> fill py count inbox))
fill py count (quiet ∷ inbox) =
    unless_filled count (remaining py >> (consumed inbox >> quietly time_out (fill py count inbox)))
fill py count (lost ∷ inbox) =
    unless_filled count (remaining py >> (consumed inbox >> raise connection_lost))
fill py count (eof ∷ inbox) = unless_filled count (remaining py >> raise closed)

abbrev pub take_out : ℕ → M (List ℕ)
take_out count s = (ok (take count s.buffer), record s { buffer = drop count s.buffer })

unfoldable pub recv_exact : Python → ℕ → M (List ℕ)
unfolding fill
recv_exact py count = (λ s. fill py count s.inbox s) >> take_out count
