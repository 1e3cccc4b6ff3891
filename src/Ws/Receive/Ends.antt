-- ===== src/Ws/Receive/Ends.antt =====
-- `recv_text` ends, and what it returns is bounded.
use omarchy_hardware.Common.{
  ℕ, zero, suc, ◌+◌, ◌≤◌, ◌<◌, ◌≡◌, arith, ◌==◌, ltb, ◌||◌, Bool, true, false, Option, none, some,
  List, [], ◌++◌, length, take, is_some, Bool-cases, inl, inr, if◌then◌else◌,
}
use omarchy_hardware.Common.Text.{Text}
use omarchy_hardware.Ws.Client.{
  Outcome, ok, timeout, waiting, err, closed, nested_message, orphan_continuation, unknown_opcode,
  WsError, Python, Client, M, ◌>>=◌, ◌>>◌, then_do, pure, raise, choose,
}
use omarchy_hardware.Ws.Client.Takes.{size, Left, result, late, blocked, raised, timed, Takes-bind}
use omarchy_hardware.Ws.Frame.{
  max_message_bytes, op_cont, op_text, op_binary, op_close, op_ping, op_pong, send_frame, Frame,
}
use omarchy_hardware.Ws.Frame.Ends.{remaining-Takes, read_frame-Takes, send_frame-Takes}
use omarchy_hardware.Ws.Receive.{
  is_ws_error, ignore_ws_error, try_send, Turn, again, complete, keep_message, answer_close, turn,
  on_timeout, next_frame, follow, recv_loop, patience, recv_text,
}

-- What one turn of the loop leaves of `s`: a message that is kept is within the limit.
data Turned (s : Client) : Outcome Turn × Client → Type 0 where
  goes_on :
      {started : Bool} {message : List ℕ} {s' : Client}
      → size s' ≤ size s
      → (timed s ≡ true → timed s' ≡ true)
      → Turned s (ok (again started message), s')
  is_complete :
      {message : List ℕ} {s' : Client}
      → length message ≤ max_message_bytes
      → Turned s (ok (complete message), s')
  breaks : {e : WsError} {s' : Client} → Turned s (err e, s')
  hangs : {s' : Client} → timed s ≡ false → Turned s (waiting, s')
  expires : {s' : Client} → Turned s (timeout, s')

record Turns (m : M Turn) : Type 0 where
  at : (s : Client) → Turned s (m s)

Turns-choose : (b : Bool) {m k : M Turn} → Turns m → Turns k → Turns (choose b m k)
Turns-choose true h k = record { at = λ s. h.at s }
Turns-choose false h k = record { at = λ s. k.at s }

Turns-raise : (e : WsError) → Turns (raise e)
Turns-raise e = record { at = λ s. breaks }

Turns-again : (started : Bool) (message : List ℕ) → Turns (pure (again started message))
Turns-again started message = record { at = λ s. goes_on (omega arith) (λ e. e) }

keep_message-Turns : (fin : Bool) (message : List ℕ) → Turns (keep_message fin message)
unfolding keep_message
keep_message-Turns fin message = record {
  at = λ s. elim (Bool-cases (ltb max_message_bytes (length message))) [
    | inl over ↦ rw over breaks
    | inr fits ↦ rw fits (kept s fin (ground arith))
  ];
}
  where
    kept :
        (s : Client) (fin : Bool)
        → length message ≤ max_message_bytes
        → Turned s (ok (if fin then complete message else again true message), s)
    kept s true h = is_complete h
    kept s false h = goes_on (omega arith) (λ e. e)

after_pong :
    (started : Bool) (message : List ℕ) (s : Client) {p : Outcome (Unit {0}) × Client}
    → Left 0 s p
    → Turned s (then_do (λ _. pure (again started message)) p)
after_pong started message s (result h t) = goes_on (omega arith) t
after_pong started message s late = expires
after_pong started message s (blocked h) = hangs h
after_pong started message s raised = breaks

after_close :
    (s : Client) {p : Outcome (Unit {0}) × Client}
    → Left 0 s p
    → Turned s (then_do (λ _. raise closed) (ignore_ws_error p))
unfolding ignore_ws_error
after_close s (result h t) = breaks
after_close s late = expires
after_close s (blocked h) = hangs h
after_close s (raised {e} {s'}) = elim (Bool-cases (is_ws_error e)) [
  | inl caught ↦ rw caught breaks
  | inr passed ↦ rw passed breaks
]

turn-Turns :
    (py : Python) (started : Bool) (message : List ℕ) (frame : Frame)
    → Turns (turn py started message frame)
unfolding turn answer_close try_send
turn-Turns py started message frame =
    Turns-choose (frame.opcode == op_ping) (record { at = pong })
      (Turns-choose (frame.opcode == op_pong) (Turns-again started message) (
        Turns-choose (frame.opcode == op_close) (record { at = bye })
          (Turns-choose (frame.opcode == op_text || frame.opcode == op_binary)
            (Turns-choose started (Turns-raise nested_message)
              (keep_message-Turns frame.fin frame.payload))
            (Turns-choose (frame.opcode == op_cont)
              (Turns-choose started (keep_message-Turns frame.fin (message ++ frame.payload))
                (Turns-raise orphan_continuation))
              (Turns-raise (unknown_opcode frame.opcode))))))
  where
    pong :
        (s : Client)
        → Turned s ((send_frame py op_pong frame.payload >> pure (again started message)) s)
    pong s = after_pong started message s ((send_frame-Takes py op_pong frame.payload).at s)

    bye : (s : Client) → Turned s (answer_close py frame.payload s)
    bye s = after_close s ((send_frame-Takes py op_close (take 2 frame.payload)).at s)

-- What the loop comes to on a client whose deadline is set, or not.
pub data Returned (py : Python) (timed_out : Bool) : Outcome (Option Text) × Client → Type 0 where
  a_message :
      {s : Client} (message : List ℕ)
      → length message ≤ max_message_bytes
      → Returned py timed_out (ok (some (py.decode message)), s)
  nothing_yet : {s : Client} → Returned py timed_out (ok none, s)
  an_error : {e : WsError} {s : Client} → Returned py timed_out (err e, s)
  for_ever : {s : Client} → timed_out ≡ false → Returned py timed_out (waiting, s)

on_timeout-Returned :
    (py : Python) (timed_out started : Bool) (s : Client)
    → Returned py timed_out (on_timeout started (timeout, s))
unfolding on_timeout
on_timeout-Returned py timed_out true s = an_error
on_timeout-Returned py timed_out false s = nothing_yet

on_timeout-keeps :
    (py : Python) (timed_out started : Bool) {p : Outcome (Option Text) × Client}
    → Returned py timed_out p
    → Returned py timed_out (on_timeout started p)
unfolding on_timeout
on_timeout-keeps py timed_out started (a_message m h) = a_message m h
on_timeout-keeps py timed_out started nothing_yet = nothing_yet
on_timeout-keeps py timed_out started an_error = an_error
on_timeout-keeps py timed_out started (for_ever h) = for_ever h

next_frame-Left :
    (py : Python) (deadline : Option ℕ) (s : Client)
    → Left 2 (record s { deadline = deadline }) (next_frame py deadline s)
unfolding next_frame
next_frame-Left py deadline s =
    (Takes-bind {n = 0} {k = 2} (remaining-Takes py) (λ _. read_frame-Takes py)).at
      (record s { deadline = deadline })

-- One round of the loop, given what the rounds after it come to.
module _ (py : Python) (deadline : Option ℕ) (loop : Bool → List ℕ → M (Option Text)) (fuel : ℕ)
    (later : (b : Bool) (m : List ℕ) (s : Client)
      → size s < fuel
      → Returned py (is_some deadline) (loop b m s))
    (started : Bool) (message : List ℕ) (s : Client) (enough : size s < suc fuel) where
  turned :
      (s₁ : Client) {p : Outcome Turn × Client}
      → size s₁ + 2 ≤ size s
      → (is_some deadline ≡ true → timed s₁ ≡ true)
      → Turned s₁ p
      → Returned py (is_some deadline) (on_timeout started (then_do (follow py loop) p))
  turned s₁ le t (goes_on {started = b} {message = m} {s' = s₂} le' t') =
      on_timeout-keeps py (is_some deadline) started (later b m s₂ (omega arith))
  turned s₁ le t (is_complete {message = m} fits) =
      on_timeout-keeps py (is_some deadline) started (a_message m fits)
  turned s₁ le t breaks = on_timeout-keeps py (is_some deadline) started an_error
  turned s₁ le t (hangs u) =
      on_timeout-keeps py (is_some deadline) started (for_ever (ground (arith, t)))
  turned s₁ le t (expires {s'}) = on_timeout-Returned py (is_some deadline) started s'

  framed :
      {p : Outcome Frame × Client}
      → Left 2 (record s { deadline = deadline }) p
      → Returned py (is_some deadline) (
          on_timeout started
            (then_do (λ frame. turn py started message frame >>= follow py loop) p))
  framed (result {a = frame} {s' = s₁} le t) =
      turned s₁ le t ((turn-Turns py started message frame).at s₁)
  framed (late {s'}) = on_timeout-Returned py (is_some deadline) started s'
  framed (blocked u) = on_timeout-keeps py (is_some deadline) started (for_ever u)
  framed raised = on_timeout-keeps py (is_some deadline) started an_error

recv_loop-Returned :
    (py : Python) (fuel : ℕ) (deadline : Option ℕ) (started : Bool) (message : List ℕ) (s : Client)
    → size s < fuel
    → Returned py (is_some deadline) (recv_loop py fuel deadline started message s)
unfolding recv_loop
recv_loop-Returned py zero deadline started message s h = absurd (omega arith)
recv_loop-Returned py (suc fuel) deadline started message s h =
    framed py deadline (recv_loop py fuel deadline) fuel
      (λ b m s' h'. recv_loop-Returned py fuel deadline b m s' h') started message s h
      (next_frame-Left py deadline s)

-- On every connection recv_text ends, with the decoding of a message of at most 1048576 bytes,
-- with nothing, or with an exception other than TimeoutError; it blocks for ever only when it
-- was given no timeout.
pub recv_text-Returned :
    (py : Python) (span : Option ℕ) (s : Client) → Returned py (is_some span) (recv_text py span s)
unfolding recv_text
recv_text-Returned py none s = recv_loop-Returned py (patience s) none false [] s (omega arith)
recv_text-Returned py (some span) s =
    recv_loop-Returned py (patience s) (some (py.monotonic s.readings + span)) false []
      (record s { readings = suc s.readings }) (omega arith)
