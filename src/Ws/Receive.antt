-- ===== src/Ws/Receive.antt =====
-- `recv_text` and `close` of mcp/omarchy_hardware/ws_lite.py.
pub mod Ends
pub mod Deadline
pub mod InTime
pub mod Fragments
pub mod Message
use omarchy_hardware.Common.{
  ℕ, zero, suc, ◌+◌, ◌*◌, ◌==◌, ltb, Bool, true, false, ◌||◌, Option, none, some, List, [], ◌∷◌,
  ◌++◌, length, take, if◌then◌else◌,
}
use omarchy_hardware.Common.Text.{Text}
use omarchy_hardware.Common.Words.{word}
use omarchy_hardware.Ws.Client.{
  WsError, Outcome, ok, timeout, waiting, stuck, err, closed, nested_message, orphan_continuation,
  unknown_opcode, oversized_message, stalled_message, unencodable, struct_error, Python, Client, M,
  then_do, ◌>>=◌, ◌>>◌, pure, raise, choose, clock, set_deadline, remaining,
}
use omarchy_hardware.Ws.Client.Takes.{size}
use omarchy_hardware.Ws.Frame.{
  max_message_bytes, op_cont, op_text, op_binary, op_close, op_ping, op_pong, send_frame, Frame,
  read_frame,
}

abbrev pub is_ws_error : WsError → Bool
is_ws_error unencodable = false
is_ws_error struct_error = false
is_ws_error _ = true

-- `try: ... except WsError: pass`
unfoldable pub ignore_ws_error : Outcome (Unit {0}) × Client → Outcome (Unit {0}) × Client
ignore_ws_error (err e, s) = (if is_ws_error e then ok tt else err e, s)
ignore_ws_error (ok a, s) = (ok a, s)
ignore_ws_error (timeout, s) = (timeout, s)
ignore_ws_error (waiting, s) = (waiting, s)
ignore_ws_error (stuck, s) = (stuck, s)

unfoldable pub try_send : Python → ℕ → List ℕ → M (Unit {0})
unfolding ignore_ws_error send_frame
try_send py opcode payload s = ignore_ws_error (send_frame py opcode payload s)

-- What a frame makes of the loop: it goes on with `started` and `message`, or returns.
pub data Turn : Type 0 where
  again : Bool → List ℕ → Turn
  complete : List ℕ → Turn

-- The test on the whole message, and `if fin`.
unfoldable pub keep_message : Bool → List ℕ → M Turn
keep_message fin message =
    choose (ltb max_message_bytes (length message)) (raise oversized_message)
      (pure (if fin then complete message else again true message))

unfoldable pub answer_close : Python → List ℕ → M Turn
unfolding try_send
answer_close py payload = try_send py op_close (take 2 payload) >> raise closed

unfoldable pub turn : Python → Bool → List ℕ → Frame → M Turn
unfolding send_frame answer_close keep_message
turn py started message frame =
    choose (frame.opcode == op_ping)
      (send_frame py op_pong frame.payload >> pure (again started message))
      (choose (frame.opcode == op_pong) (pure (again started message)) (
        choose (frame.opcode == op_close) (answer_close py frame.payload) (
          choose (frame.opcode == op_text || frame.opcode == op_binary)
            (choose started (raise nested_message) (keep_message frame.fin frame.payload))
            (choose (frame.opcode == op_cont)
              (choose started (keep_message frame.fin (message ++ frame.payload))
                (raise orphan_continuation))
              (raise (unknown_opcode frame.opcode))))))

-- `except TimeoutError`, with the value of `started` by then.
unfoldable pub on_timeout : Bool → Outcome (Option Text) × Client → Outcome (Option Text) × Client
on_timeout started (timeout, s) = (if started then err stalled_message else ok none, s)
on_timeout started (ok text, s) = (ok text, s)
on_timeout started (waiting, s) = (waiting, s)
on_timeout started (stuck, s) = (stuck, s)
on_timeout started (err e, s) = (err e, s)

unfoldable pub next_frame : Python → Option ℕ → M Frame
unfolding remaining read_frame
next_frame py deadline = set_deadline deadline >> (remaining py >> read_frame py)

abbrev pub follow : Python → (Bool → List ℕ → M (Option Text)) → Turn → M (Option Text)
follow py loop (again started message) = loop started message
follow py loop (complete message) = pure (some (py.decode message))

-- The `while` loop of `recv_text`, on fuel.
unfoldable pub recv_loop : Python → ℕ → Option ℕ → Bool → List ℕ → M (Option Text)
unfolding on_timeout next_frame turn
recv_loop py zero deadline started message s = (stuck, s)
recv_loop py (suc fuel) deadline started message s = on_timeout started (
    (next_frame py deadline >>= λ frame.
    turn py started message frame >>= follow py (recv_loop py fuel deadline))
      s)

abbrev pub patience : Client → ℕ
patience s = suc (size s)

abbrev deadline_in : Python → Option ℕ → M (Option ℕ)
deadline_in py none = pure none
deadline_in py (some span) = clock py >>= λ now. pure (some (now + span))

unfoldable pub recv_text : Python → (span : Option ℕ) → M (Option Text)
unfolding recv_loop
recv_text py span =
    deadline_in py span >>= λ deadline s. recv_loop py (patience s) deadline false [] s

-- The frame that `close` sends; the socket is closed after it, whatever becomes of it.
unfoldable pub close : Python → M (Unit {0})
unfolding try_send
close py = try_send py op_close (word 2 1000)
