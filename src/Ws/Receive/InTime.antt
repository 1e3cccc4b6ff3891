-- ===== src/Ws/Receive/InTime.antt =====
-- `recv_text` of mcp/omarchy_hardware/ws_lite.py ends in time by the clock.
use Prim.Native.Nat.{bit_or}
use omarchy_hardware.Common.{
  ℕ, zero, suc, ◌+◌, ◌≤◌, ◌<◌, ◌≡◌, refl, ◌==◌, arith, ltb, ◌||◌, Bool, true, false, Option, some,
  List, [], ◌∷◌, ◌++◌, length, take, sym, Bool-cases, inl, inr,
}
use mathlib.Core.Path.{subst}
use omarchy_hardware.Common.Text.{Text}
use omarchy_hardware.Ws.Client.{
  WsError, Outcome, ok, timeout, waiting, stuck, err, closed, nested_message, orphan_continuation,
  unknown_opcode, oversized_message, Python, Client, M, then_do, pure, raise, choose,
}
use omarchy_hardware.Ws.Frame.{
  max_message_bytes, op_cont, op_text, op_binary, op_close, op_ping, op_pong, length_field, masked,
  mask_bytes, hand_over, send_frame, Frame, lift, draw_mask,
}
use omarchy_hardware.Ws.Frame.Ends.{length_field-cases}
use omarchy_hardware.Ws.Receive.{
  is_ws_error, ignore_ws_error, Turn, again, complete, keep_message, answer_close, turn, on_timeout,
  try_send, next_frame, follow, recv_loop, patience, recv_text,
}
use omarchy_hardware.Ws.Receive.Ends.{Returned, recv_text-Returned}
use omarchy_hardware.Ws.Receive.Deadline

module _ (py : Python) (k at : ℕ) (past : (i : ℕ) → k ≤ i → at ≤ py.monotonic i) where
  abbrev Kept : {A : Type 0} → ℕ → Outcome A × Client → Type 0
  Kept m p = Deadline.Kept py k at past m p

  abbrev Keeps : {A : Type 0} → M A → Type 0
  Keeps op = Deadline.Keeps py k at past (k + 1) (k + 1) op

  Keeps-raise : {A : Type 0} (e : WsError) → Keeps {A = A} (raise e)
  Keeps-raise e = Deadline.Keeps-raise py k at past (k + 1) (k + 1) e (omega arith)

  unchanged : {A : Type 0} (a : A) → Keeps (pure a)
  unchanged a = Deadline.Keeps-pure py k at past (k + 1) a

  either :
      {A : Type 0} (b : Bool) {op other : M A} → Keeps op → Keeps other → Keeps (choose b op other)
  either b h g = Deadline.Keeps-choose py k at past b h g

  hand_over-Keeps : (bytes : List ℕ) (sends : List Bool) → Keeps (hand_over bytes sends)
  unfolding hand_over
  hand_over-Keeps bytes [] = record { run = λ s few d. (few, d) }
  hand_over-Keeps bytes (true ∷ rest) = record { run = λ s few d. (few, d) }
  hand_over-Keeps bytes (false ∷ rest) = record { run = λ s few d. omega (arith, few) }

  field-Keeps : (n : ℕ) → Keeps (lift (length_field n))
  field-Keeps n = elim (length_field-cases n) [
    | inl (field, e) ↦ rw e (unchanged field)
    | inr e ↦ rw e (Keeps-raise _)
  ]

  send_frame-Keeps : (opcode : ℕ) (payload : List ℕ) → Keeps (send_frame py opcode payload)
  unfolding send_frame
  send_frame-Keeps opcode payload =
      Deadline.Keeps-bind py k at past (field-Keeps (length payload)) λ field.
        Deadline.Keeps-bind py k at past {op = draw_mask py} (record { run = λ s few d. (few, d) })
          λ mask. record {
            run = λ s few d.
                (hand_over-Keeps
                    (bit_or 0x80 opcode ∷ (field ++ (mask_bytes mask ++ masked mask 0 payload)))
                    s.sends).run
                  s few d;
          }

  keep_message-Keeps : (fin : Bool) (message : List ℕ) → Keeps (keep_message fin message)
  unfolding keep_message
  keep_message-Keeps fin message =
      either (ltb max_message_bytes (length message)) (Keeps-raise oversized_message) (unchanged _)

  after_close :
      (p : Outcome (Unit {0}) × Client)
      → Kept (k + 1) p
      → Kept {A = Turn} (k + 1) (then_do (λ _. raise closed) (ignore_ws_error p))
  unfolding ignore_ws_error
  after_close (ok a, s) (few, d) = omega (arith, few)
  after_close (timeout, s) h = h
  after_close (waiting, s) h = h
  after_close (stuck, s) h = h
  after_close (err e, s) h = elim (Bool-cases (is_ws_error e)) [
    | inl caught ↦ rw caught h
    | inr passed ↦ rw passed h
  ]

  answer_close-Keeps : (payload : List ℕ) → Keeps (answer_close py payload)
  unfolding answer_close try_send
  answer_close-Keeps payload = record {
    run = λ s few d.
        after_close (send_frame py op_close (take 2 payload) s)
          ((send_frame-Keeps op_close (take 2 payload)).run s few d);
  }

  turn-Keeps :
      (started : Bool) (message : List ℕ) (frame : Frame) → Keeps (turn py started message frame)
  unfolding turn
  turn-Keeps started message frame =
      either (frame.opcode == op_ping)
        (Deadline.Keeps-bind py k at past (send_frame-Keeps op_pong frame.payload)
          λ _. unchanged (again started message))
        (either (frame.opcode == op_pong) (unchanged (again started message)) (
          either (frame.opcode == op_close) (answer_close-Keeps frame.payload) (
            either (frame.opcode == op_text || frame.opcode == op_binary)
              (either started (Keeps-raise nested_message)
                (keep_message-Keeps frame.fin frame.payload))
              (either (frame.opcode == op_cont)
                (either started (keep_message-Keeps frame.fin (message ++ frame.payload))
                  (Keeps-raise orphan_continuation))
                (Keeps-raise (unknown_opcode frame.opcode))))))

  on_timeout-same :
      (started : Bool) (p : Outcome (Option Text) × Client) → (on_timeout started p).1 ≡ p.1
  unfolding on_timeout
  on_timeout-same started (ok a, s) = refl
  on_timeout-same started (timeout, s) = refl
  on_timeout-same started (waiting, s) = refl
  on_timeout-same started (stuck, s) = refl
  on_timeout-same started (err e, s) = refl

  -- What is done with a result, or not.
  then_do-few :
      {A B : Type 0} (f : A → M B) (p : Outcome A × Client)
      → Kept (k + 1) p
      → ((a : A) (s : Client)
          → s.readings ≤ k + 1
          → Deadline.Due py k at past s.deadline
          → (f a s).1.readings ≤ k + 2)
      → (then_do f p).1.readings ≤ k + 2
  then_do-few f (ok a, s) (few, d) next = next a s few d
  then_do-few f (timeout, s) h next = h
  then_do-few f (waiting, s) h next = h
  then_do-few f (stuck, s) h next = h
  then_do-few f (err e, s) h next = h

  follow-few :
      (loop : Bool → List ℕ → M (Option Text))
      → ((b : Bool) (m : List ℕ) (s : Client)
          → s.readings ≤ k + 1
          → (loop b m s).1.readings ≤ k + 2)
      → (t : Turn) (s : Client) → s.readings ≤ k + 1
      → (follow py loop t s).1.readings ≤ k + 2
  follow-few loop h (again b m) s few = h b m s few
  follow-few loop h (complete m) s few = omega (arith, few)

  recv_loop-few :
      (fuel : ℕ) (started : Bool) (message : List ℕ) (s : Client)
      → s.readings ≤ k + 1
      → (recv_loop py fuel (some at) started message s).1.readings ≤ k + 2
  unfolding recv_loop
  recv_loop-few zero started message s few = omega (arith, few)
  recv_loop-few (suc fuel) started message s few =
      let loop = recv_loop py fuel (some at) in
      subst (λ (c : Client). c.readings ≤ k + 2) (sym (on_timeout-same started _))
        (then_do-few _ (next_frame py (some at) s) (Deadline.next_frame-Kept py k at past s few)
          λ frame s1 few1 due.
            then_do-few (follow py loop) (turn py started message frame s1)
              ((turn-Keeps started message frame).run s1 few1 due)
              λ t s2 few2 due2.
                follow-few loop (λ b m s few. recv_loop-few fuel b m s few) t s2 few2)

-- If recv_text is given a timeout, and the clock is at or past the deadline from one of its
-- later readings on, then the call reads the clock at most once more after that reading,
-- however much the server goes on sending, and comes to the decoding of a message of at most
-- 1048576 bytes, to nothing, or to an exception other than TimeoutError.
pub recv_text-in_time :
    (py : Python) (span k : ℕ) (s : Client)
    → s.readings < k
    → ((i : ℕ) → k ≤ i → py.monotonic s.readings + span ≤ py.monotonic i)
    → ((recv_text py (some span) s).1.readings ≤ k + 2)
      × Returned py true (recv_text py (some span) s)
unfolding recv_text
recv_text-in_time py span k s first past = (
  recv_loop-few py k (py.monotonic s.readings + span) past (patience s) false []
      (record s { readings = suc s.readings }) (omega (arith, first)),
  recv_text-Returned py (some span) s,
)
