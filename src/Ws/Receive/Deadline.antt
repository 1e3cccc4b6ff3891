-- ===== src/Ws/Receive/Deadline.antt =====
-- `recv_text` of mcp/omarchy_hardware/ws_lite.py and the clock: what a call still does once its
-- deadline has passed.
use Prim.Native.Nat.{bit_and}
use omarchy_hardware.Common.{
  ℕ, suc, ◌+◌, ◌≤◌, ◌<◌, ◌==◌, arith, leb, ltb, not, ◌&&◌, ◌||◌, Bool, true, false, Option, none,
  some, List, [], ◌∷◌, length, Bool-cases, inl, inr,
}
use omarchy_hardware.Ws.Client.{
  Recv, chunk, quiet, lost, eof, WsError, Outcome, ok, timeout, waiting, stuck, err,
  connection_lost, closed, reserved_bits, masked_frame, oversized_frame, invalid_control,
  stalled_halfway, Python, Client, M, then_do, ◌>>=◌, ◌>>◌, pure, raise, wait, time_out, choose,
  remaining_until, remaining, arrived, consumed, at_deadline, quietly, unless_filled, fill,
  take_out, recv_exact,
}
use omarchy_hardware.Ws.Frame.{
  max_message_bytes, op_close, is_set, read_length, read_payload, read_rest, timeout_as,
  rest_in_time, first_of, second_of, sooner, start_frame, read_frame,
}
use omarchy_hardware.Ws.Receive.{next_frame}

-- The clock is at `at` or past it from its reading `k` on.
module _ (py : Python) (k at : ℕ) (past : (i : ℕ) → k ≤ i → at ≤ py.monotonic i) where
  -- The deadline of the client is no later.
  abbrev pub Due : Option ℕ → Type 0
  Due none = ⊥
  Due (some d) = d ≤ at

  -- What an operation leaves: with a result at most `m` readings and such a deadline, and else one
  -- reading more than a frame that begins in time can take.
  abbrev pub Kept : {A : Type 0} → ℕ → Outcome A × Client → Type 0
  Kept m (ok a, s) = (s.readings ≤ m) × Due s.deadline
  Kept m (timeout, s) = s.readings ≤ k + 2
  Kept m (waiting, s) = s.readings ≤ k + 2
  Kept m (stuck, s) = s.readings ≤ k + 2
  Kept m (err e, s) = s.readings ≤ k + 2

  pub record Keeps {A : Type 0} (n m : ℕ) (op : M A) : Type 0 where
    pub run : (s : Client) → s.readings ≤ n → Due s.deadline → Kept m (op s)

  pub Kept-weaken : {A : Type 0} {m m' : ℕ} (p : Outcome A × Client) → m ≤ m' → Kept m p → Kept m' p
  Kept-weaken (ok a, s) le (h, d) = (omega (arith, h, le), d)
  Kept-weaken (timeout, s) le h = h
  Kept-weaken (waiting, s) le h = h
  Kept-weaken (stuck, s) le h = h
  Kept-weaken (err e, s) le h = h

  pub Keeps-weaken :
      {A : Type 0} {n n' m m' : ℕ} {op : M A} → n' ≤ n → m ≤ m' → Keeps n m op → Keeps n' m' op
  Keeps-weaken {op = op} fewer more h = record {
    run = λ s few d. Kept-weaken (op s) more (h.run s (omega (arith, few, fewer)) d);
  }

  pub Kept-bind :
      {A B : Type 0} {m m' : ℕ} (f : A → M B) (p : Outcome A × Client)
      → Kept m p
      → ((a : A) → Keeps m m' (f a))
      → Kept m' (then_do f p)
  Kept-bind f (ok a, s) (h, d) next = (next a).run s h d
  Kept-bind f (timeout, s) h next = h
  Kept-bind f (waiting, s) h next = h
  Kept-bind f (stuck, s) h next = h
  Kept-bind f (err e, s) h next = h

  pub Keeps-bind :
      {A B : Type 0} {n m m' : ℕ} {op : M A} {f : A → M B}
      → Keeps n m op
      → ((a : A) → Keeps m m' (f a))
      → Keeps n m' (op >>= f)
  Keeps-bind {op = op} {f} h next = record {
    run = λ s few d. Kept-bind f (op s) (h.run s few d) next;
  }

  pub Keeps-pure : {A : Type 0} (n : ℕ) (a : A) → Keeps n n (pure a)
  Keeps-pure n a = record { run = λ s few d. (few, d) }

  pub Keeps-raise : {A : Type 0} (n m : ℕ) (e : WsError) → n ≤ k + 2 → Keeps {A = A} n m (raise e)
  Keeps-raise n m e le = record { run = λ s few d. omega (arith, few, le) }

  pub Keeps-choose :
      {A : Type 0} {n m : ℕ} (b : Bool) {op other : M A}
      → Keeps n m op
      → Keeps n m other
      → Keeps n m (choose b op other)
  Keeps-choose true h g = record { run = λ s few d. h.run s few d }
  Keeps-choose false h g = record { run = λ s few d. g.run s few d }

  -- The clock is read, and the call goes on only if the reading comes before `k`.
  remaining-Keeps : Keeps (k + 1) k (remaining py)
  unfolding remaining
  remaining-Keeps = record { run = λ s few d. go s s.deadline few d d }
    where
      go :
          (s : Client) (deadline : Option ℕ)
          → s.readings ≤ k + 1
          → Due deadline
          → Due s.deadline
          → Kept k (remaining_until py deadline s)
      go s none few due kept = absurd due
      go s (some d) few due kept = elim (Bool-cases (leb d (py.monotonic s.readings))) [
        | inl e ↦ rw e (omega (arith, few))
        | inr e ↦
            let early : py.monotonic s.readings < d = ground (arith, e) in
            elim (Bool-cases (leb k s.readings)) [
              | inl later ↦
                  let passed = past s.readings (ground (arith, later)) in
                  absurd (omega (arith, early, passed, due))
              | inr sooner ↦
                  let before : suc s.readings ≤ k = ground (arith, sooner) in rw e (before, kept)
            ]
      ]

  unless_filled-Keeps :
      (n count : ℕ) {more : M (Unit {0})}
      → n ≤ k + 1
      → Keeps k n more
      → Keeps n n (unless_filled count (remaining py >> more))
  unless_filled-Keeps n count {more} le h = record {
    run = λ s few d. elim (Bool-cases (leb count (length s.buffer))) [
      | inl enough ↦ rw enough (few, d)
      | inr short ↦ rw short (
          Kept-bind (λ _. more) (remaining py s) (remaining-Keeps.run s (omega (arith, few, le)) d)
            (λ _. h))
    ];
  }

  quietly-Keeps : (n : ℕ) (on : M (Unit {0})) → Keeps k n (quietly time_out on)
  quietly-Keeps n on = record { run = λ s few d. go s s.deadline few d }
    where
      go :
          (s : Client) (deadline : Option ℕ)
          → s.readings ≤ k
          → Due deadline
          → Kept n (at_deadline time_out on deadline s)
      go s none few due = absurd due
      go s (some d) few due = omega (arith, few)

  fill-Keeps :
      (n count : ℕ) (inbox : List Recv) → k ≤ n → n ≤ k + 1 → Keeps n n (fill py count inbox)
  unfolding fill
  fill-Keeps n count [] low high = unless_filled-Keeps n count high (quietly-Keeps n wait)
  fill-Keeps n count (chunk b bs ∷ inbox) low high = unless_filled-Keeps n count high (
      Keeps-bind {op = arrived (b ∷ bs) inbox} (record { run = λ s few d. (few, d) })
        λ _. Keeps-weaken low (omega arith) (fill-Keeps n count inbox low high))
  fill-Keeps n count (quiet ∷ inbox) low high = unless_filled-Keeps n count high (
      Keeps-bind {op = consumed inbox} (record { run = λ s few d. (few, d) })
        λ _. quietly-Keeps n (fill py count inbox))
  fill-Keeps n count (lost ∷ inbox) low high = unless_filled-Keeps n count high (
      Keeps-bind {op = consumed inbox} (record { run = λ s few d. (few, d) })
        λ _. Keeps-raise k n connection_lost (omega arith))
  fill-Keeps n count (eof ∷ inbox) low high =
      unless_filled-Keeps n count high (Keeps-raise k n closed (omega arith))

  recv_exact-Keeps : (n count : ℕ) → k ≤ n → n ≤ k + 1 → Keeps n n (recv_exact py count)
  unfolding recv_exact
  recv_exact-Keeps n count low high = record {
    run = λ s few d.
        Kept-bind (λ _. take_out count) (fill py count s.inbox s)
          ((fill-Keeps n count s.inbox low high).run s few d)
          (λ _. record { run = λ s few d. (few, d) });
  }

  read_length-Keeps : (n : ℕ) → Keeps (k + 1) (k + 1) (read_length py n)
  unfolding read_length
  read_length-Keeps n =
      Keeps-choose (n == 126)
        (Keeps-bind (recv_exact-Keeps (k + 1) 2 (omega arith) (omega arith))
          λ bytes. Keeps-pure (k + 1) _)
        (Keeps-choose (n == 127)
          (Keeps-bind (recv_exact-Keeps (k + 1) 8 (omega arith) (omega arith))
            λ bytes. Keeps-pure (k + 1) _)
          (Keeps-pure (k + 1) n))

  read_payload-Keeps :
      (fin : Bool) (opcode n : ℕ) → Keeps (k + 1) (k + 1) (read_payload py fin opcode n)
  unfolding read_payload
  read_payload-Keeps fin opcode n =
      Keeps-choose (ltb max_message_bytes n)
        (Keeps-raise (k + 1) (k + 1) oversized_frame (omega arith))
        (Keeps-choose (leb op_close opcode && (not fin || ltb 125 n))
          (Keeps-raise (k + 1) (k + 1) invalid_control (omega arith))
          (Keeps-bind (recv_exact-Keeps (k + 1) n (omega arith) (omega arith))
            λ payload. Keeps-pure (k + 1) _))

  read_rest-Keeps : (first second : ℕ) → Keeps (k + 1) (k + 1) (read_rest py first second)
  unfolding read_rest
  read_rest-Keeps first second =
      Keeps-choose (is_set (bit_and first 0x70))
        (Keeps-raise (k + 1) (k + 1) reserved_bits (omega arith))
        (Keeps-choose (is_set (bit_and second 0x80))
          (Keeps-raise (k + 1) (k + 1) masked_frame (omega arith))
          (Keeps-bind (read_length-Keeps (bit_and second 0x7F))
            λ n. read_payload-Keeps (is_set (bit_and first 0x80)) (bit_and first 0x0F) n))

  timeout_as-Kept :
      {A : Type 0} (m : ℕ) (e : WsError) (p : Outcome A × Client)
      → Kept m p
      → Kept m (timeout_as e p)
  timeout_as-Kept m e (ok a, s) h = h
  timeout_as-Kept m e (timeout, s) h = h
  timeout_as-Kept m e (waiting, s) h = h
  timeout_as-Kept m e (stuck, s) h = h
  timeout_as-Kept m e (err x, s) h = h

  -- The one reading that is not compared with the deadline.
  start_frame-Keeps : Keeps k (k + 1) (start_frame py)
  unfolding start_frame
  start_frame-Keeps = record { run = λ s few d. (omega (arith, few), go s.deadline _ d) }
    where
      go : (deadline : Option ℕ) (other : ℕ) → Due deadline → Due (some (sooner deadline other))
      go none other due = absurd due
      go (some d) other due = ground (arith, due)

  read_frame-Keeps : Keeps k (k + 1) (read_frame py)
  unfolding read_frame rest_in_time
  read_frame-Keeps = Keeps-bind (recv_exact-Keeps k 2 (omega arith) (omega arith)) λ head.
      Keeps-bind start_frame-Keeps λ _. record {
        run = λ s few d.
            timeout_as-Kept (k + 1) stalled_halfway
              (read_rest py (first_of head) (second_of head) s)
              ((read_rest-Keeps (first_of head) (second_of head)).run s few d);
      }

  pub next_frame-Kept : (s : Client) → s.readings ≤ k + 1 → Kept (k + 1) (next_frame py (some at) s)
  unfolding next_frame
  next_frame-Kept s few =
      (Keeps-bind remaining-Keeps λ _. read_frame-Keeps).run (record s { deadline = some at }) few
        (omega arith)
