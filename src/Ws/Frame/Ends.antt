-- ===== src/Ws/Frame/Ends.antt =====
-- Reading a frame ends, and takes two bytes off the stream at least.
use Prim.Native.Nat.{bit_and, bit_or}
use omarchy_hardware.Common.{
  ℕ, suc, ◌^◌, ◌≤◌, ◌≡◌, ◌⊎◌, refl, sym, ◌∙◌, arith, ◌==◌, leb, ltb, not, ◌&&◌, ◌||◌, Bool, true,
  false, Option, none, some, List, [], ◌∷◌, ◌++◌, length, length-append, length-drop, is_some,
  Bool-cases, inl, inr,
}
use omarchy_hardware.Common.Words.{word}
use omarchy_hardware.Ws.Client.{
  Recv, chunk, quiet, lost, eof, Outcome, ok, timeout, waiting, err, reserved_bits, masked_frame,
  oversized_frame, invalid_control, WsError, connection_lost, closed, struct_error, Python, Client,
  M, ◌>>◌, then_do, raise, wait, time_out, remaining_until, remaining, arrived, consumed,
  at_deadline, quietly, unless_filled, fill, take_out, recv_exact,
}
use omarchy_hardware.Ws.Client.Takes.{
  size, timed, Left, result, late, blocked, raised, Takes, Takes-weaken, Takes-pure, Takes-raise,
  Takes-choose, Takes-bind,
}
use omarchy_hardware.Ws.Frame.{
  max_message_bytes, op_close, is_set, read_length, read_payload, read_rest, timeout_as,
  stalled_halfway, rest_in_time, first_of, second_of, start_frame, read_frame, length_field, masked,
  mask_bytes, hand_over, send_frame, lift, draw_mask,
}

-- `_remaining` reads the clock at most, and times out or lets pass.
pub remaining-cases :
    (py : Python) (s : Client)
    → (r : ℕ) × ((remaining py s ≡ (timeout, record s { readings = r }))
        ⊎ (remaining py s ≡ (ok tt, record s { readings = r })))
unfolding remaining
remaining-cases py s = go s.deadline
  where
    go :
        (d : Option ℕ)
        → (r : ℕ) × ((remaining_until py d s ≡ (timeout, record s { readings = r }))
            ⊎ (remaining_until py d s ≡ (ok tt, record s { readings = r })))
    go none = (s.readings, inr refl)
    go (some d) = elim (Bool-cases (leb d (py.monotonic s.readings))) [
      | inl e ↦ (suc s.readings, inl (rw e refl))
      | inr e ↦ (suc s.readings, inr (rw e refl))
    ]

pub remaining-Takes : (py : Python) → Takes 0 (remaining py)
remaining-Takes py = record {
  at = λ s.
      let (r, left) = remaining-cases py s in
      elim left [ inl e ↦ rw e late | inr e ↦ rw e (result (omega arith) (λ t. t)) ];
}

-- What the loop on `inbox` leaves of the state `s`: nothing was added, and there are `count` bytes.
data Filled (count : ℕ) (s : Client) : Outcome (Unit {0}) × Client → Type 0 where
  filled :
      {s' : Client}
      → size s' ≤ size s
      → timed s' ≡ timed s
      → count ≤ length s'.buffer
      → Filled count s (ok tt, s')
  missed : {s' : Client} → Filled count s (timeout, s')
  waited : {s' : Client} → timed s ≡ false → Filled count s (waiting, s')
  failed : {e : WsError} {s' : Client} → Filled count s (err e, s')

Filled-turn :
    (py : Python) (count : ℕ) (k : M (Unit {0})) (s : Client)
    → ((r : ℕ) → Filled count s (k (record s { readings = r })))
    → Filled count s (unless_filled count (remaining py >> k) s)
Filled-turn py count k s h = elim (Bool-cases (leb count (length s.buffer))) [
  | inl enough ↦ rw enough (filled (omega arith) refl (ground arith))
  | inr short ↦
      let (r, left) = remaining-cases py s in
      elim left [ inl e ↦ rw (short, e) missed | inr e ↦ rw (short, e) (h r) ]
]

Filled-since :
    (count : ℕ) (s s₀ : Client) {p : Outcome (Unit {0}) × Client}
    → size s ≡ size s₀
    → timed s ≡ timed s₀
    → Filled count s p
    → Filled count s₀ p
Filled-since count s s₀ e t (filled h u k) = filled (omega arith) (u ∙ t) k
Filled-since count s s₀ e t missed = missed
Filled-since count s s₀ e t (waited h) = waited (sym t ∙ h)
Filled-since count s s₀ e t failed = failed

quietly-Filled :
    (count : ℕ) (s₀ : Client) (on : M (Unit {0})) (s : Client)
    → (timed s ≡ false → Filled count s₀ (on s))
    → Filled count s₀ (quietly time_out on s)
quietly-Filled count s₀ on s k = go s.deadline k
  where
    go :
        (d : Option ℕ)
        → (is_some d ≡ false → Filled count s₀ (on s))
        → Filled count s₀ (at_deadline time_out on d s)
    go none k = k refl
    go (some d) k = missed

fill-Filled :
    (py : Python) (count : ℕ) (inbox : List Recv) (s : Client)
    → s.inbox ≡ inbox
    → Filled count s (fill py count inbox s)
unfolding fill
fill-Filled py count [] s e =
    Filled-turn py count (quietly time_out wait) s
      λ r. quietly-Filled count s wait (record s { readings = r }) waited
fill-Filled py count (chunk b bs ∷ inbox) s e =
    Filled-turn py count (arrived (b ∷ bs) inbox >> fill py count inbox) s
      λ r. Filled-since count (after r) s (grown r) refl (fill-Filled py count inbox (after r) refl)
  where
    after : ℕ → Client
    after r = record s { readings = r; buffer = s.buffer ++ (b ∷ bs); inbox = inbox }

    grown : (r : ℕ) → size (after r) ≡ size s
    grown r = rw e (omega (arith, length-append s.buffer (b ∷ bs)))
fill-Filled py count (quiet ∷ inbox) s e =
    Filled-turn py count (consumed inbox >> quietly time_out (fill py count inbox)) s λ r.
      let after : Client = record s { readings = r; inbox = inbox } in
      quietly-Filled count s (fill py count inbox) after
        λ _. Filled-since count after s (rw e refl) refl (fill-Filled py count inbox after refl)
fill-Filled py count (lost ∷ inbox) s e =
    Filled-turn py count (consumed inbox >> raise connection_lost) s λ r. failed
fill-Filled py count (eof ∷ inbox) s e = Filled-turn py count (raise closed) s λ r. failed

take_out-Left :
    (count : ℕ) (s : Client) {p : Outcome (Unit {0}) × Client}
    → Filled count s p
    → Left count s (then_do (λ _. take_out count) p)
take_out-Left count s (filled {s'} h t k) =
    result (omega (arith, length-drop count s'.buffer)) (λ e. t ∙ e)
take_out-Left count s missed = late
take_out-Left count s (waited h) = blocked h
take_out-Left count s failed = raised

pub recv_exact-Takes : (py : Python) (count : ℕ) → Takes count (recv_exact py count)
unfolding recv_exact
recv_exact-Takes py count = record {
  at = λ s. take_out-Left count s (fill-Filled py count s.inbox s refl);
}

read_length-Takes : (py : Python) (n : ℕ) → Takes 0 (read_length py n)
unfolding read_length
read_length-Takes py n =
    Takes-choose (n == 126)
      (Takes-weaken 0 (omega arith) (Takes-bind (recv_exact-Takes py 2) λ bs. Takes-pure _))
      (Takes-choose (n == 127)
        (Takes-weaken 0 (omega arith) (Takes-bind (recv_exact-Takes py 8) λ bs. Takes-pure _))
        (Takes-pure n))

read_payload-Takes :
    (py : Python) (fin : Bool) (opcode n : ℕ) → Takes 0 (read_payload py fin opcode n)
unfolding read_payload
read_payload-Takes py fin opcode n =
    Takes-choose (ltb max_message_bytes n) (Takes-raise 0 oversized_frame) (
      Takes-choose (leb op_close opcode && (not fin || ltb 125 n)) (Takes-raise 0 invalid_control)
        (Takes-weaken 0 (omega arith) (Takes-bind (recv_exact-Takes py n) λ bs. Takes-pure _)))

read_rest-Takes : (py : Python) (first second : ℕ) → Takes 0 (read_rest py first second)
unfolding read_rest
read_rest-Takes py first second =
    Takes-choose (is_set (bit_and first 0x70)) (Takes-raise 0 reserved_bits) (
      Takes-choose (is_set (bit_and second 0x80)) (Takes-raise 0 masked_frame) (
        Takes-bind {n = 0} {k = 0} (read_length-Takes py (bit_and second 0x7F))
          λ n. read_payload-Takes py (is_set (bit_and first 0x80)) (bit_and first 0x0F) n))

timeout_as-Left :
    {A : Type 0} (n : ℕ) (s : Client) (e : WsError) {p : Outcome A × Client}
    → Left n s p
    → Left n s (timeout_as e p)
timeout_as-Left n s e (result h u) = result h u
timeout_as-Left n s e late = raised
timeout_as-Left n s e (blocked h) = blocked h
timeout_as-Left n s e raised = raised

rest_in_time-Takes : (py : Python) (first second : ℕ) → Takes 0 (rest_in_time py first second)
unfolding rest_in_time
rest_in_time-Takes py first second = record {
  at = λ s. timeout_as-Left 0 s stalled_halfway ((read_rest-Takes py first second).at s);
}

start_frame-Takes : (py : Python) → Takes 0 (start_frame py)
unfolding start_frame
start_frame-Takes py = record { at = λ s. result (omega arith) (λ e. refl) }

pub read_frame-Takes : (py : Python) → Takes 2 (read_frame py)
unfolding read_frame
read_frame-Takes py = Takes-bind {n = 2} {k = 0} (recv_exact-Takes py 2) λ head.
    Takes-bind {n = 0} {k = 0} (start_frame-Takes py)
      λ _. rest_in_time-Takes py (first_of head) (second_of head)

-- The header and the masked payload are there, or `struct.error` is.
pub length_field-cases :
    (n : ℕ) → ((field : List ℕ) × (length_field n ≡ ok field)) ⊎ (length_field n ≡ err struct_error)
unfolding length_field
length_field-cases n = elim (Bool-cases (ltb n 126)) [
  | inl short ↦ inl (bit_or 0x80 n ∷ [], rw short refl)
  | inr long ↦ elim (Bool-cases (ltb n (2 ^ 16))) [
    | inl fits ↦ inl (bit_or 0x80 126 ∷ word 2 n, rw (long, fits) refl)
    | inr large ↦ elim (Bool-cases (ltb n (2 ^ 64))) [
      | inl packs ↦ inl (bit_or 0x80 127 ∷ word 8 n, rw (long, large, packs) refl)
      | inr huge ↦ inr (rw (long, large, huge) refl)
    ]
  ]
]

hand_over-Takes : (bytes : List ℕ) (sends : List Bool) → Takes 0 (hand_over bytes sends)
unfolding hand_over
hand_over-Takes bytes [] = record { at = λ s. result (omega arith) (λ e. e) }
hand_over-Takes bytes (true ∷ rest) = record { at = λ s. result (omega arith) (λ e. e) }
hand_over-Takes bytes (false ∷ rest) = record { at = λ s. raised }

draw_mask-Takes : (py : Python) → Takes 0 (draw_mask py)
draw_mask-Takes py = record { at = λ s. result (omega arith) (λ e. e) }

field-Takes : (n : ℕ) → Takes 0 (lift (length_field n))
field-Takes n = elim (length_field-cases n) [
  | inl (field, e) ↦ rw e (Takes-pure field)
  | inr e ↦ rw e (Takes-raise 0 struct_error)
]

pub send_frame-Takes :
    (py : Python) (opcode : ℕ) (payload : List ℕ) → Takes 0 (send_frame py opcode payload)
unfolding send_frame
send_frame-Takes py opcode payload =
    Takes-bind {n = 0} {k = 0} (field-Takes (length payload)) λ field.
      Takes-bind {n = 0} {k = 0} (draw_mask-Takes py) λ mask. record {
        at = λ s.
            (hand_over-Takes
                (bit_or 0x80 opcode ∷ (field ++ (mask_bytes mask ++ masked mask 0 payload)))
                s.sends).at
              s;
      }
