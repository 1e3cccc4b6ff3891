-- ===== src/Ws/Receive/Fragments.antt =====
-- The frames of a message, read one by one, with pings and pongs anywhere between them.
use Prim.Native.Nat.{bit_or}
use mathlib.Core.List.{append_assoc}
use omarchy_hardware.Common.{
  ℕ, zero, suc, ◌+◌, ◌≤◌, ◌<◌, ◌≡◌, refl, arith, leb, ltb, Bool, true, false, Option, some, List,
  [], ◌∷◌, ◌++◌, length, length-append, if◌then◌else◌,
}
use omarchy_hardware.Common.Text.{Text}
use omarchy_hardware.Ws.Client.{
  raise, oversized_message, Python, M, ◌>>=◌, ◌>>◌, pure, set_deadline, remaining,
}
use omarchy_hardware.Ws.Client.Stream.{
  InTime, Delivers, Delivers-bind, Delivers-pure, Delivers-second, remaining-Delivers,
}
use omarchy_hardware.Ws.Frame.{
  max_message_bytes, op_cont, op_text, op_close, op_ping, op_pong, Frame, read_frame, send_frame,
  hand_over, length_field, mask_bytes, masked,
}
use omarchy_hardware.Ws.Frame.Reads.{Steady, server_frame, is_allowed, read_frame-Delivers}
use omarchy_hardware.Ws.Receive.{
  Turn, again, complete, keep_message, turn, on_timeout, next_frame, follow, recv_loop,
}

-- The bytes of what is left of a message, given whether it has begun: the payload that is still to
-- come, in frames, with control frames of at most 125 bytes anywhere before the last one.
pub data Fragments : Bool → List ℕ → List ℕ → Type 0 where
  ping :
      {begun : Bool} {payload bytes : List ℕ} (body : List ℕ)
      → length body ≤ 125
      → Fragments begun payload bytes
      → Fragments begun payload (server_frame true op_ping body ++ bytes)
  pong :
      {begun : Bool} {payload bytes : List ℕ} (body : List ℕ)
      → length body ≤ 125
      → Fragments begun payload bytes
      → Fragments begun payload (server_frame true op_pong body ++ bytes)
  opening :
      {payload bytes : List ℕ} (part : List ℕ)
      → Fragments true payload bytes
      → Fragments false (part ++ payload) (server_frame false op_text part ++ bytes)
  middle :
      {payload bytes : List ℕ} (part : List ℕ)
      → Fragments true payload bytes
      → Fragments true (part ++ payload) (server_frame false op_cont part ++ bytes)
  whole : (part : List ℕ) → Fragments false part (server_frame true op_text part)
  ending : (part : List ℕ) → Fragments true part (server_frame true op_cont part)

-- The whole payload, given what has been read of it.
abbrev whole_of : Bool → List ℕ → List ℕ → List ℕ
whole_of begun message payload = if begun then message ++ payload else payload

module _ {py : Python} (steady : Steady py) (deadline : Option ℕ)
    (in_time : InTime py deadline) where
  next_frame-Delivers :
      (fin : Bool) (opcode : ℕ) (payload more : List ℕ)
      → opcode < 16
      → is_allowed fin opcode (length payload) ≡ true
      → Delivers py
          (next_frame py deadline)
          (server_frame fin opcode payload ++ more)
          (record { fin = fin; opcode = opcode; payload = payload })
          more
  unfolding next_frame
  next_frame-Delivers fin opcode payload more code h =
      let bytes = server_frame fin opcode payload ++ more in
      Delivers-bind (λ _. remaining py >> read_frame py) (set bytes)
        (Delivers-bind (λ _. read_frame py) (remaining-Delivers py bytes)
          (read_frame-Delivers py fin opcode payload more steady code h))
    where
      set : (bytes : List ℕ) → Delivers py (set_deadline deadline) bytes tt bytes
      set bytes = record {
        at = λ s r. record {
          after = record s { deadline = deadline };
          run = refl;
          ready = record { in_time = in_time; sends = r.sends; arriving = r.arriving };
        };
      }

  -- One round of the loop.
  round :
      (fuel : ℕ) (begun : Bool) (message : List ℕ) (frame : Frame) (t : Turn) (text : Text)
      (bytes mid more : List ℕ)
      → Delivers py (next_frame py deadline) bytes frame mid
      → Delivers py (turn py begun message frame) mid t mid
      → Delivers py (follow py (recv_loop py fuel deadline) t) mid (some text) more
      → Delivers py (recv_loop py (suc fuel) deadline begun message) bytes (some text) more
  unfolding recv_loop on_timeout
  round fuel begun message frame t text bytes mid more h k l =
      let f : Frame → M (Option Text) =
        λ frame. turn py begun message frame >>= follow py (recv_loop py fuel deadline) in
      let whole = Delivers-bind f h (Delivers-bind (follow py (recv_loop py fuel deadline)) k l) in
      record {
        at = λ s r.
            let d = whole.at s r in
            record { after = d.after; run = rw d.run refl; ready = d.ready };
      }

send_frame-Delivers :
    {py : Python} (opcode : ℕ) (payload bytes : List ℕ)
    → length payload ≤ 125
    → Delivers py (send_frame py opcode payload) bytes tt bytes
unfolding send_frame length_field hand_over
send_frame-Delivers {py} opcode payload bytes h =
    let short : ltb (length payload) 126 ≡ true = ground arith in
    let bytes_of : (ℕ → ℕ) → List ℕ = λ mask.
      bit_or 0x80 opcode
      ∷ (bit_or 0x80 (length payload) ∷ (mask_bytes mask ++ masked mask 0 payload)) in
    record {
      at = λ s r. record {
        after = record s {
          sent = s.sent ++ bytes_of (λ i. py.urandom (s.drawn + i)) ∷ [];
          drawn = s.drawn + 4;
        };
        run = rw (short, r.sends) refl;
        ready = record { in_time = r.in_time; sends = r.sends; arriving = r.arriving };
      };
    }

keep_message-Delivers :
    {py : Python} (fin : Bool) (message bytes : List ℕ)
    → length message ≤ max_message_bytes
    → Delivers py
        (keep_message fin message)
        bytes
        (if fin then complete message else again true message)
        bytes
unfolding keep_message
keep_message-Delivers fin message bytes h =
    let fits : ltb max_message_bytes (length message) ≡ false = ground arith in
    Delivers-second (raise oversized_message) fits (Delivers-pure _ bytes)

control_allowed :
    (opcode n : ℕ) → n ≤ 125 → leb op_close opcode ≡ true → is_allowed true opcode n ≡ true
control_allowed opcode n h c = ground arith

data_allowed :
    (fin : Bool) (opcode n : ℕ)
    → n ≤ max_message_bytes
    → leb op_close opcode ≡ false
    → is_allowed fin opcode n ≡ true
data_allowed fin opcode n h c = ground arith

fewer :
    (fin : Bool) (opcode fuel : ℕ) (part bytes : List ℕ)
    → length (server_frame fin opcode part ++ bytes) < suc fuel
    → length bytes < fuel
fewer fin opcode fuel part bytes h =
    omega (arith, length-append (server_frame fin opcode part) bytes)

module _ {py : Python} (steady : Steady py) (deadline : Option ℕ)
    (in_time : InTime py deadline) where
  -- What the loop returns when the fragments that are left arrive.
  pub fragments-Delivers :
      (fuel : ℕ) (message more : List ℕ) {begun : Bool} {payload bytes : List ℕ}
      → Fragments begun payload bytes
      → length (whole_of begun message payload) ≤ max_message_bytes
      → length bytes < fuel
      → Delivers py
          (recv_loop py fuel deadline begun message)
          (bytes ++ more)
          (some (py.decode (whole_of begun message payload)))
          more
  unfolding turn
  fragments-Delivers zero message more f fits enough = absurd (omega arith)
  fragments-Delivers (suc fuel) message more (ping {begun} {payload} {bytes} body h f) fits enough =
      rw (append_assoc (server_frame true op_ping body) bytes more) (
        round steady deadline in_time fuel begun message _ (again begun message) _ _ _ more
          (next_frame-Delivers steady deadline in_time true op_ping body (bytes ++ more)
            (omega arith) (control_allowed op_ping (length body) h refl))
          (Delivers-bind (λ _. pure (again begun message))
            (send_frame-Delivers op_pong body (bytes ++ more) h) (Delivers-pure _ _))
          (fragments-Delivers fuel message more f fits (fewer true op_ping fuel body bytes enough)))
  fragments-Delivers (suc fuel) message more (pong {begun} {payload} {bytes} body h f) fits enough =
      rw (append_assoc (server_frame true op_pong body) bytes more) (
        round steady deadline in_time fuel begun message _ (again begun message) _ _ _ more
          (next_frame-Delivers steady deadline in_time true op_pong body (bytes ++ more)
            (omega arith) (control_allowed op_pong (length body) h refl))
          (Delivers-pure _ _)
          (fragments-Delivers fuel message more f fits (fewer true op_pong fuel body bytes enough)))
  fragments-Delivers (suc fuel) message more (opening {payload} {bytes} part f) fits enough =
      let small : length part ≤ max_message_bytes = omega (arith, length-append part payload) in
      rw (append_assoc (server_frame false op_text part) bytes more) (
        round steady deadline in_time fuel false message _ (again true part) _ _ _ more
          (next_frame-Delivers steady deadline in_time false op_text part (bytes ++ more)
            (omega arith) (data_allowed false op_text (length part) small refl))
          (keep_message-Delivers false part _ small)
          (fragments-Delivers fuel part more f fits (fewer false op_text fuel part bytes enough)))
  fragments-Delivers (suc fuel) message more (middle {payload} {bytes} part f) fits enough =
      let e = append_assoc message part payload in
      let total : length ((message ++ part) ++ payload) ≤ max_message_bytes = rw e fits in
      let grown : length (message ++ part) ≤ max_message_bytes =
        omega (arith, total, length-append (message ++ part) payload) in
      let small : length part ≤ max_message_bytes =
        omega (arith, grown, length-append message part) in
      rw (append_assoc (server_frame false op_cont part) bytes more, ← e)
        (round steady deadline in_time fuel true message _ (again true (message ++ part)) _ _ _ more
          (next_frame-Delivers steady deadline in_time false op_cont part (bytes ++ more)
            (omega arith) (data_allowed false op_cont (length part) small refl))
          (keep_message-Delivers false (message ++ part) _ grown)
          (fragments-Delivers fuel (message ++ part) more f total
            (fewer false op_cont fuel part bytes enough)))
  fragments-Delivers (suc fuel) message more (whole part) fits enough =
      round steady deadline in_time fuel false message _ (complete part) _ _ _ more
        (next_frame-Delivers steady deadline in_time true op_text part more (omega arith)
          (data_allowed true op_text (length part) fits refl))
        (keep_message-Delivers true part _ fits) (Delivers-pure _ _)
  fragments-Delivers (suc fuel) message more (ending part) fits enough =
      let small : length part ≤ max_message_bytes = omega (arith, length-append message part) in
      round steady deadline in_time fuel true message _ (complete (message ++ part)) _ _ _ more
        (next_frame-Delivers steady deadline in_time true op_cont part more (omega arith)
          (data_allowed true op_cont (length part) small refl))
        (keep_message-Delivers true (message ++ part) _ fits) (Delivers-pure _ _)
