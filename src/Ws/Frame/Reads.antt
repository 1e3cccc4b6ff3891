-- ===== src/Ws/Frame/Reads.antt =====
-- The client reads the frames that RFC 6455 lets a server send.
use Prim.Native.Nat.{bit_and}
use mathlib.Core.List.{append_assoc}
use omarchy_hardware.Common.{
  ℕ, suc, ◌+◌, ◌*◌, ◌^◌, ◌≤◌, ◌<◌, ◌≡◌, refl, arith, ◌==◌, leb, ltb, not, ◌&&◌, ◌||◌, Bool, true,
  false, Option, none, some, List, [], ◌∷◌, ◌++◌, length, Bool-cases, inl, inr, if◌then◌else◌,
}
use omarchy_hardware.Common.Bits.{everywhere, everywhere→at}
use omarchy_hardware.Common.Words.{word, value_of, value_of-word, length-word}
use omarchy_hardware.Ws.Client.{Python, M, ◌>>=◌, ◌>>◌, pure, recv_exact}
use omarchy_hardware.Ws.Client.Stream.{
  InTime, no_deadline, before, Delivers, Delivers-bind, Delivers-pure, Delivers-second,
  recv_exact-Delivers,
}
use omarchy_hardware.Ws.Frame.{
  max_message_bytes, frame_timeout, op_close, read_length, is_set, read_payload, read_rest,
  first_of, second_of, sooner, start_frame, timeout_as, stalled_halfway, rest_in_time, read_frame,
}

-- The second byte of an unmasked frame and the extended length.
abbrev pub server_length : ℕ → List ℕ
server_length n =
    if ltb n 126 then n ∷ [] else if ltb n 65536 then 126 ∷ word 2 n else 127 ∷ word 8 n

abbrev pub first_byte : Bool → ℕ → ℕ
first_byte fin opcode = (if fin then 128 else 0) + opcode

-- An unmasked frame with no reserved bit.
abbrev pub server_frame : Bool → ℕ → List ℕ → List ℕ
server_frame fin opcode payload =
    first_byte fin opcode ∷ (server_length (length payload) ++ payload)

-- What a frame must be for the client to take it: the size, and for a control frame more.
abbrev pub is_allowed : Bool → ℕ → ℕ → Bool
is_allowed fin opcode n =
    leb n max_message_bytes && not (leb op_close opcode && not (fin && leb n 125))

-- The clock does not advance by the time for a frame while the frames are read.
abbrev pub Steady : Python → Type 0
Steady py = (i j : ℕ) → py.monotonic j < py.monotonic i + frame_timeout * py.ticks_per_second

bits_of : Bool → ℕ → Bool
bits_of fin opcode =
    let byte = first_byte fin opcode in
    bit_and byte 0x70 == 0
    && (bit_and byte 0x0F == opcode
        && (is_set (bit_and byte 0x80) && fin || not (is_set (bit_and byte 0x80) || fin)))

bits_at :
    (fin : Bool) (opcode : ℕ)
    → opcode < 16
    → (bit_and (first_byte fin opcode) 0x70 ≡ 0)
      × (bit_and (first_byte fin opcode) 0x0F ≡ opcode)
      × (is_set (bit_and (first_byte fin opcode) 0x80) ≡ fin)
unfolding bits_of everywhere
bits_at true opcode h = ground (arith, everywhere→at (bits_of true) 16 opcode h refl)
bits_at false opcode h = ground (arith, everywhere→at (bits_of false) 16 opcode h refl)

unmasked : ℕ → Bool
unmasked n = bit_and n 0x80 == 0 && bit_and n 0x7F == n

unmasked-parts : (n : ℕ) → n < 128 → (bit_and n 0x80 ≡ 0) × (bit_and n 0x7F ≡ n)
unfolding unmasked everywhere
unmasked-parts n h = ground (arith, everywhere→at unmasked 128 n h refl)

-- The second byte tells how the length goes on.
record LengthRead (py : Python) (n : ℕ) : Type 0 where
  second : ℕ
  extended : List ℕ
  splits : server_length n ≡ second ∷ extended
  is_clear : bit_and second 0x80 ≡ 0
  reads :
      (more : List ℕ) → Delivers py (read_length py (bit_and second 0x7F)) (extended ++ more) n more

long_length :
    (py : Python) (n width : ℕ) (more : List ℕ)
    → n < 256 ^ width
    → Delivers py
        (recv_exact py width >>= λ bytes. pure (value_of 0 bytes))
        (word width n ++ more)
        n
        more
long_length py n width more h =
    Delivers-bind (λ bytes. pure (value_of 0 bytes))
      (rw (length-word width n) at (recv_exact-Delivers py (word width n) more))
      (rw (value_of-word width n h) (Delivers-pure n more))

length_read : (py : Python) (n : ℕ) → n ≤ max_message_bytes → LengthRead py n
unfolding read_length
length_read py n h = elim (Bool-cases (ltb n 126)) [
  | inl short ↦
      let (top, low) = unmasked-parts n (ground (arith, short)) in
      let not_126 : (n == 126) ≡ false = ground (arith, short) in
      let not_127 : (n == 127) ≡ false = ground (arith, short) in
      record {
        second = n;
        extended = [];
        splits = rw short refl;
        is_clear = top;
        reads = λ more.
            rw low (Delivers-second _ not_126 (Delivers-second _ not_127 (Delivers-pure n more)));
      }
  | inr long ↦ elim (Bool-cases (ltb n 65536)) [
    | inl fits ↦ record {
      second = 126;
      extended = word 2 n;
      splits = rw (long, fits) refl;
      is_clear = refl;
      reads = λ more. long_length py n 2 more (ground (arith, fits));
    }
    | inr large ↦ record {
      second = 127;
      extended = word 8 n;
      splits = rw (long, large) refl;
      is_clear = refl;
      reads = λ more. long_length py n 8 more (omega arith);
    }
  ]
]

read_payload-Delivers :
    (py : Python) (fin : Bool) (opcode : ℕ) (payload more : List ℕ)
    → is_allowed fin opcode (length payload) ≡ true
    → Delivers py
        (read_payload py fin opcode (length payload))
        (payload ++ more)
        (record { fin = fin; opcode = opcode; payload = payload })
        more
unfolding read_payload
read_payload-Delivers py fin opcode payload more h =
    let fits : ltb max_message_bytes (length payload) ≡ false = ground (arith, h) in
    let control : (leb op_close opcode && (not fin || ltb 125 (length payload))) ≡ false =
      ground (arith, h) in
    Delivers-second _ fits (
      Delivers-second _ control (
        Delivers-bind (λ bytes. pure (record { fin = fin; opcode = opcode; payload = bytes }))
          (recv_exact-Delivers py payload more) (Delivers-pure _ more)))

read_rest-Delivers :
    (py : Python) (fin : Bool) (opcode : ℕ) (payload more : List ℕ)
    → opcode < 16
    → is_allowed fin opcode (length payload) ≡ true
    → (l : LengthRead py (length payload))
    → Delivers py
        (read_rest py (first_byte fin opcode) l.second)
        (l.extended ++ (payload ++ more))
        (record { fin = fin; opcode = opcode; payload = payload })
        more
unfolding read_rest
read_rest-Delivers py fin opcode payload more code h l =
    let (reserved, low, top) = bits_at fin opcode code in
    rw (reserved, low, top, l.is_clear)
      (Delivers-bind (read_payload py fin opcode) (l.reads (payload ++ more))
        (read_payload-Delivers py fin opcode payload more h))

timeout_as-Delivers :
    {A : Type 0} {py : Python} {m : M A} {bytes more : List ℕ} {a : A}
    → Delivers py m bytes a more
    → Delivers py (λ s. timeout_as stalled_halfway (m s)) bytes a more
timeout_as-Delivers h = record {
  at = λ s r. let d = h.at s r in record { after = d.after; run = rw d.run refl; ready = d.ready };
}

start_frame-Delivers :
    (py : Python) (bytes : List ℕ) → Steady py → Delivers py (start_frame py) bytes tt bytes
unfolding start_frame
start_frame-Delivers py bytes steady = record {
  at = λ s r. record {
    after = record s {
      readings = suc s.readings;
      deadline =
          some (sooner s.deadline (py.monotonic s.readings + frame_timeout * py.ticks_per_second));
    };
    run = refl;
    ready = record {
      in_time = sooner-InTime s.deadline s.readings r.in_time;
      sends = r.sends;
      arriving = r.arriving;
    };
  };
}
  where
    sooner-InTime :
        (d : Option ℕ) (i : ℕ)
        → InTime py d
        → InTime py (some (sooner d (py.monotonic i + frame_timeout * py.ticks_per_second)))
    sooner-InTime none i no_deadline = before (steady i)
    sooner-InTime (some d) i (before h) = before (λ j. omega (arith, steady i j, h j))

-- A frame that a server may send, with an opcode of four bits, a payload within the limit, and,
-- for a control frame, final and of at most 125 bytes, is read to its parts, when its bytes arrive
-- in time on a client that can send, cut into chunks in any way; what follows is left unread.
pub read_frame-Delivers :
    (py : Python) (fin : Bool) (opcode : ℕ) (payload more : List ℕ)
    → Steady py
    → opcode < 16
    → is_allowed fin opcode (length payload) ≡ true
    → Delivers py
        (read_frame py)
        (server_frame fin opcode payload ++ more)
        (record { fin = fin; opcode = opcode; payload = payload })
        more
unfolding read_frame rest_in_time
read_frame-Delivers py fin opcode payload more steady code h =
    let l = length_read py (length payload) (ground (arith, h)) in
    let head = first_byte fin opcode ∷ l.second ∷ [] in
    let rest = l.extended ++ (payload ++ more) in
    let split : server_frame fin opcode payload ++ more ≡ head ++ rest =
      rw (l.splits, append_assoc) refl in
    rw split (
      Delivers-bind (λ head. start_frame py >> rest_in_time py (first_of head) (second_of head))
        (recv_exact-Delivers py head rest)
        (Delivers-bind (λ _. rest_in_time py (first_byte fin opcode) l.second)
          (start_frame-Delivers py rest steady)
          (timeout_as-Delivers (read_rest-Delivers py fin opcode payload more code h l))))
