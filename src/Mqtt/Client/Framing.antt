-- ===== src/Mqtt/Client/Framing.antt =====
-- Packets survive the stream, however it is cut into chunks.
use Prim.Native.Nat.{bit_and, bit_or}
use native.Mathlib.Nat.{mod-eq_of_lt, div-add-mod}
use mathlib.Core.List.{append_assoc}
use native.Mathlib.Numerals.{towards_suc}
use omarchy_hardware.Common.{
  ℕ, zero, suc, ◌+◌, ◌*◌, ◌/◌, ◌%◌, ◌^◌, ◌≤◌, ◌<◌, ◌≡◌, refl, ap, ◌==◌, leb, ltb, true, false, List,
  [], ◌∷◌, ◌++◌, length, arith, some, Bool-cases, Option-cases, inl, inr, ◌⊎◌, ◌∙◌,
}
use omarchy_hardware.Common.Bits.{bit_and_127, bit_and_128, bit_or_128, bit_or_disjoint}
use omarchy_hardware.Mqtt.Outcome.{Outcome, ok}
use omarchy_hardware.Mqtt.Wire.{encode_loop, of_fuel, encode_length, packet, max_remaining_length}
use omarchy_hardware.Mqtt.Client.Stream.{arriving, recv_exact-arriving, recv_byte-arriving}
use omarchy_hardware.Mqtt.Client.{Client, Recv, recv_exact, recv_byte, read_length, read_packet}

abbrev shifts : ℕ → ℕ → List ℕ
shifts zero j = []
shifts (suc k) j = j ∷ shifts k (j + 7)

two_pow_seven : (j : ℕ) → 2 ^ (j + 7) ≡ 128 * 2 ^ j
two_pow_seven j = simp towards_suc (omega arith)

-- The last byte of a length, and one before it.
last_group :
    (acc j n : ℕ) → n < 128 → acc < 2 ^ j → bit_or acc (bit_and n 0x7f * 2 ^ j) ≡ acc + n * 2 ^ j
last_group acc j n h a =
    rw (bit_and_127 n (omega arith), mod-eq_of_lt h) (bit_or_disjoint j acc n a)

inner_group :
    (acc j n : ℕ)
    → acc < 2 ^ j
    → bit_or acc (bit_and (bit_or (n % 128) 0x80) 0x7f * 2 ^ j) ≡ acc + n % 128 * 2 ^ j
inner_group acc j n a =
    rw (bit_or_128 (n % 128) (omega arith), bit_and_127 (n % 128 + 128) (omega arith), shift_out n)
      (bit_or_disjoint j acc (n % 128) a)
  where
    shift_out : (n : ℕ) → (n % 128 + 128) % 128 ≡ n % 128
    shift_out n = omega arith

inner_bound : (acc j n : ℕ) → acc < 2 ^ j → acc + n % 128 * 2 ^ j < 2 ^ (j + 7)
inner_bound acc j n a = rw two_pow_seven (grind arith)

regroup : (acc j n : ℕ) → acc + n % 128 * 2 ^ j + n / 128 * 2 ^ (j + 7) ≡ acc + n * 2 ^ j
regroup acc j n = omega (
  arith,
  ap (λ (t : ℕ). t * 2 ^ j) (div-add-mod n 128),
  ap (λ (t : ℕ). n / 128 * t) (two_pow_seven j),
)

encode_loop-cases :
    (k n : ℕ) (bytes : List ℕ)
    → encode_loop (suc k) n ≡ some bytes
    → ((n < 128) × (bytes ≡ n ∷ []))
      ⊎ ((bs : List ℕ) × (encode_loop k (n / 128) ≡ some bs) × (bytes ≡ bit_or (n % 128) 0x80 ∷ bs))
unfolding encode_loop
encode_loop-cases k n bytes h = elim (Bool-cases (n / 128 == 0)) [
  | inl e ↦ inl (ground arith, ground arith)
  | inr e ↦ elim (Option-cases (encode_loop k (n / 128))) [
    | inl none_left ↦ absurd (ground (arith, none_left))
    | inr (bs, more) ↦ inr (bs, more, ground (arith, more))
  ]
]

read_length_last :
    (b j acc : ℕ) (js : List ℕ) (s s' : Client)
    → recv_byte s ≡ (ok b, s')
    → bit_and b 0x80 ≡ 0
    → read_length (j ∷ js) acc s ≡ (ok (bit_or acc (bit_and b 0x7f * 2 ^ j)), s')
unfolding read_length
read_length_last b j acc js s s' r h = rw (r, h) refl

read_length_inner :
    (b j acc : ℕ) (js : List ℕ) (s s' : Client)
    → recv_byte s ≡ (ok b, s')
    → bit_and b 0x80 ≡ 128
    → read_length (j ∷ js) acc s ≡ read_length js (bit_or acc (bit_and b 0x7f * 2 ^ j)) s'
unfolding read_length
read_length_inner b j acc js s s' r h = rw (r, h) refl

top_bit_clear : (n : ℕ) → n < 128 → bit_and n 0x80 ≡ 0
top_bit_clear n h = rw (bit_and_128 n (omega arith)) (omega arith)

top_bit_set : (n : ℕ) → bit_and (bit_or (n % 128) 0x80) 0x80 ≡ 128
top_bit_set n =
    rw (bit_or_128 (n % 128) (omega arith), bit_and_128 (n % 128 + 128) (omega arith)) (omega arith)

-- `_read_packet`'s loop reads back what `_encode_length`'s loop wrote.
read_length-encode_loop :
    (k n acc j : ℕ) (bytes more : List ℕ) (s : Client)
    → encode_loop k n ≡ some bytes
    → acc < 2 ^ j
    → s.connected ≡ true
    → arriving s.inbox ≡ bytes ++ more
    → (inbox' : List Recv) × (read_length (shifts k j) acc s
        ≡ (ok (acc + n * 2 ^ j), record s { inbox = inbox' }))
      × (arriving inbox' ≡ more)
read_length-encode_loop zero n acc j bytes more s e a c h = unfold encode_loop in cc
read_length-encode_loop (suc k) n acc j bytes more s e a c h =
    elim (encode_loop-cases k n bytes e) [
      | inl (small, one) ↦
          let (inbox', r, rest) = recv_byte-arriving n more s c (rw one at h) in
          (
            inbox',
            rw (← last_group acc j n small a)
                (read_length_last n j acc _ s _ r (top_bit_clear n small)),
            rest,
          )
      | inr (bs, e', head) ↦
          let b = bit_or (n % 128) 0x80 in
          let (inbox', r, rest) = recv_byte-arriving b (bs ++ more) s c (rw head at h) in
          let (inbox'', r', rest') =
            read_length-encode_loop k (n / 128) (acc + n % 128 * 2 ^ j) (j + 7) bs more
              (record s { inbox = inbox' }) e' (inner_bound acc j n a) c rest in
          (
            inbox'',
            read_length_inner b j acc _ s _ r (top_bit_set n)
                ∙ rw (inner_group acc j n a)
                    (rw r' (ap (λ t. (ok t, record s { inbox = inbox'' })) (regroup acc j n))),
            rest',
          )
    ]

packet-cases :
    (header : ℕ) (body bytes : List ℕ)
    → packet header body ≡ ok bytes
    → (remaining : List ℕ) × (encode_loop 4 (length body) ≡ some remaining)
      × (bytes ≡ header ∷ (remaining ++ body))
unfolding packet encode_length of_fuel
packet-cases header body bytes h = elim (Bool-cases (leb (length body) max_remaining_length)) [
  | inl fits ↦ elim (Option-cases (encode_loop 4 (length body))) [
    | inl none_left ↦ absurd (ground (arith, none_left))
    | inr (remaining, e) ↦ (remaining, e, ground (arith, e))
  ]
  | inr large ↦ absurd (ground arith)
]

read_packet_steps :
    (header n : ℕ) (body : List ℕ) (s s1 s2 s3 : Client)
    → recv_byte s ≡ (ok header, s1)
    → read_length (shifts 4 0) 0 s1 ≡ (ok n, s2)
    → n ≤ s2.max_packet
    → recv_exact n s2 ≡ (ok body, s3)
    → read_packet s ≡ (ok (header, body), s3)
unfolding read_packet
read_packet_steps header n body s s1 s2 s3 r1 r2 fits r3 =
    rw (r1, r2, not_above s2.max_packet n fits, r3)
  where
    not_above : (m n : ℕ) → n ≤ m → ltb m n ≡ false
    not_above m n h = ground arith

-- On a connected client on which the bytes of a packet arrive first, cut into chunks in any
-- way, and whose body is within max_packet, read_packet returns the header and the body that
-- the packet was built from and leaves what follows unread.
pub read_packet-packet :
    (header : ℕ) (body bytes more : List ℕ) (s : Client)
    → packet header body ≡ ok bytes
    → length body ≤ s.max_packet
    → s.connected ≡ true
    → arriving s.inbox ≡ bytes ++ more
    → (inbox' : List Recv) × (read_packet s ≡ (ok (header, body), record s { inbox = inbox' }))
      × (arriving inbox' ≡ more)
read_packet-packet header body bytes more s p fits c h =
    let (remaining, e, split) = packet-cases header body bytes p in
    let (inbox1, r1, a1) =
      recv_byte-arriving header ((remaining ++ body) ++ more) s c (rw split at h) in
    let (inbox2, r2, a2) =
      read_length-encode_loop 4 (length body) 0 0 remaining (body ++ more)
        (record s { inbox = inbox1 }) e (omega arith) c (a1 ∙ append_assoc remaining body more) in
    let (inbox3, r3, a3) = recv_exact-arriving body more (record s { inbox = inbox2 }) c a2 in
    (
      inbox3,
      read_packet_steps header (length body) body s _ _ _ r1 (r2 ∙ total (length body) _) fits r3,
      a3,
    )
  where
    total : (n : ℕ) (s : Client) → ◌≡◌ {A = Outcome ℕ × Client} (ok (0 + n * 2 ^ 0), s) (ok n, s)
    total n s = ap (λ t. (ok t, s)) (omega arith)
