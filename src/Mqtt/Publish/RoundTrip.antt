-- ===== src/Mqtt/Publish/RoundTrip.antt =====
-- What `publish` builds, `_parse_publish` reads back.
use Prim.Native.Nat.{bit_and}
use mathlib.Core.List.{append_assoc}
use omarchy_hardware.Common.{
  ℕ, zero, suc, ◌+◌, ◌/◌, ◌%◌, ◌≤◌, ◌<◌, ◌≡◌, refl, ap, ◌∙◌, ◌==◌, ltb, leb, leb→le, Bool, true,
  false, some, List, [], ◌∷◌, ◌++◌, length, take, drop, arith, length-append, take-append,
  drop-append, Bool-cases, Option-cases, inl, inr,
}
use omarchy_hardware.Common.Text.{Text}
use omarchy_hardware.Common.Utf8.{Utf8}
use omarchy_hardware.Mqtt.Outcome.{ok}
use omarchy_hardware.Mqtt.Wire.{packet, text_field, bytes_field, word_bytes, word_at}
use omarchy_hardware.Mqtt.Client.{Client, Recv, Message, ◌>>=◌, then_do, pure, send, read_packet}
use omarchy_hardware.Mqtt.Client.Stream.{arriving}
use omarchy_hardware.Mqtt.Client.Framing.{read_packet-packet}
use omarchy_hardware.Mqtt.Publish.{skip_packet_id, parse_publish, publish_header}

-- A field of `_string` is the length of the encoded text, then the encoded text.
text_field-cases :
    (u : Utf8) (t : Text) (field : List ℕ)
    → text_field u t ≡ ok field
    → (raw : List ℕ) × (u.encode t ≡ some raw)
      × (length raw ≤ 65535)
      × (field ≡ word_bytes (length raw) ++ raw)
unfolding text_field bytes_field
text_field-cases u t field h = elim (Option-cases (u.encode t)) [
  | inl e ↦ absurd (ground (arith, e))
  | inr (raw, e) ↦ elim (Bool-cases (leb (length raw) 65535)) [
    | inl fits ↦ (raw, e, leb→le _ _ fits, ground (arith, e))
    | inr large ↦ absurd (ground (arith, e))
  ]
]

word_at-word_bytes : (n : ℕ) (bs : List ℕ) → word_at (word_bytes n ++ bs) ≡ n
word_at-word_bytes n bs = omega arith

drop_two : {A : Type 0} (n : ℕ) (a b : A) (xs : List A) → drop (2 + n) (a ∷ b ∷ xs) ≡ drop n xs
drop_two n a b xs = let e : 2 + n ≡ suc (suc n) = omega arith in rw e

drop_add : {A : Type 0} (n k : ℕ) (xs : List A) → drop (n + k) xs ≡ drop k (drop n xs)
drop_add zero k xs = let e : 0 + k ≡ k = omega arith in rw e
drop_add (suc n) zero [] = let e : suc n + 0 ≡ suc n = omega arith in rw e
drop_add (suc n) (suc k) [] = let e : suc n + suc k ≡ suc (n + suc k) = omega arith in rw e
drop_add (suc n) k (x ∷ xs) =
    let e : suc n + k ≡ suc (n + k) = omega arith in rw e (drop_add n k xs)

header_fields :
    (qos : ℕ) (retain : Bool)
    → qos < 2
    → (bit_and (publish_header qos retain / 2) 3 ≡ qos)
      × ((bit_and (publish_header qos retain) 1 == 1) ≡ retain)
unfolding publish_header
header_fields zero false h = (refl, refl)
header_fields zero true h = (refl, refl)
header_fields (suc zero) false h = (refl, refl)
header_fields (suc zero) true h = (refl, refl)
header_fields (suc (suc n)) retain h = absurd (omega arith)

-- What the first part of `_parse_publish` finds in a body that begins with a field.
record BeginsWith (n : ℕ) (raw tail body : List ℕ) : Type 0 where
  size_of : word_at body ≡ n
  two : ltb (length body) 2 ≡ false
  room : ltb (length body) (2 + n) ≡ false
  text : take n (drop 2 body) ≡ raw
  rest : drop (2 + n) body ≡ tail
  whole : length body ≡ 2 + n + length tail

field-BeginsWith :
    (raw tail : List ℕ)
    → BeginsWith (length raw) raw tail ((word_bytes (length raw) ++ raw) ++ tail)
field-BeginsWith raw tail = record {
  size_of = word_at-word_bytes (length raw) (raw ++ tail);
  two = ground (arith, length-append raw tail);
  room = ground (arith, length-append raw tail);
  text = take-append raw tail;
  rest =
      drop_two (length raw) (length raw / 256) (length raw % 256) (raw ++ tail)
      ∙ drop-append raw tail;
  whole = omega (arith, length-append raw tail);
}

unfoldable pub message : Text → List ℕ → ℕ → Bool → Message
message topic payload qos retain = record {
  topic = topic;
  payload = payload;
  qos = qos;
  retain = retain;
}

parse_publish_steps :
    (u : Utf8) (kind n qos : ℕ) (retain : Bool) (raw tail body : List ℕ) (topic : Text) (s : Client)
    → qos < 2
    → bit_and (kind / 2) 3 ≡ qos
    → (bit_and kind 1 == 1) ≡ retain
    → BeginsWith n raw tail body
    → u.decode raw ≡ some topic
    → parse_publish u kind body s
      ≡ then_do
          (λ start. pure (message topic (drop start body) qos retain))
          (skip_packet_id qos (2 + n) body s)
unfolding parse_publish message
parse_publish_steps u kind n qos retain raw tail body topic s small q r b d =
    rw (q, r, b.size_of, b.two, b.room, b.text, d, not_three qos small)
  where
    not_three : (qos : ℕ) → qos < 2 → (qos == 3) ≡ false
    not_three qos h = ground arith

-- A PUBLISH at QoS 0 is parsed back to what was published, and nothing is sent or read.
parse_publish_qos0 :
    (u : Utf8) (topic : Text) (field payload : List ℕ) (retain : Bool) (s : Client)
    → text_field u topic ≡ ok field
    → parse_publish u (publish_header 0 retain) (field ++ payload) s
      ≡ (ok (message topic payload 0 retain), s)
parse_publish_qos0 u topic field payload retain s h =
    let (raw, e, small, split) = text_field-cases u topic field h in
    let (q, r) = header_fields 0 retain (omega arith) in
    let b = field-BeginsWith raw payload in
    rw split (
      parse_publish_steps u (publish_header 0 retain) (length raw) 0 retain raw payload _ topic s
        (omega arith) q r b (u.decode-encode topic raw e)
      ∙ unfold skip_packet_id in ap (λ p. (ok (message topic p 0 retain), s)) b.rest)

skip_packet_id_acknowledged :
    (n hi lo : ℕ) (raw payload body puback : List ℕ) (s s' : Client)
    → BeginsWith n raw (hi ∷ lo ∷ payload) body
    → packet 0x40 (hi ∷ lo ∷ []) ≡ ok puback
    → send puback s ≡ (ok tt, s')
    → skip_packet_id 1 (2 + n) body s ≡ (ok (2 + n + 2), s')
unfolding skip_packet_id
skip_packet_id_acknowledged n hi lo raw payload body puback s s' b p sent =
    rw (enough, b.rest, p, sent)
  where
    enough : ltb (length body) (2 + n + 2) ≡ false
    enough = ground (arith, b.whole)

drop_both :
    (n hi lo : ℕ) (raw payload body : List ℕ)
    → BeginsWith n raw (hi ∷ lo ∷ payload) body
    → drop (2 + n + 2) body ≡ payload
drop_both n hi lo raw payload body b = rw (drop_add (2 + n) 2 body, b.rest)

-- A QoS 1 publish is parsed back to its topic, payload and retain flag, and the client that
-- results is the one that has sent the PUBACK with the two bytes of its packet identifier.
pub parse_publish_qos1 :
    (u : Utf8) (topic : Text) (field payload puback : List ℕ) (hi lo : ℕ) (retain : Bool)
    (s s' : Client)
    → text_field u topic ≡ ok field
    → packet 0x40 (hi ∷ lo ∷ []) ≡ ok puback
    → send puback s ≡ (ok tt, s')
    → parse_publish u (publish_header 1 retain) ((field ++ (hi ∷ lo ∷ [])) ++ payload) s
      ≡ (ok (message topic payload 1 retain), s')
parse_publish_qos1 u topic field payload puback hi lo retain s s' h p sent =
    let (raw, e, small, split) = text_field-cases u topic field h in
    let (q, r) = header_fields 1 retain (omega arith) in
    let b = field-BeginsWith raw (hi ∷ lo ∷ payload) in
    rw (split, append_assoc)
      (parse_publish_steps u (publish_header 1 retain) (length raw) 1 retain raw (hi ∷ lo ∷ payload)
          _ topic s (omega arith) q r b (u.decode-encode topic raw e)
        ∙ rw (skip_packet_id_acknowledged (length raw) hi lo raw payload _ puback s s' b p sent) (
            ap (λ t. (ok (message topic t 1 retain), s'))
              (drop_both (length raw) hi lo raw payload _ b)))

-- A QoS 0 publish that arrives within max_packet on a connected client is read and parsed back
-- to its topic, payload and retain flag, with nothing of what follows taken.
pub receive-publish_qos0 :
    (u : Utf8) (topic : Text) (field payload bytes more : List ℕ) (retain : Bool) (s : Client)
    → text_field u topic ≡ ok field
    → packet (publish_header 0 retain) (field ++ payload) ≡ ok bytes
    → length (field ++ payload) ≤ s.max_packet
    → s.connected ≡ true
    → arriving s.inbox ≡ bytes ++ more
    → (inbox' : List Recv) × ((read_packet >>= λ p. parse_publish u p.0 p.1) s
        ≡ (ok (message topic payload 0 retain), record s { inbox = inbox' }))
      × (arriving inbox' ≡ more)
receive-publish_qos0 u topic field payload bytes more retain s f p fits c h =
    let (inbox', r, a) = read_packet-packet _ (field ++ payload) bytes more s p fits c h in
    (
      inbox',
      rw r (parse_publish_qos0 u topic field payload retain (record s { inbox = inbox' }) f),
      a,
    )
