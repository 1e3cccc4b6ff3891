-- ===== src/Mqtt/Client/Progress.antt =====
-- Reading a packet ends, and takes something off the stream.
mod Rules
pub use Rules.*
use Prim.Native.Nat.{bit_and}
use omarchy_hardware.Common.{
  ℕ, zero, suc, ◌+◌, ◌≤◌, ◌≡◌, ◌≢◌, refl, List, [], ◌∷◌, length, arith, ◌==◌, ltb, Bool, true,
  false, if◌then◌else◌,
}
use omarchy_hardware.Common.Text.{Text}
use omarchy_hardware.Common.Utf8.{Utf8}
use omarchy_hardware.Mqtt.Wire.{packet, text_field, pack_word}
use omarchy_hardware.Mqtt.Wire.Length.{packet-ne-stuck, text_field-ne-stuck, pack_word-ne-stuck}
use omarchy_hardware.Mqtt.Outcome.{
  MqttError, Outcome, ok, timeout, err, stuck, bad_length, oversized,
}
use omarchy_hardware.Mqtt.Client.{
  Client, M, Recv, chunk, late, lost, eof, put_back, size, recv_loop, recv_exact, recv_byte,
  read_length, hand_over, send, packet_id, read_packet, ◌>>=◌, then_do, pure, raise, gets, lift,
  first, timeout_as, on_timeout,
}

size-put_back :
    (b : ℕ) (bs : List ℕ) (inbox : List Recv)
    → suc (size (put_back bs inbox)) ≡ size (chunk b bs ∷ inbox)
size-put_back b [] inbox = omega arith
size-put_back b (c ∷ cs) inbox = omega arith

recv_loop-ne-stuck : (n : ℕ) (inbox : List Recv) → (recv_loop n inbox).0 ≢ stuck
unfolding recv_loop
recv_loop-ne-stuck zero inbox = λ e. cc
recv_loop-ne-stuck (suc n) [] = λ e. cc
recv_loop-ne-stuck (suc n) (late ∷ inbox) = λ e. cc
recv_loop-ne-stuck (suc n) (lost ∷ inbox) = λ e. cc
recv_loop-ne-stuck (suc n) (eof ∷ inbox) = λ e. cc
recv_loop-ne-stuck (suc n) (chunk b bs ∷ inbox) =
    ground (arith, recv_loop-ne-stuck n (put_back bs inbox))

recv_loop-shrinks : (n : ℕ) (inbox : List Recv) → size (recv_loop n inbox).1 ≤ size inbox
unfolding recv_loop
recv_loop-shrinks zero inbox = omega arith
recv_loop-shrinks (suc n) [] = omega arith
recv_loop-shrinks (suc n) (late ∷ inbox) = omega arith
recv_loop-shrinks (suc n) (lost ∷ inbox) = omega arith
recv_loop-shrinks (suc n) (eof ∷ inbox) = omega arith
recv_loop-shrinks (suc n) (chunk b bs ∷ inbox) =
    ground (arith, recv_loop-shrinks n (put_back bs inbox), size-put_back b bs inbox)

recv_loop-takes :
    (n : ℕ) (inbox : List Recv) (bs : List ℕ)
    → (recv_loop n inbox).0 ≡ ok bs
    → (size (recv_loop n inbox).1 + n ≤ size inbox) × (length bs ≡ n)
unfolding recv_loop
recv_loop-takes zero inbox bs h = (omega arith, ground arith)
recv_loop-takes (suc n) [] bs h = cc
recv_loop-takes (suc n) (late ∷ inbox) bs h = cc
recv_loop-takes (suc n) (lost ∷ inbox) bs h = cc
recv_loop-takes (suc n) (eof ∷ inbox) bs h = cc
recv_loop-takes (suc n) (chunk b cs ∷ inbox) [] h = ground arith
recv_loop-takes (suc n) (chunk b cs ∷ inbox) (c ∷ bs) h =
    ground (arith, recv_loop-takes n (put_back cs inbox) bs, size-put_back b cs inbox)

recv_exact-Takes : (n : ℕ) → Takes n (recv_exact n)
unfolding recv_exact
recv_exact-Takes n = record {
  ends = λ s. ground (arith, recv_loop-ne-stuck n s.inbox);
  shrinks = λ s. ground (arith, recv_loop-shrinks n s.inbox);
  takes = λ s bs h. ground (arith, recv_loop-takes n s.inbox bs);
}

recv_byte-Takes : Takes 1 recv_byte
unfolding recv_byte
recv_byte-Takes = Takes-bind (recv_exact-Takes 1) (λ bs. Takes-pure (first bs))

read_length-Takes : (shifts : List ℕ) (n : ℕ) → Takes 0 (read_length shifts n)
unfolding read_length
read_length-Takes [] n = Takes-raise 0 bad_length
read_length-Takes (shift ∷ shifts) n = Takes-weaken 0 (omega arith) (
    Takes-bind recv_byte-Takes
      λ b. Takes-if (bit_and b 0x80 == 0) (Takes-pure _) (read_length-Takes shifts _))

pub read_packet-Takes : Takes 1 read_packet
unfolding read_packet
read_packet-Takes = Takes-bind {n = 1} {k = 0} recv_byte-Takes λ header.
    Takes-bind {n = 0} {k = 0} (read_length-Takes _ 0) λ n.
      Takes-bind {n = 0} {k = 0} (Takes-gets _) λ limit.
        Takes-if (ltb limit n) (Takes-raise 0 (oversized n)) (
          Takes-weaken 0 (omega arith)
            (Takes-bind (recv_exact-Takes n) λ body. Takes-pure (header, body)))

timeout_as-facts :
    {A : Type 0} (e : MqttError) (n total : ℕ) (p : Outcome A × Client)
    → p.0 ≢ stuck
    → size p.1.inbox ≤ total
    → ((a : A) → p.0 ≡ ok a → size p.1.inbox + n ≤ total)
    → ((timeout_as e p).0 ≢ stuck)
      × (size (timeout_as e p).1.inbox ≤ total)
      × ((a : A) → (timeout_as e p).0 ≡ ok a → size (timeout_as e p).1.inbox + n ≤ total)
timeout_as-facts e n total (ok a, s) u v w = (u, v, w)
timeout_as-facts e n total (timeout, s) u v w = (λ h. cc, v, λ b h. cc)
timeout_as-facts e n total (err x, s) u v w = (u, v, w)
timeout_as-facts e n total (stuck, s) u v w = (u, v, w)

pub on_timeout-Takes :
    {A : Type 0} {n : ℕ} (e : MqttError) {m : M A} → Takes n m → Takes n (on_timeout e m)
on_timeout-Takes {A} {n} e {m} t = record {
  ends = λ s. (facts s).0;
  shrinks = λ s. (facts s).1;
  takes = λ s. (facts s).2;
}
  where
    facts :
        (s : Client)
        → ((timeout_as e (m s)).0 ≢ stuck)
          × (size (timeout_as e (m s)).1.inbox ≤ size s.inbox)
          × ((a : A)
              → (timeout_as e (m s)).0 ≡ ok a
              → size (timeout_as e (m s)).1.inbox + n ≤ size s.inbox)
    facts s = timeout_as-facts e n (size s.inbox) (m s) (t.ends s) (t.shrinks s) (t.takes s)

hand_over-facts :
    (bytes : List ℕ) (s : Client) (sends : List Bool)
    → ((hand_over bytes s sends).0 ≢ stuck) × ((hand_over bytes s sends).1.inbox ≡ s.inbox)
unfolding hand_over
hand_over-facts bytes s [] = (λ e. cc, refl)
hand_over-facts bytes s (true ∷ rest) = (λ e. cc, refl)
hand_over-facts bytes s (false ∷ rest) = (λ e. cc, refl)

send-inbox : (bytes : List ℕ) (s : Client) → (send bytes s).1.inbox ≡ s.inbox
unfolding send
send-inbox bytes s = ground (arith, hand_over-facts bytes s s.sends)

pub send-Takes : (bytes : List ℕ) → Takes 0 (send bytes)
send-Takes bytes = record {
  ends = λ s. unfold send in ground (arith, hand_over-facts bytes s s.sends);
  shrinks = λ s. rw (send-inbox bytes s) (omega arith);
  takes = λ s a h. rw (send-inbox bytes s) (omega arith);
}

pub packet_id-Takes : Takes 0 packet_id
unfolding packet_id
packet_id-Takes = record {
  ends = λ s e. cc;
  shrinks = λ s. omega arith;
  takes = λ s a h. omega arith;
}

pub packet-Takes : (header : ℕ) (body : List ℕ) → Takes 0 (lift (packet header body))
packet-Takes header body = Takes-lift _ (packet-ne-stuck header body)

pub text_field-Takes : (u : Utf8) (t : Text) → Takes 0 (lift (text_field u t))
text_field-Takes u t = Takes-lift _ (text_field-ne-stuck u t)

pub pack_word-Takes : (n : ℕ) → Takes 0 (lift (pack_word n))
pack_word-Takes n = Takes-lift _ (pack_word-ne-stuck n)

pub ruleset takes_rules = (
  Takes-pure, Takes-raise, Takes-gets, Takes-if, Takes-seq, send-Takes, packet_id-Takes,
  packet-Takes, text_field-Takes, pack_word-Takes,
)

-- `m` does not run out of fuel.
pub record Ends {A : Type 0} (m : M A) : Type 0 where
  pub at : (s : Client) → (m s).0 ≢ stuck

module _ {A : Type 0} where
  pub Takes→Ends : {m : M A} → Takes 0 m → Ends m
  Takes→Ends t = record { at = t.ends }

  pub Ends-if : (b : Bool) {m k : M A} → Ends m → Ends k → Ends (if b then m else k)
  Ends-if true em ek = em
  Ends-if false em ek = ek

module _ {A B : Type 0} where
  then_do-Ends :
      (f : A → M B) (p : Outcome A × Client)
      → p.0 ≢ stuck
      → ((a : A) → Ends (f a))
      → (then_do f p).0 ≢ stuck
  then_do-Ends f (ok a, s') v u = (u a).at s'
  then_do-Ends f (timeout, s') v u = λ e. cc
  then_do-Ends f (err e, s') v u = λ e. cc
  then_do-Ends f (stuck, s') v u = absurd (v refl)

  pub Ends-seq : {m : M A} {f : A → M B} → Takes 0 m → ((a : A) → Ends (f a)) → Ends (m >>= f)
  Ends-seq {m} {f} t u = record { at = λ s. then_do-Ends f (m s) (t.ends s) u }

pub ruleset ends_rules = (takes_rules, Takes→Ends, Ends-if, Ends-seq)
