-- ===== src/Mqtt/Subscribe/Collect.antt =====
-- What `collect` returns.
use mathlib.Core.Path.{subst}
use omarchy_hardware.Common.{
  Bool, true, false, ℕ, ◌≤◌, ◌<◌, ◌≡◌, ◌≢◌, refl, ◌==◌, leb, Option, none, some, List, [], ◌∷◌,
  ◌++◌, length, arith, length-take, length-append, Bool-cases, inl, inr, if◌then◌else◌,
}
use omarchy_hardware.Common.Utf8.{Utf8}
use omarchy_hardware.Mqtt.Outcome.{Outcome, ok, timeout, err, stuck}
use omarchy_hardware.Mqtt.Client.{Client, Message, M, ◌>>=◌, then_do, pure, kind_of, read_packet}
use omarchy_hardware.Mqtt.Client.Progress.{Takes, Takes-weaken, takes_rules, read_packet-Takes}
use omarchy_hardware.Mqtt.Publish.{parse_publish}
use omarchy_hardware.Mqtt.Publish.Ends.{parse_publish-Takes}
use omarchy_hardware.Mqtt.Subscribe.{
  Wait, readable, quiet, broken, Round, wait_readable, ping, receive, collect_round, Collected,
  handle, collect_loop, collect,
}

wait_readable-Takes : (w : Wait) → Takes 0 (wait_readable w)
unfolding wait_readable
wait_readable-Takes readable = record {
  ends = λ s. ground arith;
  shrinks = λ s. ground arith;
  takes = λ s a h. ground arith;
}
wait_readable-Takes quiet = record {
  ends = λ s. ground arith;
  shrinks = λ s. ground arith;
  takes = λ s a h. ground arith;
}
wait_readable-Takes broken = record {
  ends = λ s. ground arith;
  shrinks = λ s. ground arith;
  takes = λ s a h. ground arith;
}

read_packet-settles : Takes 0 read_packet
read_packet-settles = Takes-weaken 0 (omega arith) read_packet-Takes

receive-Takes : (u : Utf8) (woken : Option (Unit {0})) → Takes 0 (receive u woken)
unfolding receive
receive-Takes u none = search takes_rules
receive-Takes u (some _) = search (takes_rules, read_packet-settles, parse_publish-Takes) depth 12

ping-Takes : (now next : ℕ) → Takes 0 (ping now next)
unfolding ping
ping-Takes now next = search takes_rules depth 12

collect_round-Takes : (u : Utf8) (next : ℕ) (r : Round) → Takes 0 (collect_round u next r)
collect_round-Takes u next r =
    unfold collect_round in
    search (takes_rules, ping-Takes, wait_readable-Takes, receive-Takes) depth 12

-- What `m` returns, if it returns, has the property.
record Gives {A : Type 0} (P : A → Type 0) (m : M A) : Type 0 where
  at : (s : Client) (a : A) → (m s).0 ≡ ok a → P a

module _ {B : Type 0} (P : B → Type 0) where
  Gives-pure : (b : B) → P b → Gives P (pure b)
  Gives-pure b h = record { at = λ s a e. subst P (cc) h }

  Gives-if : (t : Bool) {m k : M B} → Gives P m → Gives P k → Gives P (if t then m else k)
  Gives-if true gm gk = gm
  Gives-if false gm gk = gk

  module _ {A : Type 0} where
    then_do-gives :
        (f : A → M B) (p : Outcome A × Client)
        → ((a : A) → p.0 ≡ ok a → Gives P (f a))
        → (b : B) → (then_do f p).0 ≡ ok b
        → P b
    then_do-gives f (ok a, s) g b h = (g a refl).at s b h
    then_do-gives f (timeout, s) g b h = cc
    then_do-gives f (err e, s) g b h = cc
    then_do-gives f (stuck, s) g b h = cc

    -- What follows may use what came before.
    Gives-seq :
        (m : M A) (f : A → M B)
        → ((s : Client) (a : A) → (m s).0 ≡ ok a → Gives P (f a))
        → Gives P (m >>= f)
    Gives-seq m f g = record { at = λ s. then_do-gives f (m s) (g s) }

abbrev IsShort : List Message → Type 0
IsShort messages = length messages ≤ 1

receive-IsShort : (u : Utf8) (woken : Option (Unit {0})) → Gives IsShort (receive u woken)
unfolding receive
receive-IsShort u none = Gives-pure IsShort [] (omega arith)
receive-IsShort u (some _) = Gives-seq IsShort read_packet _ λ _ p _.
    Gives-if IsShort (kind_of p.0 == 0x30)
      (Gives-seq IsShort (parse_publish u p.0 p.1) _
        λ _ message _. Gives-pure IsShort (message ∷ []) (omega arith))
      (Gives-pure IsShort [] (omega arith))

-- A round brings one message at most.
collect_round-IsShort :
    (u : Utf8) (next : ℕ) (r : Round) → Gives (λ p. IsShort p.1) (collect_round u next r)
unfolding collect_round
collect_round-IsShort u next r = Gives-seq _ (ping r.now next) _ λ _ next' _.
    Gives-seq _ (wait_readable r.wait) _ λ _ woken _.
      Gives-seq _ (receive u woken) _ λ s messages came.
        Gives-pure _ (next', messages) ((receive-IsShort u woken).at s messages came)

-- A result with at most `n` messages: no exception, and no end of fuel.
abbrev pub Returns : ℕ → Outcome Collected × Client → Type 0
Returns n (ok (messages, stop), s) = length messages ≤ n
Returns n (timeout, s) = ⊥
Returns n (err e, s) = ⊥
Returns n (stuck, s) = ⊥

handle-Returns :
    (n : ℕ) (messages : List Message) (continue : ℕ → List Message → M Collected)
    (p : Outcome (ℕ × List Message) × Client)
    → p.0 ≢ stuck
    → ((a : ℕ × List Message) → p.0 ≡ ok a → IsShort a.1)
    → length messages < n
    → ((next : ℕ) (all : List Message) (s : Client)
        → length all ≤ n
        → Returns n (continue next all s))
    → Returns n (handle messages continue p)
handle-Returns n messages continue (ok (next, more), s) u v h k =
    k next (messages ++ more) s (omega (arith, length-append messages more, v (next, more) refl))
handle-Returns n messages continue (timeout, s) u v h k = omega arith
handle-Returns n messages continue (err e, s) u v h k = omega arith
handle-Returns n messages continue (stuck, s) u v h k = absurd (u refl)

collect_loop-Returns :
    (u : Utf8) (deadline n : ℕ) (rounds : List Round) (next : ℕ) (messages : List Message)
    (s : Client)
    → length messages ≤ n
    → Returns n (collect_loop u deadline n rounds next messages s)
unfolding collect_loop
collect_loop-Returns u deadline n [] next messages s h =
    elim (Bool-cases (leb n (length messages))) [
      | inl e ↦ rw e (omega (arith, length-take n messages))
      | inr e ↦ rw e h
    ]
collect_loop-Returns u deadline n (r ∷ rounds) next messages s h =
    elim (Bool-cases (leb n (length messages))) [
      | inl e ↦ rw e (omega (arith, length-take n messages))
      | inr e ↦ elim (Bool-cases (leb deadline r.now)) [
        | inl over ↦ rw (e, over) h
        | inr on ↦
            rw (e, on)
              (handle-Returns n messages _ (collect_round u next r s)
                ((collect_round-Takes u next r).ends s) ((collect_round-IsShort u next r).at s)
                (ground arith)
                (λ next' all s'. collect_loop-Returns u deadline n rounds next' all s'))
      ]
    ]

-- Collect always returns, with no exception and for every behaviour of the connection, at most
-- max_messages messages.
pub collect-Returns :
    (u : Utf8) (start milliseconds max_messages : ℕ) (rounds : List Round) (s : Client)
    → Returns max_messages (collect u start milliseconds max_messages rounds s)
unfolding collect
collect-Returns u start milliseconds max_messages rounds s =
    collect_loop-Returns u _ max_messages rounds _ _ _
      (omega (arith, length-take max_messages s.early))
