-- ===== src/Mqtt/Subscribe/Ends.antt =====
-- `subscribe` ends.
use omarchy_hardware.Common.{
  ℕ, ◌+◌, ◌≤◌, ◌≡◌, sym, leb, le→leb, In, Bool-cases, inl, inr, true, ◌≢◌, ◌==◌, List, [], ◌∷◌,
  arith,
}
use omarchy_hardware.Common.Text.{Text}
use omarchy_hardware.Common.Utf8.{Utf8}
use omarchy_hardware.Mqtt.Outcome.{stuck, suback_timeout}
use omarchy_hardware.Mqtt.Client.{
  Client, Message, ◌>>◌, on_timeout, kind_of, read_packet, read_packet_by, Clock,
}
use omarchy_hardware.Mqtt.Client.Progress.{
  Takes, Ends, takes_rules, ends_rules, ends_after, ends_if, read_packet-Takes, on_timeout-Takes,
}
use omarchy_hardware.Mqtt.Publish.Ends.{Expires, parse_publish-Takes}
use omarchy_hardware.Mqtt.Subscribe.{
  check_suback, store_early, keep_early, suback_loop, await_suback, subscribe,
}

check_suback-Takes : (id : ℕ) (body : List ℕ) → Takes 0 (check_suback id body)
unfolding check_suback
check_suback-Takes id body = search takes_rules depth 12

store_early-Takes : (message : Message) → Takes 0 (store_early message)
unfolding store_early
store_early-Takes message = record {
  ends = λ s e. cc;
  shrinks = λ s. omega arith;
  takes = λ s a h. omega arith;
}

keep_early-Takes : (u : Utf8) (kind : ℕ) (body : List ℕ) → Takes 0 (keep_early u kind body)
unfolding keep_early
keep_early-Takes u kind body = search (takes_rules, parse_publish-Takes, store_early-Takes) depth 14

suback_loop_ends :
    (u : Utf8) (deadline : ℕ) (readings : List ℕ) (id : ℕ) (s : Client) (now : ℕ)
    → In now readings
    → deadline ≤ now
    → (suback_loop u deadline readings id s).0 ≢ stuck
unfolding suback_loop read_packet_by
suback_loop_ends u deadline [] id s now listed late = absurd listed
suback_loop_ends u deadline (n ∷ readings) id s now (inl e) late =
    let over : leb deadline n ≡ true = rw (sym e) (le→leb deadline now late) in rw over (λ q. cc)
suback_loop_ends u deadline (n ∷ readings) id s now (inr later) late =
    elim (Bool-cases (leb deadline n)) [
      | inl over ↦ rw over (λ q. cc)
      | inr early ↦ rw early (
          ends_after 1 (on_timeout suback_timeout read_packet) _ s
            (on_timeout-Takes _ read_packet-Takes)
            λ p s' shorter.
              ends_if (kind_of p.0 == 0x90) (check_suback id p.1)
                (keep_early u p.0 p.1 >> suback_loop u deadline readings id) s'
                ((check_suback-Takes id p.1).ends s')
                (ends_after 0 (keep_early u p.0 p.1) (λ _. suback_loop u deadline readings id) s'
                  (keep_early-Takes u p.0 p.1)
                  λ _ s'' left. suback_loop_ends u deadline readings id s'' now later late))
    ]

await_suback-Ends :
    (u : Utf8) (timeout_ms : ℕ) (c : Clock) (id : ℕ)
    → Expires timeout_ms c
    → Ends (await_suback u timeout_ms c id)
unfolding await_suback
await_suback-Ends u timeout_ms c id (now, listed, late) = record {
  at = λ s. suback_loop_ends u (c.start + timeout_ms) c.readings id s now listed late;
}

subscribe-Ends :
    (u : Utf8) (timeout_ms : ℕ) (c : Clock) (topic_filter : Text)
    → Expires timeout_ms c
    → Ends (subscribe u timeout_ms c topic_filter)
unfolding subscribe
subscribe-Ends u timeout_ms c topic_filter late =
    let awaited : (id : ℕ) → Ends (await_suback u timeout_ms c id) =
      λ id. await_suback-Ends u timeout_ms c id late in
    search (ends_rules, awaited) depth 16

-- A subscribe is over by its deadline: it has no further reading of the clock after one that is at
-- or after the time when the wait began and the timeout of the options.
pub subscribe-ends_in_time :
    (u : Utf8) (timeout_ms : ℕ) (c : Clock) (topic_filter : Text) (s : Client)
    → Expires timeout_ms c
    → (subscribe u timeout_ms c topic_filter s).0 ≢ stuck
subscribe-ends_in_time u timeout_ms c topic_filter s late =
    (subscribe-Ends u timeout_ms c topic_filter late).at s
