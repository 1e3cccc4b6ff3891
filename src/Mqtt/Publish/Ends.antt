-- ===== src/Mqtt/Publish/Ends.antt =====
-- `publish` ends, and what its success means.
use omarchy_hardware.Common.{
  ℕ, ◌+◌, ◌≤◌, ◌≡◌, sym, leb, le→leb, In, Bool-cases, inl, inr, true, ◌≢◌, ◌==◌, ◌&&◌, Bool, Option,
  none, some, List, [], ◌∷◌,
}
use omarchy_hardware.Common.Text.{Text, text_eq}
use omarchy_hardware.Common.Utf8.{Utf8}
use omarchy_hardware.Mqtt.Outcome.{stuck, puback_timeout}
use omarchy_hardware.Mqtt.Client.{
  Client, pure, lift, on_timeout, kind_of, read_packet, read_packet_by, Clock,
}
use omarchy_hardware.Mqtt.Client.Progress.{
  Takes, Takes-lift, Ends, takes_rules, ends_rules, ends_after, ends_if, read_packet-Takes,
  on_timeout-Takes,
}
use omarchy_hardware.Mqtt.Publish.{
  decoded, skip_packet_id, parse_publish, puback_loop, await_puback, publish,
}

decoded-ne-stuck : (t : Option Text) → decoded t ≢ stuck
decoded-ne-stuck none = λ e. cc
decoded-ne-stuck (some t) = λ e. cc

decoded-Takes : (t : Option Text) → Takes 0 (lift (decoded t))
decoded-Takes t = Takes-lift _ (decoded-ne-stuck t)

skip_packet_id-Takes : (qos offset : ℕ) (body : List ℕ) → Takes 0 (skip_packet_id qos offset body)
unfolding skip_packet_id
skip_packet_id-Takes qos offset body = search takes_rules depth 12

-- Parsing a PUBLISH ends, and does not read.
pub parse_publish-Takes :
    (u : Utf8) (kind : ℕ) (body : List ℕ) → Takes 0 (parse_publish u kind body)
unfolding parse_publish
parse_publish-Takes u kind body = search (takes_rules, decoded-Takes, skip_packet_id-Takes) depth 12

puback_loop_ends :
    (deadline : ℕ) (readings id : List ℕ) (s : Client) (now : ℕ)
    → In now readings
    → deadline ≤ now
    → (puback_loop deadline readings id s).0 ≢ stuck
unfolding puback_loop read_packet_by
puback_loop_ends deadline [] id s now listed late = absurd listed
puback_loop_ends deadline (n ∷ readings) id s now (inl e) late =
    let over : leb deadline n ≡ true = rw (sym e) (le→leb deadline now late) in rw over (λ q. cc)
puback_loop_ends deadline (n ∷ readings) id s now (inr later) late =
    elim (Bool-cases (leb deadline n)) [
      | inl over ↦ rw over (λ q. cc)
      | inr early ↦ rw early (
          ends_after 1 (on_timeout puback_timeout read_packet) _ s
            (on_timeout-Takes _ read_packet-Takes)
            λ p s' shorter.
              ends_if (kind_of p.0 == 0x40 && text_eq p.1 id) (pure tt)
                (puback_loop deadline readings id) s' (λ e. cc)
                (puback_loop_ends deadline readings id s' now later late))
    ]

-- A reading of the clock, as the call turns to a packet, is at or after its deadline.
abbrev pub Expires : (timeout_ms : ℕ) → Clock → Type 0
Expires timeout_ms c = (now : ℕ) × In now c.readings × (c.start + timeout_ms ≤ now)

await_puback-Ends :
    (timeout_ms : ℕ) (c : Clock) (id : List ℕ)
    → Expires timeout_ms c
    → Ends (await_puback timeout_ms c id)
unfolding await_puback
await_puback-Ends timeout_ms c id (now, listed, late) = record {
  at = λ s. puback_loop_ends (c.start + timeout_ms) c.readings id s now listed late;
}

publish-Ends :
    (u : Utf8) (timeout_ms : ℕ) (c : Clock) (topic : Text) (payload : List ℕ) (qos : ℕ)
    (retain : Bool)
    → Expires timeout_ms c
    → Ends (publish u timeout_ms c topic payload qos retain)
unfolding publish
publish-Ends u timeout_ms c topic payload qos retain late =
    let awaited : (id : List ℕ) → Ends (await_puback timeout_ms c id) =
      λ id. await_puback-Ends timeout_ms c id late in
    search (ends_rules, awaited) depth 16

-- A publish is over by its deadline, whatever the broker sends: if the clock, read as the call
-- turns to each packet, is at or past the time when the wait began and the timeout of the
-- options at one of the readings given, then the call has returned or raised by the last of
-- them.
pub publish-ends_in_time :
    (u : Utf8) (timeout_ms : ℕ) (c : Clock) (topic : Text) (payload : List ℕ) (qos : ℕ)
    (retain : Bool) (s : Client)
    → Expires timeout_ms c
    → (publish u timeout_ms c topic payload qos retain s).0 ≢ stuck
publish-ends_in_time u timeout_ms c topic payload qos retain s late =
    (publish-Ends u timeout_ms c topic payload qos retain late).at s
