-- ===== src/Mqtt/Tests.antt =====
-- The MQTT theorems on concrete topics, packets and connections.
use omarchy_hardware.Common.{
  ℕ, ◌≡◌, ◌≢◌, sym, Bool-cases, inl, inr, refl, ltb, all, ◌↔◌, true, false, Option, some, none,
  List, [], ◌∷◌, ◌++◌, arith, if◌then◌else◌,
}
use omarchy_hardware.Common.Text.{codes, text_eq, split, cons_head}
use omarchy_hardware.Common.Utf8.{Utf8}
use omarchy_hardware.Mqtt.Outcome.{ok, stuck}
use omarchy_hardware.Mqtt.Wire.{
  encode_loop, of_fuel, encode_length, packet, text_field, bytes_field,
}
use omarchy_hardware.Mqtt.Client.{
  Recv, chunk, late, Client, ◌>>=◌, send, hand_over, read_packet, Clock,
}
use omarchy_hardware.Mqtt.Client.Stream.{arriving}
use omarchy_hardware.Mqtt.Client.Framing.{read_packet-packet}
use omarchy_hardware.Mqtt.Publish.{parse_publish, publish_header, publish}
use omarchy_hardware.Mqtt.Publish.Ends.{publish-ends_in_time}
use omarchy_hardware.Mqtt.Publish.RoundTrip.{message, receive-publish_qos0, parse_publish_qos1}
use omarchy_hardware.Mqtt.Subscribe.{Round, readable, quiet, collect}
use omarchy_hardware.Mqtt.Subscribe.Collect.{Returns, collect-Returns}
use omarchy_hardware.Mqtt.Topic.{
  levels, hidden, match_levels, topic_matches, cover_levels, filter_covers,
}
use omarchy_hardware.Mqtt.Topic.Matches.{Matches, topic_matches_iff}
use omarchy_hardware.Mqtt.Topic.Covers.{filter_covers_sound}

filter_covers_sound_example : topic_matches (codes "plant/+/#") (codes "plant/oven/heat/1") ≡ true
unfolding topic_matches filter_covers match_levels cover_levels hidden split cons_head text_eq
filter_covers_sound_example =
    filter_covers_sound (codes "plant/+/#") (codes "plant/oven/+/1") (codes "plant/oven/heat/1")
      refl refl

topic_matches_iff_example : (topic_matches (codes "plant/#") (codes "plant") ≡ true) ↔ (
    (hidden (codes "plant/#") (codes "plant") ≡ false)
    × Matches (levels (codes "plant/#")) (levels (codes "plant")))
topic_matches_iff_example = topic_matches_iff (codes "plant/#") (codes "plant")

-- The codec on ASCII.
abbrev ascii : List ℕ → Option (List ℕ)
ascii s = if all (λ c. ltb c 128) s then some s else none

ascii-ascii : (t bytes : List ℕ) → ascii t ≡ some bytes → ascii bytes ≡ some t
ascii-ascii t bytes h = elim (Bool-cases (all (λ c. ltb c 128) t)) [
  | inl e ↦ let same : t ≡ bytes = ground (arith, rw e at h) in rw (sym same, e)
  | inr e ↦ absurd (ground (arith, rw e at h))
]

abbrev utf8 : Utf8
utf8 = record { encode = ascii; decode = ascii; decode-encode = ascii-ascii }

-- A connection on which a QoS 0 publish of `on` to `led` arrives in two chunks, then the line is silent.
abbrev listener : Client
listener = record {
  connected = true;
  max_packet = 64;
  next_id = 1;
  keepalive = 10;
  early = [];
  inbox = chunk 0x30 (7 ∷ 0 ∷ 3 ∷ []) ∷ chunk b'l' (b'e' ∷ b'd' ∷ b'o' ∷ b'n' ∷ []) ∷ late ∷ [];
  sends = true ∷ true ∷ [];
  sent = [];
}

abbrev publish_bytes : List ℕ
publish_bytes = 0x30 ∷ 7 ∷ 0 ∷ 3 ∷ b'l' ∷ b'e' ∷ b'd' ∷ b'o' ∷ b'n' ∷ []

read_packet-packet_example :
    (inbox' : List Recv) × (read_packet listener
      ≡ (ok (0x30, 0 ∷ 3 ∷ codes "ledon"), record listener { inbox = inbox' }))
    × (arriving inbox' ≡ [])
unfolding packet encode_length encode_loop of_fuel arriving
read_packet-packet_example =
    read_packet-packet 0x30 (0 ∷ 3 ∷ codes "ledon") publish_bytes [] listener refl (omega arith)
      refl refl

receive-publish_qos0_example :
    (inbox' : List Recv) × ((read_packet >>= λ p. parse_publish utf8 p.0 p.1) listener
      ≡ (ok (message (codes "led") (codes "on") 0 false), record listener { inbox = inbox' }))
    × (arriving inbox' ≡ [])
unfolding packet encode_length encode_loop of_fuel arriving text_field bytes_field publish_header
receive-publish_qos0_example =
    receive-publish_qos0 utf8 (codes "led") (0 ∷ 3 ∷ codes "led") (codes "on") publish_bytes []
      false listener refl refl (omega arith) refl refl

parse_publish_qos1_example :
    parse_publish utf8
      (publish_header 1 true)
      (((0 ∷ 3 ∷ codes "led") ++ (1 ∷ 2 ∷ [])) ++ codes "on")
      listener
    ≡ (
      ok (message (codes "led") (codes "on") 1 true),
      record listener { sends = true ∷ []; sent = (0x40 ∷ 2 ∷ 1 ∷ 2 ∷ []) ∷ [] },
    )
unfolding packet encode_length encode_loop of_fuel text_field bytes_field send hand_over
parse_publish_qos1_example =
    parse_publish_qos1 utf8 (codes "led") (0 ∷ 3 ∷ codes "led") (codes "on") (0x40 ∷ 2 ∷ 1 ∷ 2 ∷ [])
      1 2 true listener (record listener { sends = true ∷ []; sent = (0x40 ∷ 2 ∷ 1 ∷ 2 ∷ []) ∷ [] })
      refl refl refl

-- The third reading is past the deadline.
abbrev waited : Clock
waited = record { start = 40; readings = 41 ∷ 300 ∷ 541 ∷ [] }

publish-ends_in_time_example :
    (publish utf8 500 waited (codes "led") (codes "on") 1 false listener).0 ≢ stuck
publish-ends_in_time_example =
    publish-ends_in_time utf8 500 waited (codes "led") (codes "on") 1 false listener
      (541, inr (inr (inl refl)), omega arith)

abbrev rounds : List Round
rounds = record { now = 5; wait = readable } ∷ record { now = 400; wait = quiet } ∷ []

collect-Returns_example : Returns 2 (collect utf8 0 500 2 rounds listener)
collect-Returns_example = collect-Returns utf8 0 500 2 rounds listener
