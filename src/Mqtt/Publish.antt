-- ===== src/Mqtt/Publish.antt =====
-- `_parse_publish` and `publish` of mcp/omarchy_hardware/mqtt_lite.py.
pub mod Ends
pub mod RoundTrip
use Prim.Native.Nat.{bit_and, bit_or}
use omarchy_hardware.Common.{
  ℕ, zero, suc, ◌+◌, ◌*◌, ◌/◌, ◌==◌, ltb, Bool, not, ◌&&◌, ◌||◌, Option, none, some, List, [], ◌∷◌,
  ◌++◌, length, take, drop, if◌then◌else◌,
}
use omarchy_hardware.Common.Text.{Text, text_eq}
use omarchy_hardware.Common.Utf8.{Utf8}
use omarchy_hardware.Mqtt.Outcome.{
  Outcome, ok, err, stuck, bad_publish, bad_topic, bad_qos, puback_timeout,
}
use omarchy_hardware.Mqtt.Wire.{word_at, pack_word, text_field, packet}
use omarchy_hardware.Mqtt.Client.{
  Message, M, ◌>>=◌, ◌>>◌, pure, raise, lift, gets, on_timeout, kind_of, send, Clock,
  read_packet_by, packet_id,
}

abbrev decoded : Option Text → Outcome Text
decoded none = err bad_topic
decoded (some topic) = ok topic

-- The packet id of a message at QoS 1 or 2, with the acknowledgement that QoS 1 is owed: the
-- offset of the payload.
skip_packet_id : ℕ → ℕ → List ℕ → M ℕ
skip_packet_id qos offset body =
    if qos == 0
    then pure offset
    else if ltb (length body) (offset + 2)
    then raise bad_publish
    else if qos == 1
    then (do
      puback ← lift (packet 0x40 (take 2 (drop offset body)))
      send puback
      pure (offset + 2))
    else pure (offset + 2)

unfoldable pub parse_publish : Utf8 → ℕ → List ℕ → M Message
unfolding skip_packet_id
parse_publish u kind body =
    let qos = bit_and (kind / 2) 3 in
    let offset = 2 + word_at body in
    if qos == 3 || ltb (length body) 2
    then raise bad_publish
    else if ltb (length body) offset
    then raise bad_publish
    else do
      topic ← lift (decoded (u.decode (take (word_at body) (drop 2 body))))
      start ← skip_packet_id qos offset body
      pure (record {
        topic = topic;
        payload = drop start body;
        qos = qos;
        retain = bit_and kind 1 == 1;
      })

-- The loop that waits for the acknowledgement, on the readings of the clock; `stuck` is no Python
-- value: the readings that were given are over.
unfoldable pub puback_loop : (deadline : ℕ) → List ℕ → List ℕ → M (Unit {0})
puback_loop deadline [] id = lift stuck
puback_loop deadline (now ∷ readings) id = do
  (kind, reply) ← on_timeout puback_timeout (read_packet_by deadline now)
  if kind_of kind == 0x40 && text_eq reply id then pure tt else puback_loop deadline readings id

unfoldable pub await_puback : (timeout_ms : ℕ) → Clock → List ℕ → M (Unit {0})
await_puback timeout_ms c id = puback_loop (c.start + timeout_ms) c.readings id

unfoldable pub publish_header : ℕ → Bool → ℕ
publish_header qos retain = bit_or (bit_or 0x30 (qos * 2)) (if retain then 1 else 0)

-- With the timeout of the options.
unfoldable pub publish : Utf8 → (timeout_ms : ℕ) → Clock → Text → List ℕ → ℕ → Bool → M (Unit {0})
publish u timeout_ms c topic payload qos retain =
    if not (qos == 0 || qos == 1) then raise bad_qos else do
      let header = publish_header qos retain
      body ← lift (text_field u topic)
      if qos == 0 then (do bytes ← lift (packet header (body ++ payload)); send bytes) else (do
        id ← packet_id
        word ← lift (pack_word id)
        bytes ← lift (packet header ((body ++ word) ++ payload))
        send bytes
        await_puback timeout_ms c word)
