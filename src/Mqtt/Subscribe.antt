-- ===== src/Mqtt/Subscribe.antt =====
-- `subscribe` and `collect` of mcp/omarchy_hardware/mqtt_lite.py.
pub mod Ends
pub mod Collect
use omarchy_hardware.Common.{
  ℕ, zero, suc, ◌+◌, ◌*◌, ◌==◌, ltb, leb, not, ◌||◌, Option, none, some, List, [], ◌∷◌, ◌++◌,
  length, take, drop, if◌then◌else◌,
}
use omarchy_hardware.Common.Text.{Text}
use omarchy_hardware.Common.Utf8.{Utf8}
use omarchy_hardware.Mqtt.Outcome.{
  MqttError, Outcome, ok, timeout, err, stuck, suback_timeout, bad_suback, subscription_refused,
  too_many_early, not_connected, wait_lost,
}
use omarchy_hardware.Mqtt.Wire.{word_at, pack_word, text_field, packet}
use omarchy_hardware.Mqtt.Client.{
  Client, Message, M, ◌>>=◌, ◌>>◌, pure, raise, lift, gets, send, read_packet, read_packet_by,
  Clock, packet_id, on_timeout, kind_of,
}
use omarchy_hardware.Mqtt.Publish.{parse_publish}

abbrev pub max_early_messages : ℕ
max_early_messages = 32

-- `body[2]`, of a body of three bytes at least.
abbrev pub third : List ℕ → ℕ
third (a ∷ b ∷ c ∷ bs) = c
third _ = 0

unfoldable pub check_suback : ℕ → List ℕ → M (Unit {0})
check_suback id body =
    if ltb (length body) 3 || not (word_at body == id)
    then raise bad_suback
    else if third body == 0x80
    then raise subscription_refused
    else pure tt

unfoldable pub store_early : Message → M (Unit {0})
store_early message s = (ok tt, record s { early = s.early ++ message ∷ [] })

-- A PUBLISH before the SUBACK is kept for `collect`; any other packet is passed over.
unfoldable pub keep_early : Utf8 → ℕ → List ℕ → M (Unit {0})
keep_early u kind body =
    if kind_of kind == 0x30
    then (do
      early ← gets (λ s. s.early)
      if leb max_early_messages (length early)
          then raise too_many_early
          else do message ← parse_publish u kind body; store_early message)
    else pure tt

-- The loop that waits for the SUBACK, on the readings of the clock; `stuck` is no Python value: the
-- readings that were given are over.
unfoldable pub suback_loop : Utf8 → (deadline : ℕ) → List ℕ → ℕ → M (Unit {0})
suback_loop u deadline [] id = lift stuck
suback_loop u deadline (now ∷ readings) id = do
  (kind, body) ← on_timeout suback_timeout (read_packet_by deadline now)
  if kind_of kind == 0x90
      then check_suback id body
      else do keep_early u kind body; suback_loop u deadline readings id

unfoldable pub await_suback : Utf8 → (timeout_ms : ℕ) → Clock → ℕ → M (Unit {0})
await_suback u timeout_ms c id = suback_loop u (c.start + timeout_ms) c.readings id

-- With the timeout of the options.
unfoldable pub subscribe : Utf8 → (timeout_ms : ℕ) → Clock → Text → M (Unit {0})
subscribe u timeout_ms c topic_filter = do
  id ← packet_id
  word ← lift (pack_word id)
  field ← lift (text_field u topic_filter)
  bytes ← lift (packet 0x82 ((word ++ field) ++ 0 ∷ []))
  send bytes
  await_suback u timeout_ms c id

-- Why `collect` stopped.
pub data Stop : Type 0 where
  timed_out full : Stop
  failed : MqttError → Stop

pub data Wait : Type 0 where
  readable quiet broken : Wait

-- One round of the loop, as the environment gives it: the clock in milliseconds, and what
-- `_wait_readable` meets. After the last round the clock is past the deadline.
pub record Round : Type 0 where
  pub now : ℕ
  pub wait : Wait

unfoldable pub wait_readable : Wait → M (Option (Unit {0}))
wait_readable readable s = if s.connected then (ok (some tt), s) else (err not_connected, s)
wait_readable quiet s = if s.connected then (ok none, s) else (err not_connected, s)
wait_readable broken s = if s.connected then (err wait_lost, s) else (err not_connected, s)

-- The ping that is due at `next_ping`: the time of the next one.
unfoldable pub ping : ℕ → ℕ → M ℕ
ping now next_ping =
    if leb next_ping now
    then (do
      bytes ← lift (packet 0xc0 [])
      send bytes
      keepalive ← gets (λ s. s.keepalive)
      pure (now + keepalive * 500))
    else pure next_ping

unfoldable pub receive : Utf8 → Option (Unit {0}) → M (List Message)
receive u none = pure []
receive u (some _) = do
  (kind, body) ← read_packet
  if kind_of kind == 0x30
      then (do message ← parse_publish u kind body; pure (message ∷ []))
      else pure []

-- The `try` block of a round: the time of the next ping, and the message that came, if any.
unfoldable pub collect_round : Utf8 → ℕ → Round → M (ℕ × List Message)
collect_round u next_ping r = do
  next ← ping r.now next_ping
  woken ← wait_readable r.wait
  messages ← receive u woken
  pure (next, messages)

abbrev pub Collected : Type 0
Collected = List Message × Stop

-- The handlers of the `try` block, and the next round.
abbrev pub handle :
    List Message
    → (ℕ → List Message → M Collected)
    → Outcome (ℕ × List Message) × Client
    → Outcome Collected × Client
handle messages continue (ok (next, more), s) = continue next (messages ++ more) s
handle messages continue (timeout, s) = (ok (messages, timed_out), s)
handle messages continue (err e, s) = (ok (messages, failed e), s)
handle messages continue (stuck, s) = (stuck, s)

unfoldable pub collect_loop : Utf8 → ℕ → ℕ → List Round → ℕ → List Message → M Collected
collect_loop u deadline max_messages [] next_ping messages =
    if leb max_messages (length messages)
    then pure (take max_messages messages, full)
    else pure (messages, timed_out)
collect_loop u deadline max_messages (r ∷ rounds) next_ping messages =
    if leb max_messages (length messages)
    then pure (take max_messages messages, full)
    else if leb deadline r.now
    then pure (messages, timed_out)
    else λ s.
        handle messages (λ next all. collect_loop u deadline max_messages rounds next all)
          (collect_round u next_ping r s)

-- `start` is the clock when `collect` is called.
unfoldable pub collect : Utf8 → ℕ → ℕ → ℕ → List Round → M Collected
collect u start milliseconds max_messages rounds s =
    collect_loop u (start + milliseconds) max_messages rounds (start + s.keepalive * 500)
      (take max_messages s.early) (record s { early = drop max_messages s.early })
