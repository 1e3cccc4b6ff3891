-- ===== src/Mqtt/Outcome.antt =====
-- What a call of mcp/omarchy_hardware/mqtt_lite.py ends with.
use omarchy_hardware.Common.{ℕ}

-- What the module raises: an `MqttError`, with a constructor for each of its messages; last,
-- Python's `UnicodeEncodeError` and `struct.error`, which the module does not catch.
pub data MqttError : Type 0 where
  packet_too_large string_too_long not_connected connect_failed tls_failed tls_files : MqttError
  connack_timeout no_connack : MqttError
  refused : ℕ → MqttError
  send_lost read_lost wait_lost closed bad_length : MqttError
  oversized : ℕ → MqttError
  suback_timeout bad_suback subscription_refused too_many_early : MqttError
  bad_publish bad_topic bad_qos puback_timeout : MqttError
  unencodable struct_error : MqttError

-- A result, Python's `TimeoutError`, an `MqttError`; `stuck` is no Python value: the fuel of a
-- loop ran out, or the readings of the clock that a wait was given.
pub data Outcome {ℓ} (A : Type ℓ) : Type ℓ where
  ok : A → Outcome A
  timeout : Outcome A
  err : MqttError → Outcome A
  stuck : Outcome A

infixl 10 ◌>>=◌
abbrev pub ◌>>=◌ {ℓ κ} : {A : Type ℓ} {B : Type κ} → Outcome A → (A → Outcome B) → Outcome B
ok a >>= f = f a
timeout >>= f = timeout
err e >>= f = err e
stuck >>= f = stuck
