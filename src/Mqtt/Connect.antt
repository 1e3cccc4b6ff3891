-- ===== src/Mqtt/Connect.antt =====
-- `_connect`, `_handshake`, `_abandon` and `close` of mcp/omarchy_hardware/mqtt_lite.py.
use Prim.Native.Nat.{bit_or}
use omarchy_hardware.Common.{
  ℕ, ◌*◌, ◌/◌, ◌==◌, max, Bool, true, false, not, ◌||◌, ◌&&◌, Option, none, some, List, [], ◌∷◌,
  ◌++◌, length, if◌then◌else◌,
}
use omarchy_hardware.Common.Text.{Text, codes}
use omarchy_hardware.Common.Utf8.{Utf8}
use omarchy_hardware.Mqtt.Outcome.{
  Outcome, ok, timeout, err, stuck, connect_failed, tls_failed, tls_files, connack_timeout,
  no_connack, refused, unencodable, struct_error,
}
use omarchy_hardware.Mqtt.Wire.{pack_word, text_field, packet}
use omarchy_hardware.Mqtt.Client.{
  Client, M, ◌>>=◌, ◌>>◌, pure, raise, lift, send, read_packet, on_timeout, kind_of,
}

-- The fields of `Options` that decide what is sent; the timeout in milliseconds.
pub record Options : Type 0 where
  pub tls : Bool
  pub timeout_ms : ℕ
  pub username : Option Text
  pub password : Option Text

-- What the network does to `_connect`: whether the TLS files load, whether the connection is made,
-- and how `wrap_socket` ends.
pub data Wrap : Type 0 where
  secured ssl_error os_error : Wrap

pub record Network : Type 0 where
  pub files_load : Bool
  pub dials : Bool
  pub wrap : Wrap

password_field : Utf8 → Option Text → M (List ℕ)
password_field u none = pure []
password_field u (some password) = lift (text_field u password)

password_flag : Option Text → ℕ
password_flag none = 0
password_flag (some password) = 0x40

-- The flags of CONNECT and the fields that follow the client identifier.
credentials : Utf8 → Option Text → Option Text → M (ℕ × List ℕ)
unfolding password_field password_flag
credentials u none password = pure (0x02, [])
credentials u (some username) password = do
  name ← lift (text_field u username)
  secret ← password_field u password
  pure (bit_or (bit_or 0x02 0x80) (password_flag password), name ++ secret)

-- `body[1]`, of a body of two bytes.
abbrev second : List ℕ → ℕ
second (a ∷ b ∷ bs) = b
second _ = 0

check_connack : ℕ → List ℕ → M (Unit {0})
check_connack kind body =
    if not (kind_of kind == 0x20) || not (length body == 2)
    then raise no_connack
    else if not (second body == 0)
    then raise (refused (second body))
    else pure tt

-- `suffix` is `os.urandom(6).hex()`.
unfoldable pub handshake : Utf8 → Options → Text → M (Unit {0})
unfolding credentials check_connack
handshake u opts suffix = do
  client_id ← lift (text_field u (codes "omarchy-hw-" ++ suffix))
  (flags, fields) ← credentials u opts.username opts.password
  let keepalive = max 10 (opts.timeout_ms / 1000 * 2)
  (λ s. (ok tt, record s { keepalive = keepalive }))
  protocol ← lift (text_field u (codes "MQTT"))
  word ← lift (pack_word keepalive)
  let variable = (protocol ++ (4 ∷ flags ∷ [])) ++ word
  bytes ← lift (packet 0x10 (variable ++ (client_id ++ fields)))
  send bytes
  (kind, body) ← on_timeout connack_timeout read_packet
  check_connack kind body

-- `_abandon`
abbrev abandon : Client → Client
abandon s = record s { connected = false }

-- `_connect` abandons the socket on an `MqttError`, and not on the other exceptions.
guarded : Outcome (Unit {0}) × Client → Outcome (Unit {0}) × Client
guarded (ok x, s) = (ok x, s)
guarded (err unencodable, s) = (err unencodable, s)
guarded (err struct_error, s) = (err struct_error, s)
guarded (err e, s) = (err e, abandon s)
guarded (timeout, s) = (err connect_failed, abandon s)
guarded (stuck, s) = (stuck, s)

wrapped : Wrap → M (Unit {0}) → M (Unit {0})
unfolding guarded
wrapped secured m s = guarded (m (record s { connected = true }))
wrapped ssl_error m s = (err tls_failed, abandon s)
wrapped os_error m s = (err connect_failed, abandon s)

-- `_connect`, the `__enter__` of the client.
unfoldable pub connect : Utf8 → Network → Options → Text → M (Unit {0})
unfolding wrapped
connect u net opts suffix =
    if opts.tls && not net.files_load
    then raise tls_files
    else if not net.dials
    then raise connect_failed
    else wrapped (if opts.tls then net.wrap else secured) (handshake u opts suffix)

farewell : M (Unit {0})
farewell = do bytes ← lift (packet 0xe0 []); send bytes

-- `close`, the `__exit__` of the client: the DISCONNECT is sent if it can be.
unfoldable pub close : Client → Client
unfolding farewell
close s = if s.connected then abandon (farewell s).1 else s
