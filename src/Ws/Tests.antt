-- ===== src/Ws/Tests.antt =====
-- The WebSocket theorems on a concrete connection.
use omarchy_hardware.Common.{
  ℕ, ◌+◌, ◌*◌, ◌≤◌, ◌≡◌, refl, true, false, some, none, List, [], ◌∷◌, ◌++◌, arith,
}
use omarchy_hardware.Common.Text.{codes}
use omarchy_hardware.Ws.Client.{chunk, quiet, Python, Client, ok}
use omarchy_hardware.Ws.Client.Stream.{chunks}
use omarchy_hardware.Ws.Frame.{op_text, op_ping, op_cont, send_frame}
use omarchy_hardware.Ws.Frame.Server.{server_read, server_read-send_frame}
use omarchy_hardware.Ws.Frame.Reads.{server_frame}
use omarchy_hardware.Ws.Receive.{recv_text}
use omarchy_hardware.Ws.Receive.Ends.{Returned}
use omarchy_hardware.Ws.Receive.InTime.{recv_text-in_time}
use omarchy_hardware.Ws.Receive.Fragments.{ping, opening, ending}
use omarchy_hardware.Ws.Receive.Message.{recv_text-message}

-- A clock that stands still, and random bytes that are not random.
abbrev python : Python
python = record {
  ticks_per_second = 1000;
  monotonic = λ i. 70000;
  urandom = λ i. 0x5A;
  encode = λ t. some t;
  decode = λ bs. bs;
}

abbrev fragments : List ℕ
fragments =
    server_frame true op_ping (codes "?")
    ++ (server_frame false op_text (codes "hel") ++ server_frame true op_cont (codes "lo"))

-- The first byte has been read before, and the others come in one chunk.
abbrev connected : Client
connected = record {
  buffer = 0x89 ∷ [];
  deadline = none;
  inbox =
      chunk 1 (
        b'?' ∷ (server_frame false op_text (codes "hel") ++ server_frame true op_cont (codes "lo")))
      ∷ quiet
      ∷ [];
  sends = [];
  sent = [];
  readings = 0;
  drawn = 0;
}

server_read-send_frame_example :
    (bytes : List ℕ) × (send_frame python op_text (codes "hi") connected
      ≡ (ok tt, record connected { sent = bytes ∷ []; drawn = 4 }))
    × (server_read (bytes ++ (1 ∷ [])) ≡ some (op_text, codes "hi", 1 ∷ []))
server_read-send_frame_example =
    server_read-send_frame python op_text (codes "hi") (1 ∷ []) connected (λ i. omega arith)
      (omega arith, (omega arith, tt)) (omega arith) (omega arith) refl

-- A clock that goes on by 600 ticks from one reading to the next.
abbrev ticking : Python
ticking = record python { monotonic = λ i. 70000 + 600 * i }

recv_text-in_time_example :
    ((recv_text ticking (some 1000) connected).1.readings ≤ 4)
    × Returned ticking true (recv_text ticking (some 1000) connected)
recv_text-in_time_example =
    recv_text-in_time ticking 1000 2 connected (omega arith) (λ i h. omega (arith, h))

recv_text-message_example :
    (s' : Client) × (recv_text python (some 1000) connected ≡ (ok (some (codes "hello")), s'))
    × (s'.buffer ++ chunks s'.inbox ≡ [])
recv_text-message_example =
    recv_text-message python (some 1000) (codes "hello") fragments [] connected (λ i j. omega arith)
      (λ i j. omega arith)
      (ping (codes "?") (omega arith) (opening (codes "hel") (ending (codes "lo")))) (omega arith)
      refl refl
