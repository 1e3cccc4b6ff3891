-- ===== src/Serial/Tests.antt =====
-- The session theorems on a session with a few bytes.
use omarchy_hardware.Common.{
  ℕ, ◌≡◌, ◌≤◌, refl, inl, inr, min, max, true, false, some, none, List, [], ◌∷◌, length, take,
  arith, ◌==◌, if◌then◌else◌,
}
use omarchy_hardware.Common.Text.{Text, codes, starts_with}
use omarchy_hardware.Serial.{
  Session, got, Port, drain, drain_turn, handle_read, receive, store, require_open, buffer_limit,
}
use omarchy_hardware.Serial.Drained.{IsBounded, drain-IsBounded, Conserves}
use omarchy_hardware.Serial.Read.{
  Moment, Taken, take_bytes, find, available, serve, when_open, read_round, read_loop,
  terminator_of, read,
}
use omarchy_hardware.Serial.Read.Promises.{arrivals, read-Conserves}
use omarchy_hardware.Serial.Expect
use omarchy_hardware.Serial.Expect.{
  Matcher, matched, line_end, rstrip_newline, push, judge, scan, expect_loop, expect,
}
use omarchy_hardware.Common.Unicode.{lstrip}
use omarchy_hardware.Serial.Expect.Lines.{IsOver, expect-IsOver}

abbrev session : Session
session = record {
  buffer = codes "ok";
  dropped = 3;
  last_rx = none;
  errors = [];
  draining = true;
  closing = false;
  failed = false;
  clear_requested = 1;
  clear_completed = 1;
  clear_discarded = 0;
}

abbrev chunk_port : Port
chunk_port = record {
  read = got (10 ∷ 65 ∷ []);
  in_waiting = got 0;
  reset_input_buffer = got tt;
  time = 7;
}

abbrev moments : List Moment
moments = record { now = 10; ports = chunk_port ∷ [] } ∷ record { now = 500; ports = [] } ∷ []

drain-IsBounded_example : IsBounded (drain (chunk_port ∷ chunk_port ∷ []) session)
drain-IsBounded_example = drain-IsBounded (chunk_port ∷ chunk_port ∷ []) session (omega arith)

abbrev first_line : Taken
first_line = record {
  bytes = b'o' ∷ b'k' ∷ 10 ∷ [];
  timed_out = false;
  bytes_remaining = 1;
  bytes_dropped = 3;
}

abbrev after : Session
after = record session { buffer = 65 ∷ []; last_rx = some 7 }

read-Conserves_example :
    (n : ℕ) × Conserves (arrivals (take n moments)) first_line.bytes session after
    × (length first_line.bytes ≤ max 1 (min 100 buffer_limit))
unfolding read read_loop read_round when_open serve available find starts_with take_bytes
    terminator_of require_open drain drain_turn handle_read receive store
read-Conserves_example =
    read-Conserves 0 100 400 (10 ∷ []) moments session after first_line (refl, refl, refl) refl

abbrev any_line : Matcher Text
any_line = record {
  decode = λ bytes. bytes;
  match_line = λ line. if length line == 0 then none else some line;
}

expect-IsOver_example : IsOver (expect any_line 0 true 400 moments session)
expect-IsOver_example =
    expect-IsOver any_line 0 true 400 moments session (record { now = 500; ports = [] })
      (inr (inl refl)) (omega arith)

-- The line that arrives in two pieces.
told : expect any_line 0 true 400 moments session ≡ (
  matched (codes "ok") (codes "ok") 1 [],
  record session { buffer = codes "A"; last_rx = some 7 },
)
unfolding expect expect_loop scan Expect.when_open judge line_end find starts_with rstrip_newline
    lstrip push drain drain_turn handle_read receive store require_open
told = refl
