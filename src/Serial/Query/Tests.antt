-- ===== src/Serial/Query/Tests.antt =====
-- A query on a session with stale bytes, and the theorems about queries.
use omarchy_hardware.Common.{
  ℕ, ◌+◌, ◌≡◌, ◌≢◌, refl, inl, inr, true, false, some, List, [], ◌∷◌, ◌++◌, length, take, arith,
}
use omarchy_hardware.Common.Text.{codes, starts_with}
use omarchy_hardware.Serial.{
  Session, got, broke, Port, opened, drain, drain_turn, handle_read, discard, receive, store,
  require_open,
}
use omarchy_hardware.Serial.Drained.{received}
use omarchy_hardware.Serial.Read.{
  done, waiting, take_bytes, find, available, serve, when_open, read_round, read_loop,
  terminator_of, read,
}
use omarchy_hardware.Serial.Read.Promises.{arrivals}
use omarchy_hardware.Serial.Query.{
  clear_round, clear_loop, clear, written, write, Environment, Queried, query, status, last_turn,
  closed_port, close,
}
use omarchy_hardware.Serial.Query.Turns.{turns_of, Empties}
use omarchy_hardware.Serial.Query.Fresh.{query-Fresh}
use omarchy_hardware.Serial.Query.Ends.{query-ends}

abbrev stale : Session
stale = record opened { buffer = codes "old" }

abbrev turn_with : List ℕ → Port
turn_with bytes = record {
  read = got bytes;
  in_waiting = got 2;
  reset_input_buffer = got tt;
  time = 7;
}

abbrev env : Environment
env = record {
  clear_start = 0;
  clear_moments =
      record { now = 1; ports = [] }
      ∷ record { now = 2; ports = turn_with (codes "er") ∷ [] }
      ∷ record { now = 2100; ports = [] }
      ∷ [];
  before_write = [];
  write_to_port = λ payload. got (some (length payload));
  before_read = turn_with (codes "42") ∷ [];
  read_start = 10;
  read_moments =
      record { now = 11; ports = turn_with (10 ∷ codes "x") ∷ [] }
      ∷ record { now = 1010; ports = [] }
      ∷ [];
}

abbrev reply : Queried
reply = record {
  bytes_written = 2;
  taken = record {
    bytes = codes "42" ++ 10 ∷ [];
    timed_out = false;
    bytes_remaining = 1;
    bytes_dropped = 0;
  };
  bytes_discarded = 7;
}

abbrev after : Session
after = record opened {
  buffer = codes "x";
  last_rx = some 7;
  clear_requested = 1;
  clear_completed = 1;
  clear_discarded = 7;
}

queried : query env (codes "t?") 1000 (10 ∷ []) stale ≡ (done reply, after)
unfolding query clear clear_loop clear_round write written when_open require_open drain drain_turn
    handle_read discard receive store read read_loop read_round serve available find starts_with
    terminator_of take_bytes
queried = refl

query-Fresh_example :
    (count : ℕ) × (turn : Port) × (later : List Port) × (turns_of (take count env.clear_moments)
      ≡ turn ∷ later)
    × Empties turn (length stale.buffer) reply.bytes_discarded
    × (n : ℕ) × (lost : List ℕ) × (received (later ++ (env.before_write ++ env.before_read))
          ++ arrivals (take n env.read_moments)
        ≡ lost ++ (reply.taken.bytes ++ after.buffer))
    × (after.dropped ≡ stale.dropped + length lost)
query-Fresh_example =
    query-Fresh env (codes "t?") 1000 (10 ∷ []) stale after reply (refl, refl, refl) queried

query-ends_example : (query env (codes "t?") 1000 (10 ∷ []) stale).0 ≢ waiting
query-ends_example =
    query-ends env (codes "t?") 1000 (10 ∷ []) stale (record { now = 2100; ports = [] })
      (record { now = 1010; ports = [] }) (inr (inr (inl refl))) (omega arith) (inr (inl refl))
      (omega arith)

shut :
    (status true (close (some (turn_with (codes "z"))) (broke (codes "io")) stale)).errors
    ≡ codes "close failed: io" ∷ []
unfolding status close last_turn closed_port handle_read receive store
shut = refl
