-- ===== src/Bridge/Tests.antt =====
-- The bridge theorems on a short run.
use omarchy_hardware.Common.{ℕ, refl, true, false, some, none, [], ◌∷◌, arith}
use omarchy_hardware.Common.Text.{codes}
use omarchy_hardware.Common.Dict.{Dict}
use omarchy_hardware.Bridge.{sent, Bridge, Attempt, Limits, reading, silence, Turn, run}
use omarchy_hardware.Bridge.Counted.{IsPaced, run-IsPaced}
use omarchy_hardware.Bridge.Registry.{Entry, active, takes_port}
use omarchy_hardware.Bridge.Registry.OnePerPort.{
  IsRegistered, reserving, finishing, steps, steps-IsRegistered,
}

abbrev fresh : Bridge
fresh = record {
  published = 0;
  dropped_rate = 0;
  dropped_budget = 0;
  dropped_size = 0;
  errors = [];
  stopped = false;
  stop_reason = none;
  pending = none;
  last_sent = 0;
}

abbrev limits : Limits
limits = record { min_interval = 200; max_payload = 64; deadline = 9000 }

abbrev attempt : ℕ → Attempt
attempt time = record { charged = true; published = sent; sent_at = time }

abbrev first_turn : Turn
first_turn = record {
  now = 1000;
  flushing = attempt 1001;
  heard = reading (some (codes "{}"));
  offered_at = 1010;
  offering = attempt 1012;
}

abbrev last_turn : Turn
last_turn = record {
  now = 1300;
  flushing = attempt 1301;
  heard = silence;
  offered_at = 1400;
  offering = attempt 1401;
}

run-IsPaced_example :
    IsPaced 200 fresh (run limits ((false, first_turn) ∷ (true, last_turn) ∷ []) fresh)
run-IsPaced_example =
    run-IsPaced limits ((false, first_turn) ∷ (true, last_turn) ∷ []) fresh
      ((omega arith, omega arith), ((omega arith, omega arith), tt))

abbrev one : Dict Entry
one = (codes "a1", record { port = codes "/dev/ttyACM0"; running = true }) ∷ []

steps-IsRegistered_example :
    IsRegistered
      (steps (reserving (codes "b2") (codes "/dev/ttyUSB0") ∷ finishing (codes "a1") ∷ []) one)
unfolding active takes_port
steps-IsRegistered_example =
    steps-IsRegistered (reserving (codes "b2") (codes "/dev/ttyUSB0") ∷ finishing (codes "a1") ∷ [])
      one (omega arith, (refl, tt))
