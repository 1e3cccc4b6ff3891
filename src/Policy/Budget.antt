-- ===== src/Policy/Budget.antt =====
-- `RollingBudget` of mcp/omarchy_hardware/policy.py. Times are ticks of the monotonic clock; a
-- charge runs as one step, under the lock.
pub mod Window
use omarchy_hardware.Common.{
  ℕ, ◌+◌, ◌-◌, ◌*◌, ltb, keep, Option, none, some, List, [], ◌∷◌, ◌++◌, if◌then◌else◌,
}
use omarchy_hardware.Common.Text.{Text}
use omarchy_hardware.Common.Dict.{Dict, lookup, insert}
use omarchy_hardware.Errors.{Result, ok, err, rate_limited}

-- The time and the count of a charge that was admitted.
abbrev pub Event : Type 0
Event = ℕ × ℕ

pub record RollingBudget : Type 0 where
  pub window : ℕ
  pub limit : ℕ
  pub events : Dict (List Event)

abbrev pub ticks_per_second : ℕ
ticks_per_second = 1000000000

-- `WriteBudget`, `ActuationBudget` and `MingWriteBudget` keep the window of a minute, `FlashBudget`
-- has one of an hour.
unfoldable pub minute_budget : ℕ → RollingBudget
minute_budget limit = record { window = 60 * ticks_per_second; limit = limit; events = [] }

unfoldable pub flash_budget : ℕ → RollingBudget
flash_budget limit = record { window = 3600 * ticks_per_second; limit = limit; events = [] }

-- `self._events.get(target, [])`
or_empty : Option (List Event) → List Event
or_empty none = []
or_empty (some events) = events

unfoldable pub events_of : RollingBudget → Text → List Event
unfolding or_empty
events_of b target = or_empty (lookup target b.events)

-- `[(t, n) for t, n in ... if now - t < self.window]`
unfoldable pub recent : ℕ → ℕ → List Event → List Event
recent window now = keep (λ e. ltb (now - e.0) window)

unfoldable pub total : List Event → ℕ
total [] = 0
total ((t, n) ∷ events) = n + total events

unfoldable pub charge : RollingBudget → ℕ → Text → ℕ → Result (Unit {0}) × RollingBudget
charge b now target count =
    let events = recent b.window now (events_of b target) in
    if ltb b.limit (total events + count)
    then (err rate_limited, b)
    else (ok tt, record b { events = insert target (events ++ (now, count) ∷ []) b.events })
