-- ===== src/Bridge.antt =====
-- `Bridge` of mcp/omarchy_hardware/bridge.py: its counters, and a turn of its thread. The clock is in
-- milliseconds; `json.dumps` and `json.loads` are parameters, by what they come to.
pub mod Counted
pub mod Registry
mod Tests
use omarchy_hardware.Common.{
  ℕ, suc, ◌+◌, ◌-◌, ltb, leb, Bool, true, false, is_some, Option, none, some, List, [], ◌∷◌, ◌++◌,
  length, drop, if◌then◌else◌,
}
use omarchy_hardware.Common.Text.{Text, codes}

-- What `_publish` comes to: nothing, a `ToolError` with its message, or another exception, by name.
pub data Published : Type 0 where
  sent : Published
  refused : Text → Published
  broke : Text → Published

-- The fields that change.
pub record Bridge : Type 0 where
  pub published : ℕ
  pub dropped_rate : ℕ
  pub dropped_budget : ℕ
  pub dropped_size : ℕ
  pub errors : List Text
  pub stopped : Bool
  pub stop_reason : Option Text
  pub pending : Option (List ℕ)
  pub last_sent : ℕ

-- `[*self.errors[-4:], message]`
unfoldable pub keep_error : List Text → Text → List Text
keep_error errors message = drop (length errors - 4) errors ++ message ∷ []

unfoldable pub stop : Text → Bridge → Bridge
stop reason b = record b {
  stop_reason = if is_some b.stop_reason then b.stop_reason else some reason;
  stopped = true;
}

unfoldable pub publish_result : Published → Bridge → Bridge
unfolding keep_error
publish_result sent b = record b { published = b.published + 1 }
publish_result (refused message) b = record b { errors = keep_error b.errors message }
publish_result (broke name) b = record b {
  errors = keep_error b.errors (codes "publish failed (" ++ (name ++ codes ")"));
}

-- What the environment answers when a payload is sent.
pub record Attempt : Type 0 where
  pub charged : Bool
  pub published : Published
  pub sent_at : ℕ

unfoldable pub send : Attempt → Bridge → Bridge
unfolding publish_result
send a b =
    if b.stopped
    then b
    else if a.charged
    then (record (publish_result a.published b) { last_sent = a.sent_at })
    else record b { dropped_budget = b.dropped_budget + 1 }

-- The time between two messages is over.
unfoldable pub is_due : ℕ → ℕ → Bridge → Bool
is_due min_interval now b = leb (b.last_sent + min_interval) now

unfoldable pub set_pending : List ℕ → Bridge → Bridge
set_pending payload b =
    let rate = if is_some b.pending then b.dropped_rate + 1 else b.dropped_rate in
    record b { dropped_rate = rate; pending = some payload }

-- The limits of a bridge.
pub record Limits : Type 0 where
  pub min_interval : ℕ
  pub max_payload : ℕ
  pub deadline : ℕ

-- `_offer`, of what `json.dumps` makes of the reading: `none` is a `ValueError`.
unfoldable pub offer_payload : Limits → ℕ → Attempt → Option (List ℕ) → Bridge → Bridge
unfolding send is_due set_pending
offer_payload limits now a none b = record b { dropped_size = b.dropped_size + 1 }
offer_payload limits now a (some payload) b =
    if ltb limits.max_payload (length payload)
    then record b { dropped_size = b.dropped_size + 1 }
    else if is_due limits.min_interval now b
    then send a b
    else set_pending payload b

unfoldable pub offer : Limits → ℕ → Attempt → Option (List ℕ) → Bridge → Bridge
unfolding offer_payload
offer limits now a payload b = if b.stopped then b else offer_payload limits now a payload b

unfoldable pub flush_pending : Limits → ℕ → Attempt → Option (List ℕ) → Bridge → Bridge
unfolding send is_due
flush_pending limits now a none b = b
flush_pending limits now a (some payload) b =
    if is_due limits.min_interval now b then send a (record b { pending = none }) else b

-- What `session.expect` brings: an error, no match, or a reading and what `json.dumps` makes of it.
pub data Heard : Type 0 where
  closed : Heard
  silence : Heard
  reading : Option (List ℕ) → Heard

-- A turn of the loop, as the environment gives it.
pub record Turn : Type 0 where
  pub now : ℕ
  pub flushing : Attempt
  pub heard : Heard
  pub offered_at : ℕ
  pub offering : Attempt

unfoldable pub hear : Limits → Turn → Heard → Bridge → Bridge
unfolding stop offer
hear limits t closed b = stop (codes "serial session closed") b
hear limits t silence b = b
hear limits t (reading payload) b = offer limits t.offered_at t.offering payload b

unfoldable pub turn : Limits → Turn → Bridge → Bridge
unfolding stop flush_pending hear
turn limits t b =
    if b.stopped
    then b
    else if leb limits.deadline t.now
    then stop (codes "duration reached") b
    else hear limits t t.heard (flush_pending limits t.now t.flushing b.pending b)

-- `_run`, with the stops that come from elsewhere before each turn.
unfoldable pub run : Limits → List (Bool × Turn) → Bridge → Bridge
unfolding turn stop
run limits [] b = b
run limits ((true, t) ∷ ts) b = run limits ts (turn limits t (stop (codes "stopped") b))
run limits ((false, t) ∷ ts) b = run limits ts (turn limits t b)
