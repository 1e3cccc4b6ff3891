-- ===== src/Gpio/Tools.antt =====
-- The GPIO tools of mcp/omarchy_hardware/server.py, with `_resolve_host`, `_require_confirm`,
-- `_audited` and the budget of actuations.
use omarchy_hardware.Common.{
  ℕ, ◌==◌, ◌||◌, is_some, Bool, true, false, Option, none, some, List, [], ◌∷◌, ◌++◌,
}
use omarchy_hardware.Common.Text.{Text}
use omarchy_hardware.Common.Dict.{lookup}
use omarchy_hardware.Config.{Config}
use omarchy_hardware.Errors.{
  Result, host_not_allowed, unconfirmed, pin_not_allowed, audit_log_failed,
}
use omarchy_hardware.Policy.{check_host, check_pin}
use omarchy_hardware.Policy.Budget.{RollingBudget, minute_budget, charge}
use omarchy_hardware.Settings.Urls.{decimal}
use omarchy_hardware.Gpio.Remote.{
  Operation, started, ended, Recorded, written, os_error, unreadable, Outcome, ok, err, unexpected,
  Session, Answer, M, then_do, ◌>>=◌, ◌>>◌, pure, raise, choose, of_result, lift, emit,
}
use omarchy_hardware.Gpio.Pins.{Python, Pin, modes, Wrote, list_pins, read_pin, set_mode, write_pin}

-- `_resolve_host`
unfoldable pub resolve_host : Config → Option Text → List Text → Result Text
resolve_host config none (h ∷ []) = Result.ok h
resolve_host config none hosts = Result.err host_not_allowed
resolve_host config (some host) hosts = check_host host config (some hosts)

abbrev pub require_confirm : Bool → M (Unit {0})
require_confirm confirm = choose confirm (pure tt) (raise unconfirmed)

-- `_keep_budget`: a new budget, or the one there is with the configured limit.
abbrev pub keep_budget : Option RollingBudget → ℕ → RollingBudget
keep_budget none limit = minute_budget limit
keep_budget (some budget) limit = record budget { limit = limit }

abbrev pub put_budget : Result (Unit {0}) × RollingBudget → M (Unit {0})
put_budget (r, budget) s = (of_result r, record s { budget = some budget })

-- `_actuation_budget(config).charge(f"{target}:{pin}")`
unfoldable pub charge_pin : Config → Operation → M (Unit {0})
charge_pin config op s =
    put_budget
      (charge (keep_budget s.budget config.actuation_budget_per_min) s.now
        (op.host ++ (b':' ∷ decimal op.bcm)) 1)
      s

abbrev pub next_record : List Recorded → Recorded
next_record [] = written
next_record (r ∷ records) = r

abbrev pub later_records : List Recorded → List Recorded
later_records [] = []
later_records (r ∷ records) = records

abbrev pub recording : M Recorded
recording s = (ok (next_record s.records), record s { records = later_records s.records })

-- `audit.require`
abbrev pub required : Operation → Recorded → M (Unit {0})
required op written = emit (started op)
required op os_error = raise audit_log_failed
required op unreadable = λ s. (unexpected, s)

-- `_note_outcome`: whether there is a warning.
abbrev pub outcome_noted : Operation → Recorded → M Bool
outcome_noted op written = emit (ended op) >> pure false
outcome_noted op os_error = pure true
outcome_noted op unreadable = λ s. (unexpected, s)

abbrev pub note_outcome : Operation → M Bool
note_outcome op = recording >>= outcome_noted op

-- After the operation: its outcome is noted, and an exception is raised again.
abbrev pub audited_end :
    {A : Type 0} → Operation → Outcome A × Session → Outcome (A × Bool) × Session
audited_end op (ok a, s) = then_do (λ warning. pure (a, warning)) (note_outcome op s)
audited_end op (err e, s) = then_do (λ _. raise e) (note_outcome op s)
audited_end op (unexpected, s) = then_do (λ _ s. (unexpected, s)) (note_outcome op s)

unfoldable pub audited : {A : Type 0} → Operation → M A → M (A × Bool)
audited op operation = (recording >>= required op) >>= λ _ s. audited_end op (operation s)

abbrev pub operation_of : Text → ℕ → Operation
operation_of host bcm = record { host = host; bcm = bcm }

module _ (py : Python) (config : Config) where
  unfoldable pub gpio_list_pins : Option Text → M (List Pin)
  unfolding resolve_host
  gpio_list_pins host = lift (resolve_host config host config.pi_hosts) >>= list_pins py config

  unfoldable pub gpio_read_pin : ℕ → Option Text → M Pin
  unfolding resolve_host
  gpio_read_pin bcm host = lift (resolve_host config host config.pi_hosts) >>= λ target.
      lift (check_pin bcm config) >>= λ pin. read_pin py config target pin

  -- What the two tools that change a pin do before it.
  abbrev pub cleared : Bool → ℕ → Option Text → (valid : Bool) → M Operation
  cleared confirm bcm host valid =
      require_confirm confirm
      >> (lift (resolve_host config host config.pi_hosts) >>= λ target.
          lift (check_pin bcm config) >>= λ pin.
          choose valid (pure (operation_of target pin)) (raise pin_not_allowed))

  unfoldable pub gpio_set_mode : ℕ → Text → Option Text → (confirm : Bool) → M (Pin × Bool)
  unfolding resolve_host charge_pin audited
  gpio_set_mode bcm mode host confirm =
      cleared confirm bcm host (is_some (lookup mode modes)) >>= λ op.
      charge_pin config op >> audited op (set_mode py config op.host op.bcm mode)

  unfoldable pub gpio_write_pin : ℕ → ℕ → Option Text → (confirm : Bool) → M (Wrote × Bool)
  unfolding resolve_host charge_pin audited
  gpio_write_pin bcm level host confirm =
      cleared confirm bcm host (level == 0 || level == 1) >>= λ op.
      charge_pin config op >> audited op (write_pin py config op.host op.bcm level)

-- A call of one of the tools.
pub data Call : Type 0 where
  listing : Option Text → Call
  reading : ℕ → Option Text → Call
  setting : ℕ → Text → Option Text → (confirm : Bool) → Call
  writing : ℕ → ℕ → Option Text → (confirm : Bool) → Call

-- The session that a call leaves.
unfoldable pub after_call : Python → Config → Call → Session → Session
unfolding gpio_list_pins gpio_read_pin gpio_set_mode gpio_write_pin
after_call py config (listing host) s = (gpio_list_pins py config host s).1
after_call py config (reading bcm host) s = (gpio_read_pin py config bcm host s).1
after_call py config (setting bcm mode host confirm) s =
    (gpio_set_mode py config bcm mode host confirm s).1
after_call py config (writing bcm level host confirm) s =
    (gpio_write_pin py config bcm level host confirm s).1

-- What the environment brings to a call: the time, and what it will answer.
pub record Moment : Type 0 where
  pub at : ℕ
  pub answers : List Answer
  pub records : List Recorded

abbrev pub at_moment : Moment → Session → Session
at_moment m s = record s { now = m.at; answers = m.answers; records = m.records }

-- Calls in turn.
unfoldable pub run_calls : Python → Config → List (Moment × Call) → Session → Session
unfolding after_call
run_calls py config [] s = s
run_calls py config ((m, call) ∷ calls) s =
    run_calls py config calls (after_call py config call (at_moment m s))
