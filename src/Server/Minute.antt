-- ===== src/Server/Minute.antt =====
-- Calls of the tools in turn, whose writes to one port in any minute are within the budget.
use mathlib.Core.Path.{subst}
use omarchy_hardware.Common.{
  ℕ, ◌*◌, ◌≤◌, ◌≡◌, refl, sym, ap, ◌∙◌, inl, inr, Bool-cases, Option, none, some, List, [], ◌∷◌,
  length, arith,
}
use omarchy_hardware.Common.Text.{Text, text_eq}
use omarchy_hardware.Config.{Config}
use omarchy_hardware.Policy.Budget.{RollingBudget, minute_budget, ticks_per_second}
use omarchy_hardware.Policy.Budget.Window.{spent_at, charged, charge-cases, events_of-empty}
use omarchy_hardware.Gpio.Remote.{Outcome, ok, err, unexpected}
use omarchy_hardware.Gpio.Tools.{keep_budget}
use omarchy_hardware.Server.{
  Python, World, Moment, Writing, check_write, check_exec, charge_write, write_out, serial_write,
  serial_query, mpy_exec, Tool, writes, queries, executes, Call, after_tool, run_calls,
}
use omarchy_hardware.Server.Allowed.{check_write-Allows, check_exec-Allows}
use omarchy_hardware.Server.Spent.{
  handed_to, IsWithin, IsWithin-from, IsWithin-later, keep_budget-twice, audited-hands,
  charged-IsWithin-same, charged-IsWithin-other,
}

-- A charge that is refused leaves what is known as it was.
refused-IsWithin :
    (limit : ℕ) (target : Text) (last now : ℕ) (w w' : World)
    → last ≤ now
    → IsWithin limit target last w
    → w'.budget ≡ some (keep_budget w.budget limit)
    → w'.log ≡ w.log
    → IsWithin limit target now w'
refused-IsWithin limit target last now w w' later h paid same =
    let known = IsWithin-later limit target last now w h later in
    IsWithin-from limit target now w' (keep_budget w.budget limit) known.charges
      (sym (ap (λ o. keep_budget o limit) paid ∙ keep_budget-twice w.budget limit)) known.is_minute
      known.accounts (λ at. rw same (known.covers at))

write_out-IsWithin :
    {A : Type 0} (target : Text) (last : ℕ) (m : Moment) (operation : List ℕ → Outcome A)
    (x : Writing) (w : World)
    → last ≤ m.now
    → IsWithin x.config.write_budget_bytes_per_min target last w
    → IsWithin x.config.write_budget_bytes_per_min target m.now (write_out m operation (ok x) w).1
unfolding write_out charge_write
write_out-IsWithin target last m operation x w later h =
    let limit = x.config.write_budget_bytes_per_min in
    let kept = keep_budget w.budget limit in
    elim (charge-cases kept m.now x.port (length x.payload)) [
      | inr (e, refused) ↦ rw refused (
          refused-IsWithin limit target last m.now w (record w { budget = some kept }) later h refl
            refl)
      | inl (room, done) ↦
          let w1 = record w { budget = some (charged kept m.now x.port (length x.payload)) } in
          let (same, hands) = audited-hands target m x operation m.opening w1 in
          rw done (elim (Bool-cases (text_eq x.port target)) [
            | inl e ↦ charged-IsWithin-same target last m x w _ later h room same e (rw e at hands)
            | inr e ↦
                charged-IsWithin-other target last m x w _ later h room same e
                  (elim (rw e at hands) [ inl k ↦ k | inr k ↦ k ])
          ])
    ]

-- A configuration, if there is one, has this write budget.
abbrev pub IsLimited : ℕ → Option Config → Type 0
IsLimited limit none = Unit
IsLimited limit (some config) = config.write_budget_bytes_per_min ≡ limit

checked-IsWithin :
    {A : Type 0} (limit : ℕ) (target : Text) (last : ℕ) (m : Moment)
    (operation : List ℕ → Outcome A) (checked : Outcome Writing) (w : World)
    → (loaded : Option Config) → ((x : Writing) → checked ≡ ok x → loaded ≡ some x.config)
    → IsLimited limit loaded
    → last ≤ m.now
    → IsWithin limit target last w
    → IsWithin limit target m.now (write_out m operation checked w).1
unfolding write_out
checked-IsWithin limit target last m operation (err e) w loaded configured limited later h =
    IsWithin-later limit target last m.now w h later
checked-IsWithin limit target last m operation unexpected w loaded configured limited later h =
    IsWithin-later limit target last m.now w h later
checked-IsWithin limit target last m operation (ok x) w loaded configured limited later h =
    let e : x.config.write_budget_bytes_per_min ≡ limit =
      subst (IsLimited limit) (configured x refl) limited in
    subst (λ n. IsWithin n target m.now (write_out m operation (ok x) w).1) e
      (write_out-IsWithin target last m operation x w later
        (subst (λ n. IsWithin n target last w) (sym e) h))

after_tool-IsWithin :
    {A B : Type 0} (py : Python) (limit : ℕ) (target : Text) (last : ℕ) (m : Moment)
    (tool : Tool A B) (w : World)
    → IsLimited limit m.config
    → IsLimited limit m.config_again
    → last ≤ m.now
    → IsWithin limit target last w
    → IsWithin limit target m.now (after_tool py m tool w)
unfolding after_tool serial_write serial_query mpy_exec
after_tool-IsWithin py limit target last m (writes operation r) w limited again later h =
    checked-IsWithin limit target last m operation (check_write py m w r) w m.config
      (λ x e. (check_write-Allows py m w r x e).is_loaded) limited later h
after_tool-IsWithin py limit target last m (queries operation r) w limited again later h =
    checked-IsWithin limit target last m operation (check_write py m w r) w m.config
      (λ x e. (check_write-Allows py m w r x e).is_loaded) limited later h
after_tool-IsWithin py limit target last m (executes operation session_id code confirm) w limited
      again later h =
    checked-IsWithin limit target last m operation (check_exec py m w session_id code confirm) w
      m.config_again (λ x e. (check_exec-Allows py m w session_id code confirm x e).is_loaded) again
      later h

-- Calls in the order of a clock that does not go back, with one write budget in every configuration.
abbrev pub IsTimed : {A B : Type 0} → ℕ → ℕ → List (Call A B) → Type 0
IsTimed limit last [] = Unit
IsTimed limit last (c ∷ calls) =
    (last ≤ c.moment.now)
    × IsLimited limit c.moment.config
    × IsLimited limit c.moment.config_again
    × IsTimed limit c.moment.now calls

run_calls-IsWithin :
    {A B : Type 0} (py : Python) (limit : ℕ) (target : Text) (last : ℕ) (calls : List (Call A B))
    (w : World)
    → IsTimed limit last calls
    → IsWithin limit target last w
    → (end : ℕ) × IsWithin limit target end (run_calls py calls w)
unfolding run_calls
run_calls-IsWithin py limit target last [] w timed h = (last, h)
run_calls-IsWithin py limit target last (c ∷ calls) w (later, limited, again, timed) h =
    let arranged = record w { sessions = c.sessions; bridges = c.bridges } in
    let here : IsWithin limit target last arranged = record {
      is_minute = h.is_minute;
      charges = h.charges;
      accounts = h.accounts;
      covers = h.covers;
    } in
    run_calls-IsWithin py limit target c.moment.now calls _ timed
      (after_tool-IsWithin py limit target last c.moment c.tool arranged limited again later here)

keep_budget-limit :
    (budget : Option RollingBudget) (limit : ℕ) → (keep_budget budget limit).limit ≡ limit
unfolding minute_budget
keep_budget-limit none limit = refl
keep_budget-limit (some b) limit = refl

-- Nothing was charged and nothing handed over.
fresh-IsWithin :
    (limit : ℕ) (target : Text) (w : World)
    → w.budget ≡ none
    → w.log ≡ []
    → IsWithin limit target 0 w
unfolding minute_budget handed_to spent_at
fresh-IsWithin limit target w fresh empty =
    IsWithin-from limit target 0 w (minute_budget limit) []
      (sym (ap (λ o. keep_budget o limit) fresh)) refl
      (record {
        bounded = λ at. omega arith;
        kept = λ at h.
            ap (spent_at (60 * ticks_per_second) at)
              (events_of-empty (minute_budget limit) target refl);
      })
      (λ at. rw empty (omega arith))

-- If nothing was charged or handed over before, the clock does not go back and every
-- configuration that loads has one write budget, the payloads that any calls of serial_write,
-- serial_query and mpy_exec hand to the operations on one port in any window of a minute have
-- no more bytes in all than the budget, whatever the sessions, the bridges, the devices and
-- the audit log do.
pub run_calls-le-budget :
    {A B : Type 0} (py : Python) (limit : ℕ) (port : Text) (calls : List (Call A B)) (w : World)
    (at : ℕ)
    → w.budget ≡ none
    → w.log ≡ []
    → IsTimed limit 0 calls
    → spent_at (60 * ticks_per_second) at (handed_to port (run_calls py calls w).log) ≤ limit
run_calls-le-budget py limit port calls w at fresh empty timed =
    let (last, h) =
      run_calls-IsWithin py limit port 0 calls w timed (fresh-IsWithin limit port w fresh empty) in
    let below : spent_at (keep_budget (run_calls py calls w).budget limit).window at
          (handed_to port (run_calls py calls w).log)
        ≤ (keep_budget (run_calls py calls w).budget limit).limit =
      omega (arith, h.covers at, h.accounts.bounded at) in
    subst (λ window. spent_at window at (handed_to port (run_calls py calls w).log) ≤ limit)
      h.is_minute
      (subst
        (λ bound.
          spent_at (keep_budget (run_calls py calls w).budget limit).window at
            (handed_to port (run_calls py calls w).log)
          ≤ bound)
        (keep_budget-limit (run_calls py calls w).budget limit) below)
