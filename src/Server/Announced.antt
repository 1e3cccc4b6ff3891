-- ===== src/Server/Announced.antt =====
-- Calls of the tools in turn: what they hand to a device was allowed, and announced right before.
use omarchy_hardware.Common.{ℕ, ◌≡◌, refl, sym, ◌⊎◌, inl, inr, Bool, Option, List, [], ◌∷◌, In}
use mathlib.Core.Path.{subst}
use omarchy_hardware.Common.Text.{Text}
use omarchy_hardware.Common.Dict.{Dict}
use omarchy_hardware.Config.{Config}
use omarchy_hardware.Serial.Manager.{Handle}
use omarchy_hardware.Bridge.Registry.{Entry}
use omarchy_hardware.Gpio.Remote.{Outcome}
use omarchy_hardware.Server.{
  Python, Event, started, handed, ended, World, Moment, payload_of, encoded, Writing, check_write,
  check_exec, serial_write, serial_query, mpy_exec, Tool, writes, queries, executes, Call,
  after_tool, run_calls,
}
use omarchy_hardware.Server.Allowed.{Allows, check_write-Allows, check_exec-Allows}
use omarchy_hardware.Server.Logged.{
  Follows, IsAnnounced, Logs, Logs-IsAnnounced, write_out-Outcomes, nothing, operation, noted,
}

abbrev pub session_of : {A B : Type 0} → Tool A B → Text
session_of (writes act r) = r.session_id
session_of (queries act r) = r.session_id
session_of (executes act session_id code confirm) = session_id

abbrev pub is_confirmed : {A B : Type 0} → Tool A B → Bool
is_confirmed (writes act r) = r.confirm
is_confirmed (queries act r) = r.confirm
is_confirmed (executes act session_id code confirm) = confirm

-- The configuration that is loaded last.
abbrev pub loaded_by : {A B : Type 0} → Moment → Tool A B → Option Config
loaded_by m (writes act r) = m.config
loaded_by m (queries act r) = m.config
loaded_by m (executes act session_id code confirm) = m.config_again

-- The payload that the arguments of a call ask for.
abbrev pub asked_by : {A B : Type 0} → Python → Tool A B → Outcome (List ℕ)
asked_by py (writes act r) = payload_of py r
asked_by py (queries act r) = payload_of py r
asked_by py (executes act session_id code confirm) = encoded (py.encode code)

abbrev pub AllowsCall : {A B : Type 0} → Python → Call A B → Writing → Type 0
AllowsCall py c x =
    Allows c.moment c.sessions c.bridges (session_of c.tool) (is_confirmed c.tool)
      (loaded_by c.moment c.tool) (asked_by py c.tool) x

-- The log after a call, in which what is new was allowed.
abbrev Grows : {A B : Type 0} → Python → Call A B → List Event → List Event → Type 0
Grows py c log log' = (log' ≡ log) ⊎ ((x : Writing) × AllowsCall py c x × Logs c.moment x log log')

after_tool-Grows :
    {A B : Type 0} (py : Python) (m : Moment) (tool : Tool A B) (sessions : Dict Handle)
    (bridges : Dict Entry) (w : World)
    → Grows py
        (record { moment = m; sessions = sessions; bridges = bridges; tool = tool })
        w.log
        (after_tool py m tool (record w { sessions = sessions; bridges = bridges })).log
unfolding after_tool serial_write serial_query mpy_exec
after_tool-Grows py m (writes act r) sessions bridges w =
    let w1 = record w { sessions = sessions; bridges = bridges } in
    elim (write_out-Outcomes m act (check_write py m w1 r) w1) [
      | inl e ↦ inl e
      | inr (x, e, l) ↦ inr (x, check_write-Allows py m w1 r x e, l)
    ]
after_tool-Grows py m (queries act r) sessions bridges w =
    let w1 = record w { sessions = sessions; bridges = bridges } in
    elim (write_out-Outcomes m act (check_write py m w1 r) w1) [
      | inl e ↦ inl e
      | inr (x, e, l) ↦ inr (x, check_write-Allows py m w1 r x e, l)
    ]
after_tool-Grows py m (executes act session_id code confirm) sessions bridges w =
    let w1 = record w { sessions = sessions; bridges = bridges } in
    elim (write_out-Outcomes m act (check_exec py m w1 session_id code confirm) w1) [
      | inl e ↦ inl e
      | inr (x, e, l) ↦ inr (x, check_exec-Allows py m w1 session_id code confirm x e, l)
    ]

-- The world after a call.
abbrev next_world : {A B : Type 0} → Python → Call A B → World → World
next_world py c w =
    after_tool py c.moment c.tool (record w { sessions = c.sessions; bridges = c.bridges })

next_world-Grows :
    {A B : Type 0} (py : Python) (c : Call A B) (w : World)
    → Grows py c w.log (next_world py c w).log
next_world-Grows py c w = after_tool-Grows py c.moment c.tool c.sessions c.bridges w

next_world-IsAnnounced :
    {A B : Type 0} (py : Python) (c : Call A B) (w : World)
    → IsAnnounced w.log
    → IsAnnounced (next_world py c w).log
next_world-IsAnnounced py c w h = elim (next_world-Grows py c w) [
  | inl e ↦ subst IsAnnounced (sym e) h
  | inr (x, allowed, l) ↦ Logs-IsAnnounced l h
]

run_calls-IsAnnounced :
    {A B : Type 0} (py : Python) (calls : List (Call A B)) (w : World)
    → IsAnnounced w.log
    → IsAnnounced (run_calls py calls w).log
unfolding run_calls
run_calls-IsAnnounced py [] w h = h
run_calls-IsAnnounced py (c ∷ calls) w h =
    run_calls-IsAnnounced py calls (next_world py c w) (next_world-IsAnnounced py c w h)

Logs-In :
    {m : Moment} {x : Writing} {log log' : List Event} (time : ℕ) (port : Text) (payload : List ℕ)
    → Logs m x log log'
    → In (handed time port payload) log'
    → In (handed time port payload) log ⊎ (handed time port payload ≡ handed m.now x.port x.payload)
Logs-In time port payload nothing there = inl there
Logs-In time port payload operation (inl e) = inr e
Logs-In time port payload operation (inr (inl e)) = cc
Logs-In time port payload operation (inr (inr there)) = inl there
Logs-In time port payload noted (inl e) = cc
Logs-In time port payload noted (inr (inl e)) = inr e
Logs-In time port payload noted (inr (inr (inl e))) = cc
Logs-In time port payload noted (inr (inr (inr there))) = inl there

-- The call that handed a payload over, which it was allowed to.
abbrev pub Handing : {A B : Type 0} → Python → List (Call A B) → Event → Type 0
Handing {A} {B} py calls event =
    (c : Call A B) × In c calls
    × (x : Writing) × AllowsCall py c x
    × (event ≡ handed c.moment.now x.port x.payload)

run_calls-Handing :
    {A B : Type 0} (py : Python) (calls : List (Call A B)) (w : World) (time : ℕ) (port : Text)
    (payload : List ℕ)
    → In (handed time port payload) (run_calls py calls w).log
    → In (handed time port payload) w.log ⊎ Handing py calls (handed time port payload)
unfolding run_calls
run_calls-Handing py [] w time port payload there = inl there
run_calls-Handing py (c ∷ calls) w time port payload there =
    elim (run_calls-Handing py calls (next_world py c w) time port payload there) [
      | inr (d, listed, x, allowed, e) ↦ inr (d, inr listed, x, allowed, e)
      | inl before ↦ elim (next_world-Grows py c w) [
        | inl e ↦ inl (subst (In (handed time port payload)) e before)
        | inr (x, allowed, l) ↦ elim (Logs-In time port payload l before) [
          | inl old ↦ inl old
          | inr e ↦ inr (c, inl refl, x, allowed, e)
        ]
      ]
    ]

-- Every operation in the log was announced right before, and is that of a call that allows it.
abbrev Justified : {A B : Type 0} → Python → List (Call A B) → Event → Type 0
Justified py calls (handed time port payload) = Handing py calls (handed time port payload)
Justified py calls (started port size) = Unit
Justified py calls (ended port) = Unit

abbrev pub IsLawful : {A B : Type 0} → Python → List (Call A B) → List Event → Type 0
IsLawful py calls [] = Unit
IsLawful py calls (event ∷ log) =
    Follows event log × Justified py calls event × IsLawful py calls log

IsLawful-from :
    {A B : Type 0} (py : Python) (calls : List (Call A B)) (log : List Event)
    → IsAnnounced log
    → ((time : ℕ) (port : Text) (payload : List ℕ)
        → In (handed time port payload) log
        → Handing py calls (handed time port payload))
    → IsLawful py calls log
IsLawful-from py calls [] known found = tt
IsLawful-from py calls (handed time port payload ∷ log) (follows, known) found = (
  follows,
  found time port payload (inl refl),
  IsLawful-from py calls log known (λ t p y there. found t p y (inr there)),
)
IsLawful-from py calls (started port size ∷ log) (follows, known) found =
    (follows, tt, IsLawful-from py calls log known (λ t p y there. found t p y (inr there)))
IsLawful-from py calls (ended port ∷ log) (follows, known) found =
    (follows, tt, IsLawful-from py calls log known (λ t p y there. found t p y (inr there)))

-- From an empty log, after any calls of serial_write, serial_query and mpy_exec, whatever
-- sessions and bridges there are at each, every payload that was handed to an operation on a
-- device was announced in the audit log right before, with its port and size, and is that of
-- one of the calls, at its time, which was confirmed, asked for this payload, named a session
-- that was registered on this port, with no running bridge on the port, a known board there
-- unless the configuration that the call loaded last lets others pass, and no more bytes than
-- the configuration that it loaded first allows.
pub run_calls-IsLawful :
    {A B : Type 0} (py : Python) (calls : List (Call A B)) (w : World)
    → w.log ≡ []
    → IsLawful py calls (run_calls py calls w).log
run_calls-IsLawful py calls w empty =
    IsLawful-from py calls (run_calls py calls w).log
      (run_calls-IsAnnounced py calls w (subst IsAnnounced (sym empty) tt))
      (λ time port payload there. elim (run_calls-Handing py calls w time port payload there) [
        | inl before ↦ absurd (subst (In (handed time port payload)) empty before)
        | inr handing ↦ handing
      ])
