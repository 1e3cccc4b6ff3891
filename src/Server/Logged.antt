-- ===== src/Server/Logged.antt =====
-- What a call of a tool adds to the log.
use omarchy_hardware.Common.{ℕ, ◌≡◌, refl, sym, ◌⊎◌, inl, inr, List, [], ◌∷◌, length}
use mathlib.Core.Path.{subst}
use omarchy_hardware.Gpio.Remote.{
  Recorded, written, os_error, unreadable, Outcome, ok, err, unexpected,
}
use omarchy_hardware.Server.{
  Event, started, handed, ended, World, Moment, Writing, then_do, charge_write, note_outcome,
  audited, write_out,
}
use omarchy_hardware.Server.Spent.{audited_end-world}

-- A record of an operation stands right before the operation it announces.
abbrev pub Follows : Event → List Event → Type 0
Follows (handed time port payload) [] = ⊥
Follows (handed time port payload) (started q size ∷ log) = (q ≡ port) × (size ≡ length payload)
Follows (handed time port payload) (handed t q other ∷ log) = ⊥
Follows (handed time port payload) (ended q ∷ log) = ⊥
Follows (started port size) log = Unit
Follows (ended port) log = Unit

-- Every operation was announced in the audit log right before, with its port and its size.
abbrev pub IsAnnounced : List Event → Type 0
IsAnnounced [] = Unit
IsAnnounced (event ∷ log) = Follows event log × IsAnnounced log

-- The log after a call: nothing was handed over, or the payload of the call, announced.
pub data Logs (m : Moment) (x : Writing) (log : List Event) : List Event → Type 0 where
  nothing : Logs m x log log
  operation : Logs m x log (handed m.now x.port x.payload ∷ started x.port (length x.payload) ∷ log)
  noted :
      Logs m x log
        (ended x.port ∷ handed m.now x.port x.payload ∷ started x.port (length x.payload) ∷ log)

pub Logs-IsAnnounced :
    {m : Moment} {x : Writing} {log log' : List Event}
    → Logs m x log log'
    → IsAnnounced log
    → IsAnnounced log'
Logs-IsAnnounced nothing h = h
Logs-IsAnnounced operation h = ((refl, refl), (tt, h))
Logs-IsAnnounced noted h = (tt, ((refl, refl), (tt, h)))

note_outcome-Logs :
    (m : Moment) (x : Writing) (r : Recorded) (w w' : World)
    → w'.log ≡ handed m.now x.port x.payload ∷ started x.port (length x.payload) ∷ w.log
    → Logs m x w.log (note_outcome x.port r w').1.log
unfolding note_outcome
note_outcome-Logs m x written w w' e =
    subst (λ log. Logs m x w.log (ended x.port ∷ log)) (sym e) noted
note_outcome-Logs m x os_error w w' e = subst (Logs m x w.log) (sym e) operation
note_outcome-Logs m x unreadable w w' e = subst (Logs m x w.log) (sym e) operation

audited-Logs :
    {A : Type 0} (m : Moment) (x : Writing) (act : List ℕ → Outcome A) (r : Recorded) (w : World)
    → Logs m x w.log (audited m x act r w).1.log
unfolding audited
audited-Logs m x act written w =
    rw (audited_end-world (act x.payload) _) (note_outcome-Logs m x m.closing w _ refl)
audited-Logs m x act os_error w = nothing
audited-Logs m x act unreadable w = nothing

-- What a call comes to: the log stays, or the checks let a write pass and it is logged.
abbrev Outcomes : Moment → Outcome Writing → List Event → List Event → Type 0
Outcomes m checked log log' = (log' ≡ log) ⊎ ((x : Writing) × (checked ≡ ok x) × Logs m x log log')

then_do-Logs :
    {A : Type 0} (m : Moment) (x : Writing) (act : List ℕ → Outcome A) (w : World)
    (charged : Outcome (Unit {0}) × World)
    → charged.1.log ≡ w.log
    → Outcomes m (ok x) w.log (then_do (λ _. audited m x act m.opening) charged).1.log
then_do-Logs m x act w (ok a, w') e = inr (
  x,
  refl,
  subst (λ log. Logs m x log (audited m x act m.opening w').1.log) e
      (audited-Logs m x act m.opening w'),
)
then_do-Logs m x act w (err f, w') e = inl e
then_do-Logs m x act w (unexpected, w') e = inl e

pub write_out-Outcomes :
    {A : Type 0} (m : Moment) (act : List ℕ → Outcome A) (checked : Outcome Writing) (w : World)
    → Outcomes m checked w.log (write_out m act checked w).1.log
unfolding write_out charge_write
write_out-Outcomes m act (ok x) w = then_do-Logs m x act w _ refl
write_out-Outcomes m act (err e) w = inl refl
write_out-Outcomes m act unexpected w = inl refl
