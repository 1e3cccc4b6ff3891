-- ===== src/Gpio/Lawful/Audited.antt =====
-- An operation that is audited keeps the log lawful.
use omarchy_hardware.Common.{ℕ, ◌==◌, ◌||◌, not, In, Option, none, some, List}
use omarchy_hardware.Common.Text.{Text}
use omarchy_hardware.Common.Dict.{lookup}
use omarchy_hardware.Config.{Config}
use omarchy_hardware.Errors.{Result, pin_not_allowed}
use omarchy_hardware.Policy.Budget.{RollingBudget, charge}
use omarchy_hardware.Gpio.Remote.{
  Operation, Recorded, written, os_error, unreadable, Outcome, unexpected, Session, M, then_do,
  pure, raise, run,
}
use omarchy_hardware.Gpio.Pins.{
  Python, modes, set_words, level_flags, set_flags, set_mode, write_pin,
}
use omarchy_hardware.Gpio.Tools.{
  put_budget, charge_pin, next_record, later_records, required, outcome_noted, note_outcome,
  audited_end, audited,
}
use omarchy_hardware.Gpio.Lawful.{
  IsBackend, IsKnown, Started, now, before, Lawful, read, write, begun, over, IsKnown-insert,
}
use omarchy_hardware.Gpio.Lawful.Ensures.{
  Body, After, gives, fails, breaks, Ensures, Any, Ensures-pure, Ensures-raise, Ensures-choose,
  Ensures-bind, then_do-After,
}
use omarchy_hardware.Gpio.Lawful.Pins.{
  Tolerant, run-Ensures, detect_backend-Ensures, succeeded-Ensures, read_pin-Ensures,
}

abbrev pub Sound : Config → Body
Sound config d l = IsKnown d × Lawful config l

-- Within an operation that has been recorded.
abbrev pub Within : Config → Operation → Body
Within config op d l = IsKnown d × Lawful config l × Started op l

pub Sound-Tolerant : (config : Config) → Tolerant config (Sound config)
Sound-Tolerant config = record {
  known = λ b. b.0;
  read = λ b i r. (b.0, read i r b.1);
  found = λ host b k. (IsKnown-insert host _ _ k b.0, b.1);
}

Within-Tolerant : (config : Config) (op : Operation) → Tolerant config (Within config op)
Within-Tolerant config op = record {
  known = λ b. b.0;
  read = λ b i r. (b.0, read i r b.1, before b.2);
  found = λ host b k. (IsKnown-insert host _ _ k b.0, b.1, b.2);
}

-- The operation is on a configured host and an allowed pin.
pub record Allowed (config : Config) (op : Operation) : Type 0 where
  pub on_host : In op.host config.pi_hosts
  pub on_pin : In op.bcm config.pi_allowed_pins

module _ (config : Config) (op : Operation) (allowed : Allowed config op) where
  -- The command that changes the pin.
  set-Ensures :
      (backend : Text) (flags : List Text)
      → IsBackend backend
      → Ensures
          (Within config op)
          (Within config op)
          Any
          (run config op.host (set_words backend op.bcm flags))
  set-Ensures backend flags k =
      run-Ensures config op.host (set_words backend op.bcm flags)
        λ d l b i. (b.0, write i allowed.on_pin k b.2 b.1, before b.2)

  pub set_mode-Ensures :
      (py : Python) (mode : Text)
      → Ensures (Within config op) (Within config op) Any (set_mode py config op.host op.bcm mode)
  unfolding set_mode
  set_mode-Ensures py mode = go (lookup mode modes)
    where
      tol : Tolerant config (Within config op)
      tol = Within-Tolerant config op

      go :
          (o : Option (List Text))
          → Ensures (Within config op) (Within config op) Any (set_flags py config op.host op.bcm o)
      go none = Ensures-raise pin_not_allowed
      go (some flags) = Ensures-bind _ (detect_backend-Ensures tol py.is_blank op.host) λ backend k.
          Ensures-bind _ (set-Ensures backend flags k) λ result _.
            Ensures-bind _ (succeeded-Ensures tol result)
              λ _ _. read_pin-Ensures tol py op.host op.bcm

  pub write_pin-Ensures :
      (py : Python) (level : ℕ)
      → Ensures (Within config op) (Within config op) Any (write_pin py config op.host op.bcm level)
  unfolding write_pin
  write_pin-Ensures py level =
      let tol : Tolerant config (Within config op) = Within-Tolerant config op in
      Ensures-choose (not (level == 0 || level == 1)) (Ensures-raise pin_not_allowed) (
        Ensures-bind _ (detect_backend-Ensures tol py.is_blank op.host) λ backend k.
          Ensures-bind _ (read_pin-Ensures tol py op.host op.bcm) λ previous _.
            Ensures-bind _ (set-Ensures backend (level_flags level) k) λ result _.
              Ensures-bind _ (succeeded-Ensures tol result) λ _ _.
                Ensures-bind _ (read_pin-Ensures tol py op.host op.bcm) λ pin _. Ensures-pure tt)

module _ (config : Config) (op : Operation) where
  note_outcome-After :
      (s : Session)
      → Within config op s.backends s.log
      → After (Sound config) Any (note_outcome op s)
  note_outcome-After s b = go (next_record s.records)
    where
      go :
          (r : Recorded)
          → After
              (Sound config)
              Any
              (outcome_noted op r (record s { records = later_records s.records }))
      go written = gives (b.0, over b.1) tt
      go os_error = gives (b.0, b.1) tt
      go unreadable = breaks (b.0, b.1)

  Sound-breaks :
      {A : Type 0} → Ensures {A = A} (Sound config) (Sound config) Any (λ s. (unexpected, s))
  Sound-breaks = record { at = λ s b. breaks b }

  audited_end-After :
      {A : Type 0} {p : Outcome A × Session}
      → After (Within config op) Any p
      → After (Sound config) Any (audited_end op p)
  audited_end-After (gives {a = a} {s = s} b q) =
      then_do-After (λ warning. pure (a, warning)) (note_outcome-After s b) (λ w q. Ensures-pure tt)
        (λ d l b. b)
  audited_end-After (fails {e = e} {s = s} b) =
      then_do-After (λ _. raise e) (note_outcome-After s b) (λ w q. Ensures-raise e) (λ d l b. b)
  audited_end-After (breaks {s = s} b) =
      then_do-After (λ _ s. (unexpected, s)) (note_outcome-After s b) (λ w q. Sound-breaks)
        (λ d l b. b)

  pub audited-Ensures :
      {A : Type 0} (operation : M A)
      → Ensures (Within config op) (Within config op) Any operation
      → Ensures (Sound config) (Sound config) Any (audited op operation)
  unfolding audited
  audited-Ensures {A} operation t = record { at = λ s b. go s (next_record s.records) b }
    where
      go :
          (s : Session) (r : Recorded)
          → Sound config s.backends s.log
          → After (Sound config) Any (
              then_do
                (λ _ s. audited_end op (operation s))
                (required op r (record s { records = later_records s.records })))
      go s written b = audited_end-After (t.at _ (b.0, begun b.1, now))
      go s os_error b = fails b
      go s unreadable b = breaks b

  pub charge_pin-Ensures : Ensures (Sound config) (Sound config) Any (charge_pin config op)
  unfolding charge_pin
  charge_pin-Ensures = record { at = λ s b. go s b (charge _ _ _ _) }
    where
      go :
          (s : Session)
          → Sound config s.backends s.log
          → (r : Result (Unit {0}) × RollingBudget) → After (Sound config) Any (put_budget r s)
      go s b (Result.ok u, budget) = gives b tt
      go s b (Result.err e, budget) = fails b
