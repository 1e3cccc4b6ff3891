-- ===== src/Server/Spent.antt =====
-- What the tools hand to one port in a minute is within the write budget.
use mathlib.Core.Path.{subst}
use omarchy_hardware.Common.{
  ℕ, ◌+◌, ◌*◌, ◌≤◌, ◌≡◌, refl, sym, ap, ◌∙◌, ◌⊎◌, inl, inr, Bool, true, false, Option, none, some,
  List, [], ◌∷◌, ◌++◌, length, arith, if◌then◌else◌,
}
use omarchy_hardware.Common.Text.{Text, text_eq, text_eq_iff}
use omarchy_hardware.Policy.Budget.{RollingBudget, minute_budget, charge, ticks_per_second}
use omarchy_hardware.Policy.Budget
use omarchy_hardware.Policy.Budget.Window.{
  spent_at, spent_at-append, Accounts, charged, Accounts-charged, Accounts-other, Accounts-later,
}
use omarchy_hardware.Gpio.Remote.{
  Recorded, written, os_error, unreadable, Outcome, ok, err, unexpected,
}
use omarchy_hardware.Gpio.Tools.{keep_budget}
use omarchy_hardware.Server.{
  Event, started, handed, ended, World, Moment, Writing, note_outcome, audited_end, audited,
}

-- The times and sizes of the payloads that were handed to a port, the latest first.
unfoldable pub handed_to : Text → List Event → List Budget.Event
handed_to target [] = []
handed_to target (started port size ∷ log) = handed_to target log
handed_to target (handed time port payload ∷ log) =
    let rest = handed_to target log in
    if text_eq port target then (time, length payload) ∷ rest else rest
handed_to target (ended port ∷ log) = handed_to target log

-- What is known after calls up to `last`: the charges that were admitted for the port are within
-- the limit, and cover what was handed to it.
pub record IsWithin (limit : ℕ) (target : Text) (last : ℕ) (w : World) : Type 0 where
  pub is_minute : (keep_budget w.budget limit).window ≡ 60 * ticks_per_second
  pub charges : List Budget.Event
  pub accounts : Accounts (keep_budget w.budget limit) target last charges
  pub covers :
      (at : ℕ)
      → spent_at (keep_budget w.budget limit).window at (handed_to target w.log)
        ≤ spent_at (keep_budget w.budget limit).window at charges

pub keep_budget-twice :
    (budget : Option RollingBudget) (limit : ℕ)
    → keep_budget (some (keep_budget budget limit)) limit ≡ keep_budget budget limit
unfolding minute_budget
keep_budget-twice none limit = refl
keep_budget-twice (some b) limit = refl

keep_budget-charged :
    (budget : Option RollingBudget) (limit now : ℕ) (port : Text) (count : ℕ)
    → keep_budget (some (charged (keep_budget budget limit) now port count)) limit
      ≡ charged (keep_budget budget limit) now port count
unfolding minute_budget
keep_budget-charged none limit now port count = refl
keep_budget-charged (some b) limit now port count = refl

pub audited_end-world :
    {A : Type 0} (o : Outcome A) (noted : Outcome Bool × World) → (audited_end o noted).1 ≡ noted.1
unfolding audited_end
audited_end-world (ok a) (ok x, w) = refl
audited_end-world (ok a) (err e, w) = refl
audited_end-world (ok a) (unexpected, w) = refl
audited_end-world (err e) (ok x, w) = refl
audited_end-world (err e) (err f, w) = refl
audited_end-world (err e) (unexpected, w) = refl
audited_end-world unexpected (ok x, w) = refl
audited_end-world unexpected (err f, w) = refl
audited_end-world unexpected (unexpected, w) = refl

note_outcome-hands :
    (target port : Text) (r : Recorded) (w : World)
    → ((note_outcome port r w).1.budget ≡ w.budget)
      × (handed_to target (note_outcome port r w).1.log ≡ handed_to target w.log)
unfolding note_outcome handed_to
note_outcome-hands target port written w = (refl, refl)
note_outcome-hands target port os_error w = (refl, refl)
note_outcome-hands target port unreadable w = (refl, refl)

-- An audited operation hands over nothing, or its payload.
pub audited-hands :
    {A : Type 0} (target : Text) (m : Moment) (x : Writing) (operation : List ℕ → Outcome A)
    (r : Recorded) (w : World)
    → ((audited m x operation r w).1.budget ≡ w.budget)
      × ((handed_to target (audited m x operation r w).1.log ≡ handed_to target w.log)
          ⊎ (handed_to target (audited m x operation r w).1.log ≡ (
              if text_eq x.port target
              then (m.now, length x.payload) ∷ handed_to target w.log
              else handed_to target w.log)))
unfolding audited handed_to
audited-hands target m x operation written w =
    let (same, kept) = note_outcome-hands target x.port m.closing (record w {
      log = handed m.now x.port x.payload ∷ started x.port (length x.payload) ∷ w.log;
    }) in
    rw (audited_end-world (operation x.payload) _) (same, inr (kept ∙ unfold handed_to in refl))
audited-hands target m x operation os_error w = (refl, inl refl)
audited-hands target m x operation unreadable w = (refl, inl refl)

pub IsWithin-from :
    (limit : ℕ) (target : Text) (last : ℕ) (w : World) (b : RollingBudget)
    (charges : List Budget.Event)
    → b ≡ keep_budget w.budget limit
    → b.window ≡ 60 * ticks_per_second
    → Accounts b target last charges
    → ((at : ℕ) → spent_at b.window at (handed_to target w.log) ≤ spent_at b.window at charges)
    → IsWithin limit target last w
IsWithin-from limit target last w b charges e minute accounts covers = record {
  is_minute = subst (λ (b : RollingBudget). b.window ≡ 60 * ticks_per_second) e minute;
  charges = charges;
  accounts = subst (λ b. Accounts b target last charges) e accounts;
  covers =
      subst
        (λ (b : RollingBudget).
          (at : ℕ) → spent_at b.window at (handed_to target w.log) ≤ spent_at b.window at charges)
        e covers;
}

pub IsWithin-later :
    (limit : ℕ) (target : Text) (last now : ℕ) (w : World)
    → IsWithin limit target last w
    → last ≤ now
    → IsWithin limit target now w
IsWithin-later limit target last now w h later = record {
  is_minute = h.is_minute;
  charges = h.charges;
  accounts = Accounts-later (keep_budget w.budget limit) target last now h.charges h.accounts later;
  covers = h.covers;
}

-- One payload more on both sides.
covers-more :
    (window at now size : ℕ) (there charges : List Budget.Event)
    → spent_at window at there ≤ spent_at window at charges
    → (spent_at window at there ≤ spent_at window at (charges ++ (now, size) ∷ []))
      × (spent_at window at ((now, size) ∷ there)
          ≤ spent_at window at (charges ++ (now, size) ∷ []))
unfolding spent_at
covers-more window at now size there charges h =
    rw (spent_at-append window at now size charges) (omega arith, omega arith)

-- After a charge that is admitted, with the payload handed over or not.
module _ (target : Text) (last : ℕ) (m : Moment) (x : Writing) (w w' : World) (later : last ≤ m.now)
    (h : IsWithin x.config.write_budget_bytes_per_min target last w)
    (room : Budget.total (
          Budget.recent
            (keep_budget w.budget x.config.write_budget_bytes_per_min).window
            m.now
            (Budget.events_of (keep_budget w.budget x.config.write_budget_bytes_per_min) x.port))
        + length x.payload
      ≤ (keep_budget w.budget x.config.write_budget_bytes_per_min).limit)
    (paid : w'.budget
      ≡ some (
          charged
            (keep_budget w.budget x.config.write_budget_bytes_per_min)
            m.now
            x.port
            (length x.payload))) where
  abbrev limit : ℕ
  limit = x.config.write_budget_bytes_per_min

  abbrev before : RollingBudget
  before = keep_budget w.budget limit

  abbrev size : ℕ
  size = length x.payload

  after_budget : charged before m.now x.port size ≡ keep_budget w'.budget limit
  after_budget =
      sym
        (ap (λ o. keep_budget o limit) paid ∙ keep_budget-charged w.budget limit m.now x.port size)

  pub charged-IsWithin-same :
      text_eq x.port target ≡ true
      → (handed_to target w'.log ≡ handed_to target w.log)
        ⊎ (handed_to target w'.log ≡ (m.now, size) ∷ handed_to target w.log)
      → IsWithin limit target m.now w'
  charged-IsWithin-same same hands =
      let e : x.port ≡ target = (text_eq_iff x.port target).0 same in
      IsWithin-from limit target m.now w' (charged before m.now x.port size)
        (h.charges ++ (m.now, size) ∷ []) after_budget h.is_minute
        (subst
          (λ port.
            Accounts (charged before m.now port size) target m.now
              (h.charges ++ (m.now, size) ∷ []))
          (sym e)
          (Accounts-charged before target last m.now size h.charges h.accounts later (
            subst
              (λ port.
                Budget.total (Budget.recent before.window m.now (Budget.events_of before port))
                  + size
                ≤ before.limit)
              e room)))
        (λ at.
          let (nothing, more) =
            covers-more before.window at m.now size (handed_to target w.log) h.charges
              (h.covers at) in
          elim hands [ inl k ↦ rw k nothing | inr k ↦ rw k more ])

  pub charged-IsWithin-other :
      text_eq x.port target ≡ false
      → handed_to target w'.log ≡ handed_to target w.log
      → IsWithin limit target m.now w'
  charged-IsWithin-other other k =
      IsWithin-from limit target m.now w' (charged before m.now x.port size) h.charges after_budget
        h.is_minute
        (Accounts-other before target x.port last m.now size h.charges h.accounts later other)
        (λ at. rw k (h.covers at))
