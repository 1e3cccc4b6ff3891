-- ===== src/Policy/Budget/Window.antt =====
-- No window of a rolling budget admits more than the limit.
use omarchy_hardware.Common.{
  ℕ, ◌+◌, ◌-◌, ◌≤◌, ◌≡◌, refl, ap, ◌⊎◌, leb→le, ltb, leb, Bool, true, false, ◌&&◌, List, [], ◌∷◌,
  ◌++◌, arith, Bool-cases, inl, inr, if◌then◌else◌,
}
use mathlib.Core.List.{append-nil, append_assoc}
use omarchy_hardware.Common.Text.{Text, text_eq, text_eq_iff, text_eq_refl}
use omarchy_hardware.Common.Dict.{lookup, insert, lookup-insert}
use omarchy_hardware.Errors.{ErrorCode, Result, ok, err, rate_limited}
use omarchy_hardware.Policy.Budget.{
  Event, RollingBudget, or_empty, events_of, recent, total, charge,
}

-- What the events of the last `window` ticks before `at` count for.
unfoldable pub spent_at : ℕ → ℕ → List Event → ℕ
spent_at window at [] = 0
spent_at window at ((t, n) ∷ events) =
    (if leb t at && ltb (at - t) window then n else 0) + spent_at window at events

pub spent_at-append :
    (window at t n : ℕ) (events : List Event)
    → spent_at window at (events ++ (t, n) ∷ [])
      ≡ spent_at window at events + (if leb t at && ltb (at - t) window then n else 0)
unfolding spent_at
spent_at-append window at t n [] = ground arith
spent_at-append window at t n ((u, k) ∷ events) =
    ground (arith, spent_at-append window at t n events)

-- Dropping what is too old at `now` takes nothing off a window that ends later.
spent_at-recent :
    (window now at : ℕ) (events : List Event)
    → now ≤ at
    → spent_at window at (recent window now events) ≡ spent_at window at events
unfolding spent_at recent
spent_at-recent window now at [] h = refl
spent_at-recent window now at ((t, n) ∷ events) h =
    ground (arith, spent_at-recent window now at events)

spent_at-le-total : (window at : ℕ) (events : List Event) → spent_at window at events ≤ total events
unfolding spent_at total
spent_at-le-total window at [] = omega arith
spent_at-le-total window at ((t, n) ∷ events) = ground (arith, spent_at-le-total window at events)

-- A request, at the time at which it was made.
pub record Request : Type 0 where
  pub time : ℕ
  pub target : Text
  pub count : ℕ

-- The clock does not go back.
abbrev pub IsOrdered : ℕ → List Request → Type 0
IsOrdered last [] = Unit
IsOrdered last (r ∷ rs) = (last ≤ r.time) × IsOrdered r.time rs

abbrev is_ok : Result (Unit {0}) → Bool
is_ok (ok x) = true
is_ok (err e) = false

-- The charges to one target that a run of requests admits, in order.
unfoldable pub admitted : RollingBudget → Text → List Request → List Event
admitted b target [] = []
admitted b target (r ∷ rs) =
    let outcome = charge b r.time r.target r.count in
    let rest = admitted outcome.1 target rs in
    if is_ok outcome.0 && text_eq r.target target then (r.time, r.count) ∷ rest else rest

-- What is known of a budget after a run that ended at `last` and admitted `log` to the target.
pub record Accounts (b : RollingBudget) (target : Text) (last : ℕ) (log : List Event) : Type 0 where
  pub bounded : (at : ℕ) → spent_at b.window at log ≤ b.limit
  pub kept :
      (at : ℕ) → last ≤ at → spent_at b.window at (events_of b target) ≡ spent_at b.window at log

-- The budget after a charge that is admitted.
abbrev pub charged : RollingBudget → ℕ → Text → ℕ → RollingBudget
charged b now target count = record b {
  events = insert target (recent b.window now (events_of b target) ++ (now, count) ∷ []) b.events;
}

pub charge-cases :
    (b : RollingBudget) (now : ℕ) (target : Text) (count : ℕ)
    → ((total (recent b.window now (events_of b target)) + count ≤ b.limit)
        × (charge b now target count ≡ (ok tt, charged b now target count)))
      ⊎ ((e : ErrorCode) × (charge b now target count ≡ (err e, b)))
unfolding charge
charge-cases b now target count =
    elim (Bool-cases (ltb b.limit (total (recent b.window now (events_of b target)) + count))) [
      | inl full ↦ inr (rate_limited, rw full)
      | inr room ↦ inl (ground arith, rw room)
    ]

events_of-charged :
    (b : RollingBudget) (now : ℕ) (r target : Text) (count : ℕ)
    → events_of (charged b now r count) target ≡ (
        if text_eq r target
        then recent b.window now (events_of b r) ++ (now, count) ∷ []
        else events_of b target)
unfolding events_of
events_of-charged b now r target count = rw lookup-insert (ground arith)

module _ (b : RollingBudget) (target : Text) (last now count : ℕ) (log : List Event)
    (a : Accounts b target last log) (later : last ≤ now)
    (room : total (recent b.window now (events_of b target)) + count ≤ b.limit) where
  -- Up to the charge, a window that ends at `now` or later counts what the charge counted.
  before_charge :
      (at : ℕ)
      → now ≤ at
      → spent_at b.window at log ≤ total (recent b.window now (events_of b target))
  before_charge at h =
      rw (← a.kept at (omega arith), ← spent_at-recent b.window now at (events_of b target) h)
        (spent_at-le-total b.window at _)

  bounded_after : (at : ℕ) → spent_at b.window at (log ++ (now, count) ∷ []) ≤ b.limit
  bounded_after at = elim (Bool-cases (leb now at)) [
    | inl e ↦
        ground
          (arith, spent_at-append b.window at now count log, before_charge at (leb→le now at e))
    | inr e ↦ ground (arith, spent_at-append b.window at now count log, a.bounded at)
  ]

  kept_after :
      (at : ℕ)
      → now ≤ at
      → spent_at b.window at (recent b.window now (events_of b target) ++ (now, count) ∷ [])
        ≡ spent_at b.window at (log ++ (now, count) ∷ [])
  kept_after at h = rw (
    spent_at-append,
    spent_at-append,
    spent_at-recent b.window now at (events_of b target) h,
    a.kept at (omega arith),
  )

  pub Accounts-charged : Accounts (charged b now target count) target now (log ++ (now, count) ∷ [])
  Accounts-charged = record {
    bounded = bounded_after;
    kept = λ at h.
        rw (events_of-charged b now target target count, text_eq_refl target) (kept_after at h);
  }

pub Accounts-other :
    (b : RollingBudget) (target r : Text) (last now count : ℕ) (log : List Event)
    → Accounts b target last log
    → last ≤ now
    → text_eq r target ≡ false
    → Accounts (charged b now r count) target now log
Accounts-other b target r last now count log a later other = record {
  bounded = a.bounded;
  kept = λ at h. rw (events_of-charged b now r target count, other) (a.kept at (omega arith));
}

pub Accounts-later :
    (b : RollingBudget) (target : Text) (last now : ℕ) (log : List Event)
    → Accounts b target last log
    → last ≤ now
    → Accounts b target now log
Accounts-later b target last now log a later = record {
  bounded = a.bounded;
  kept = λ at h. a.kept at (omega arith);
}

-- `admitted` by one request.
admitted_ok :
    (b b' : RollingBudget) (target : Text) (r : Request) (rs : List Request)
    → charge b r.time r.target r.count ≡ (ok tt, b')
    → admitted b target (r ∷ rs) ≡ (
        if text_eq r.target target
        then (r.time, r.count) ∷ admitted b' target rs
        else admitted b' target rs)
unfolding admitted
admitted_ok b b' target r rs h = rw h

admitted_err :
    (b : RollingBudget) (target : Text) (r : Request) (rs : List Request) (e : ErrorCode)
    → charge b r.time r.target r.count ≡ (err e, b)
    → admitted b target (r ∷ rs) ≡ admitted b target rs
unfolding admitted
admitted_err b target r rs e h = rw h

Accounts-admitted :
    (b : RollingBudget) (target : Text) (last : ℕ) (log : List Event) (rs : List Request) (at : ℕ)
    → Accounts b target last log
    → IsOrdered last rs
    → spent_at b.window at (log ++ admitted b target rs) ≤ b.limit
Accounts-admitted b target last log [] at a o = unfold admitted in rw append-nil (a.bounded at)
Accounts-admitted b target last log (r ∷ rs) at a (later, o) =
    elim (charge-cases b r.time r.target r.count) [
      | inr (e, refused) ↦ rw (admitted_err b target r rs e refused) (
          Accounts-admitted b target r.time log rs at
            (Accounts-later b target last r.time log a later) o)
      | inl (room, done) ↦ elim (Bool-cases (text_eq r.target target)) [
        | inl same ↦
            let e : r.target ≡ target = (text_eq_iff r.target target).0 same in
            let log' = log ++ (r.time, r.count) ∷ [] in
            let a' = Accounts-charged b target last r.time r.count log a later (rw e at room) in
            rw (admitted_ok b _ target r rs done, same)
              (rw (append_assoc log ((r.time, r.count) ∷ []) _) at (
                Accounts-admitted (charged b r.time r.target r.count) target r.time log' rs at
                  (rw e a') o))
        | inr other ↦
            rw (admitted_ok b _ target r rs done, other)
              (Accounts-admitted (charged b r.time r.target r.count) target r.time log rs at
                (Accounts-other b target r.target last r.time r.count log a later other) o)
      ]
    ]

pub events_of-empty : (b : RollingBudget) (target : Text) → b.events ≡ [] → events_of b target ≡ []
unfolding events_of lookup
events_of-empty b target h = ap (λ events. or_empty (lookup target events)) h

-- From a budget with no events, for any requests in the order of a clock that does not go
-- back, what is admitted to one target in any window of the budget's length is at most the
-- limit.
pub admitted_bounded :
    (b : RollingBudget) (target : Text) (requests : List Request) (at : ℕ)
    → b.events ≡ []
    → IsOrdered 0 requests
    → spent_at b.window at (admitted b target requests) ≤ b.limit
admitted_bounded b target requests at empty o =
    Accounts-admitted b target 0 [] requests at
      (record {
        bounded = λ at. unfold spent_at in omega arith;
        kept = λ at h. ap (spent_at b.window at) (events_of-empty b target empty);
      })
      o
