-- ===== src/Serial/Read/Promises.antt =====
-- What `read` promises: it ends by its deadline, returns no more than was asked for, and hands over
-- the stream in order.
use omarchy_hardware.Common.{
  ℕ, suc, ◌+◌, ◌≤◌, min, max, leb, ◌≡◌, ◌≢◌, inl, inr, sym, ◌∙◌, if-both, le→leb, Option-cases,
  Bool, true, false, Option, none, some, List, [], ◌∷◌, ◌++◌, length, take, length-take,
  take-append-drop, In, arith,
}
use mathlib.Core.List.{append-nil}
use omarchy_hardware.Errors.{Result, ok, err, serial_error}
use omarchy_hardware.Serial.{Session, drain, require_open, buffer_limit}
use omarchy_hardware.Serial.Drained.{Conserves, Conserves-append, IsLive, received, drain-Drains}
use omarchy_hardware.Serial.Read.{
  Answer, done, raised, waiting, Moment, Taken, take_bytes, find, available, max_wait_ms, serve,
  when_open, read_round, read_loop, terminator_of, read,
}

-- A round ends if what it does after a wait ends.
pub when_open-ends :
    {A : Type 0} (r : Result (Unit {0})) (s : Session) (next : Answer A × Session)
    → next.0 ≢ waiting
    → (when_open r s next).0 ≢ waiting
unfolding when_open
when_open-ends (err e) s next h = λ q. cc
when_open-ends (ok x) s next h = h

serve-ends :
    (count : Option ℕ) (s : Session) (next : Answer Taken × Session)
    → next.0 ≢ waiting
    → (serve count s next).0 ≢ waiting
unfolding serve take_bytes
serve-ends none s next h = h
serve-ends (some count) s next h = λ q. cc

take_bytes-ends :
    (count : ℕ) (timed_out : Bool) (s : Session) → (take_bytes count timed_out s).0 ≢ waiting
unfolding take_bytes
take_bytes-ends count timed_out s = λ q. cc

read_round-ends :
    (terminator : Option (List ℕ)) (max_bytes : ℕ) (s : Session) (wait : Answer Taken × Session)
    → wait.0 ≢ waiting
    → (read_round terminator max_bytes s wait).0 ≢ waiting
unfolding read_round
read_round-ends terminator max_bytes s wait h =
    when_open-ends (require_open s) s _
      (serve-ends (available terminator max_bytes s.buffer) s wait h)

read_loop-ends :
    (terminator : Option (List ℕ)) (max_bytes deadline : ℕ) (moments : List Moment) (s : Session)
    → (m : Moment) → In m moments
    → deadline ≤ m.now
    → (read_loop terminator max_bytes deadline moments s).0 ≢ waiting
unfolding read_loop
read_loop-ends terminator max_bytes deadline [] s m listed late = absurd listed
read_loop-ends terminator max_bytes deadline (n ∷ ms) s m (inl e) late =
    let over : leb deadline n.now ≡ true = rw (sym e) (le→leb deadline m.now late) in
    read_round-ends terminator max_bytes s _
      (rw over (take_bytes-ends (min (length s.buffer) max_bytes) true s))
read_loop-ends terminator max_bytes deadline (n ∷ ms) s m (inr e) late =
    read_round-ends terminator max_bytes s _ (
      if-both (λ (w : Answer Taken × Session). w.0 ≢ waiting) (leb deadline n.now)
        (take_bytes-ends (min (length s.buffer) max_bytes) true s)
        (read_loop-ends terminator max_bytes deadline ms (drain n.ports s) m e late))

-- A read whose moments include one at or after its deadline is over: it does not wait any
-- longer.
pub read-ends :
    (start : ℕ) (acquired : Bool) (max_bytes wait_ms : ℕ) (until : List ℕ) (moments : List Moment)
    (s : Session) (m : Moment)
    → In m moments
    → start + min wait_ms max_wait_ms ≤ m.now
    → (read start acquired max_bytes wait_ms until moments s).0 ≢ waiting
unfolding read
read-ends start true max_bytes wait_ms until moments s m listed late =
    read_loop-ends (terminator_of until) _ _ moments s m listed late
read-ends start false max_bytes wait_ms until moments s m listed late =
    when_open-ends (require_open s) s _ (take_bytes-ends 0 true s)

-- What arrives in the waits.
unfoldable pub arrivals : List Moment → List ℕ
arrivals [] = []
arrivals (m ∷ ms) = received m.ports ++ arrivals ms

abbrev Delivers : ℕ → List Moment → Session → Answer Taken × Session → Type 0
Delivers limit moments s (done taken, s') =
    (n : ℕ) × Conserves (arrivals (take n moments)) taken.bytes s s' × (length taken.bytes ≤ limit)
Delivers limit moments s (raised e, s') = Unit
Delivers limit moments s (waiting, s') = Unit

take_bytes-Delivers :
    (limit : ℕ) (moments : List Moment) (s : Session) (count : ℕ) (timed_out : Bool)
    → count ≤ limit
    → Delivers limit moments s (take_bytes count timed_out s)
unfolding take_bytes arrivals
take_bytes-Delivers limit moments s count timed_out h = (
  0,
  ([], append-nil s.buffer ∙ sym (take-append-drop count s.buffer), omega arith),
  omega (arith, length-take count s.buffer),
)

available-le :
    (terminator : Option (List ℕ)) (limit : ℕ) (buffer : List ℕ) (count : ℕ)
    → available terminator limit buffer ≡ some count
    → count ≤ limit
unfolding available
available-le none limit [] count h = cc
available-le none limit (b ∷ bs) count h = ground arith
available-le (some t) limit buffer count h = elim (Option-cases (find t buffer)) [
  | inl e ↦ absurd (ground (arith, e))
  | inr (i, e) ↦ ground (arith, e)
]

serve-Delivers :
    (limit : ℕ) (moments : List Moment) (terminator : Option (List ℕ)) (s : Session)
    (wait : Answer Taken × Session)
    → Delivers limit moments s wait
    → Delivers limit moments s (serve (available terminator limit s.buffer) s wait)
unfolding serve
serve-Delivers limit moments terminator s wait h =
    elim (Option-cases (available terminator limit s.buffer)) [
      | inl e ↦ rw e h
      | inr (count, e) ↦ rw e (
          take_bytes-Delivers limit moments s count false
            (available-le terminator limit s.buffer count e))
    ]

when_open-Delivers :
    (limit : ℕ) (moments : List Moment) (r : Result (Unit {0})) (s : Session)
    (next : Answer Taken × Session)
    → Delivers limit moments s next
    → Delivers limit moments s (when_open r s next)
unfolding when_open
when_open-Delivers limit moments (err e) s next h = tt
when_open-Delivers limit moments (ok x) s next h = h

read_round-Delivers :
    (limit : ℕ) (moments : List Moment) (terminator : Option (List ℕ)) (s : Session)
    (wait : Answer Taken × Session)
    → Delivers limit moments s wait
    → Delivers limit moments s (read_round terminator limit s wait)
unfolding read_round
read_round-Delivers limit moments terminator s wait h =
    when_open-Delivers limit moments (require_open s) s _
      (serve-Delivers limit moments terminator s wait h)

read_round-failed :
    (terminator : Option (List ℕ)) (limit : ℕ) (s : Session) (wait : Answer Taken × Session)
    → s.failed ≡ true
    → read_round terminator limit s wait ≡ (raised serial_error, s)
unfolding read_round when_open require_open
read_round-failed terminator limit s wait h = ground (arith, h)

pub read_loop-failed :
    (terminator : Option (List ℕ)) (limit deadline : ℕ) (moments : List Moment) (s : Session)
    → s.failed ≡ true
    → read_loop terminator limit deadline moments s ≡ (raised serial_error, s)
unfolding read_loop
read_loop-failed terminator limit deadline [] s h = read_round-failed terminator limit s _ h
read_loop-failed terminator limit deadline (m ∷ ms) s h = read_round-failed terminator limit s _ h

later-Delivers :
    (limit : ℕ) (m : Moment) (ms : List Moment) (s : Session) (result : Answer Taken × Session)
    → Conserves (received m.ports) [] s (drain m.ports s)
    → Delivers limit ms (drain m.ports s) result
    → Delivers limit (m ∷ ms) s result
unfolding arrivals
later-Delivers limit m ms s (done taken, s') kept (n, more, short) = (
  suc n,
  Conserves-append (received m.ports) (arrivals (take n ms)) taken.bytes s (drain m.ports s) s' kept
      more,
  short,
)
later-Delivers limit m ms s (raised e, s') kept h = tt
later-Delivers limit m ms s (waiting, s') kept h = tt

read_loop-Delivers :
    (terminator : Option (List ℕ)) (limit deadline : ℕ) (moments : List Moment) (s : Session)
    → IsLive s
    → Delivers limit moments s (read_loop terminator limit deadline moments s)
unfolding read_loop
read_loop-Delivers terminator limit deadline [] s live =
    read_round-Delivers limit [] terminator s (waiting, s) tt
read_loop-Delivers terminator limit deadline (m ∷ ms) s live =
    let (kept, after) = drain-Drains m.ports s live in
    let rest : Delivers limit ms (drain m.ports s)
        (read_loop terminator limit deadline ms (drain m.ports s)) =
      elim after [
        | inl live' ↦ read_loop-Delivers terminator limit deadline ms (drain m.ports s) live'
        | inr failed ↦
            rw (read_loop-failed terminator limit deadline ms (drain m.ports s) failed) tt
      ] in
    read_round-Delivers limit (m ∷ ms) terminator s _ (
      if-both (Delivers limit (m ∷ ms) s) (leb deadline m.now)
        (take_bytes-Delivers limit (m ∷ ms) s (min (length s.buffer) limit) true (omega arith))
        (later-Delivers limit m ms s _ kept rest))

-- When a read that is not kept out by a query returns bytes, of a session whose thread runs,
-- that is not closing and has no clear asked for, then for some number of the given moments,
-- what was buffered before followed by what arrived in those moments is what the ring lost,
-- followed by the bytes returned, followed by what is buffered after; the bytes that were lost
-- are added to the dropped count, and the bytes returned are no more than max_bytes brought
-- between 1 and the buffer limit.
pub read-Conserves :
    (start max_bytes wait_ms : ℕ) (until : List ℕ) (moments : List Moment) (s s' : Session)
    (taken : Taken)
    → IsLive s
    → read start true max_bytes wait_ms until moments s ≡ (done taken, s')
    → (n : ℕ) × Conserves (arrivals (take n moments)) taken.bytes s s'
      × (length taken.bytes ≤ max 1 (min max_bytes buffer_limit))
unfolding read
read-Conserves start max_bytes wait_ms until moments s s' taken live h =
    let found =
      read_loop-Delivers (terminator_of until) (max 1 (min max_bytes buffer_limit))
        (start + min wait_ms max_wait_ms) moments s live in
    rw h at found
