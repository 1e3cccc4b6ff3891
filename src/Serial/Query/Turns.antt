-- ===== src/Serial/Query/Turns.antt =====
-- A turn of the draining thread while a clear is asked for, and while none is.
use omarchy_hardware.Common.{
  ℕ, ◌+◌, ◌==◌, ◌≡◌, ◌⊎◌, inl, inr, refl, ◌∙◌, ==_iff, if-both, true, false, List, [], ◌∷◌, ◌++◌,
  length, arith,
}
use omarchy_hardware.Serial.{
  Session, Reply, got, broke, Port, fail, discard, store, receive, handle_read, drain_turn, drain,
}
use omarchy_hardware.Serial.Drained.{IsLive}
use omarchy_hardware.Serial.Read.{Moment}

-- The turns of the thread in some moments.
unfoldable pub turns_of : List Moment → List Port
turns_of [] = []
turns_of (m ∷ ms) = m.ports ++ turns_of ms

-- What a turn does that throws the input away, and how many bytes go.
pub record Empties (turn : Port) (buffered discarded : ℕ) : Type 0 where
  pub chunk : List ℕ
  pub queued : ℕ
  pub is_read : turn.read ≡ got chunk
  pub is_counted : turn.in_waiting ≡ got queued
  pub is_reset : turn.reset_input_buffer ≡ got tt
  pub total : discarded ≡ buffered + length chunk + queued

-- From `s`, some turns reach `s'`: the first of them throws the input away.
pub record Cleared (s : Session) (turns : List Port) (discarded : ℕ) (s' : Session) : Type 0 where
  pub turn : Port
  pub later : List Port
  pub is_first : turns ≡ turn ∷ later
  pub empties : Empties turn (length s.buffer) discarded
  pub start : Session
  pub is_empty : start.buffer ≡ []
  pub keeps_dropped : start.dropped ≡ s.dropped
  pub is_live : IsLive start
  pub reaches : s' ≡ drain later start

-- The thread runs, and a clear is asked for.
abbrev pub IsAsked : Session → Type 0
IsAsked s =
    (s.draining ≡ true) × (s.closing ≡ false) × ((s.clear_requested == s.clear_completed) ≡ false)

-- What a turn comes to while a clear is asked for: the input goes, or the session breaks.
pub record Emptied (p : Port) (s s' : Session) : Type 0 where
  pub empties : Empties p (length s.buffer) s'.clear_discarded
  pub is_empty : s'.buffer ≡ []
  pub keeps_dropped : s'.dropped ≡ s.dropped
  pub is_live : IsLive s'

abbrev pub IsBroken : Session → Type 0
IsBroken s =
    (s.failed ≡ true) × (s.draining ≡ false) × ((s.clear_requested == s.clear_completed) ≡ false)

discard-asked :
    (p : Port) (waiting : Reply ℕ) (reset : Reply (Unit {0})) (chunk : List ℕ) (s : Session)
    → IsAsked s
    → p.read ≡ got chunk
    → p.in_waiting ≡ waiting
    → p.reset_input_buffer ≡ reset
    → Emptied p s (discard waiting reset chunk s) ⊎ IsBroken (discard waiting reset chunk s)
unfolding discard fail
discard-asked p (broke message) reset chunk s asked r w x = inr (refl, refl, asked.2)
discard-asked p (got queued) (broke message) chunk s asked r w x = inr (refl, refl, asked.2)
discard-asked p (got queued) (got tt) chunk s asked r w x = inl (record {
  empties = record {
    chunk = chunk;
    queued = queued;
    is_read = r;
    is_counted = w;
    is_reset = x;
    total = refl;
  };
  is_empty = refl;
  keeps_dropped = refl;
  is_live = (asked.0, asked.1, refl);
})

handle_read-asked :
    (p : Port) (r : Reply (List ℕ)) (s : Session)
    → IsAsked s
    → p.read ≡ r
    → Emptied p s (handle_read p r s) ⊎ IsBroken (handle_read p r s)
unfolding handle_read fail
handle_read-asked p (broke message) s asked e = inr (refl, refl, asked.2)
handle_read-asked p (got chunk) s asked e =
    simp (asked.2) (discard-asked p p.in_waiting p.reset_input_buffer chunk s asked e refl refl)

pub drain_turn-asked :
    (p : Port) (s : Session) → IsAsked s → Emptied p s (drain_turn p s) ⊎ IsBroken (drain_turn p s)
unfolding drain_turn
drain_turn-asked p s asked = simp (asked.1) (handle_read-asked p p.read s asked refl)

-- Without a clear that is asked for, none is asked for later, and the count of the last stays.
abbrev Settles : Session → Session → Type 0
Settles s s' = (s'.clear_requested ≡ s'.clear_completed) × (s'.clear_discarded ≡ s.clear_discarded)

receive-Settles :
    (p : Port) (chunk : List ℕ) (s : Session)
    → s.clear_requested ≡ s.clear_completed
    → Settles s (receive p chunk s)
unfolding receive store
receive-Settles p [] s h = (h, refl)
receive-Settles p (b ∷ bs) s h = ground (arith, h)

handle_read-Settles :
    (p : Port) (r : Reply (List ℕ)) (s : Session)
    → s.clear_requested ≡ s.clear_completed
    → Settles s (handle_read p r s)
unfolding handle_read fail
handle_read-Settles p (broke message) s h = (h, refl)
handle_read-Settles p (got chunk) s h =
    let same : (s.clear_requested == s.clear_completed) ≡ true = (==_iff _ _).1 h in
    simp same (receive-Settles p chunk s h)

drain_turn-Settles :
    (p : Port) (s : Session) → s.clear_requested ≡ s.clear_completed → Settles s (drain_turn p s)
unfolding drain_turn
drain_turn-Settles p s h =
    if-both (Settles s) s.closing (h, refl) (handle_read-Settles p p.read s h)

pub drain-Settles :
    (ports : List Port) (s : Session)
    → s.clear_requested ≡ s.clear_completed
    → Settles s (drain ports s)
unfolding drain
drain-Settles [] s h = (h, refl)
drain-Settles (p ∷ ps) s h =
    let (h', e) = drain_turn-Settles p s h in
    let (h'', e') = drain-Settles ps (drain_turn p s) h' in
    if-both (Settles s) s.draining (h'', e' ∙ e) (h, refl)
