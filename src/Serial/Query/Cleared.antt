-- ===== src/Serial/Query/Cleared.antt =====
-- What a clear that returns has done.
use omarchy_hardware.Common.{
  ℕ, suc, ◌+◌, ◌==◌, ◌≡◌, inl, inr, refl, sym, ◌∙◌, ==_iff, Bool-cases, leb, true, false, List, [],
  ◌∷◌, ◌++◌, length, take, arith,
}
use mathlib.Core.Path.{subst}
use mathlib.Core.List.{append-nil}
use omarchy_hardware.Errors.{Result, ok, err, serial_error}
use omarchy_hardware.Serial.{Session, Port, drain_turn, drain, require_open}
use omarchy_hardware.Serial.Drained.{IsLive, drain-dead}
use omarchy_hardware.Serial.Read.{Answer, done, raised, waiting, Moment, when_open}
use omarchy_hardware.Serial.Query.{clear_wait_ms, clear_round, clear_loop, clear}
use omarchy_hardware.Serial.Query.Turns.{
  turns_of, Empties, Cleared, IsAsked, IsBroken, drain_turn-asked, drain-Settles,
}

-- A round of the wait, by how the session stands.
clear_round-settled :
    (s : Session) (wait : Answer ℕ × Session)
    → s.clear_requested ≡ s.clear_completed
    → clear_round s wait ≡ (done s.clear_discarded, s)
unfolding clear_round
clear_round-settled s wait h =
    let same : (s.clear_completed == s.clear_requested) ≡ true = (==_iff _ _).1 (sym h) in
    simp same refl

clear_round-asked :
    (s s' : Session) (wait : Answer ℕ × Session) (discarded : ℕ)
    → (s.clear_requested == s.clear_completed) ≡ false
    → clear_round s wait ≡ (done discarded, s')
    → wait ≡ (done discarded, s')
unfolding clear_round when_open require_open
clear_round-asked s s' wait discarded asked h = ground (arith, asked, h)

clear_round-broken :
    (s : Session) (wait : Answer ℕ × Session)
    → IsBroken s
    → clear_round s wait ≡ (raised serial_error, s)
unfolding clear_round when_open require_open
clear_round-broken s wait broken = ground (arith, broken)

pub when_open-done :
    {A : Type 0} (r : Result (Unit {0})) (s s' : Session) (next : Answer A × Session) (a : A)
    → when_open r s next ≡ (done a, s')
    → next ≡ (done a, s')
unfolding when_open
when_open-done (err e) s s' next a h = cc
when_open-done (ok x) s s' next a h = h

clear_loop-settled :
    (deadline : ℕ) (moments : List Moment) (s : Session)
    → s.clear_requested ≡ s.clear_completed
    → clear_loop deadline moments s ≡ (done s.clear_discarded, s)
unfolding clear_loop
clear_loop-settled deadline [] s h = clear_round-settled s _ h
clear_loop-settled deadline (m ∷ ms) s h = clear_round-settled s _ h

clear_loop-broken :
    (deadline : ℕ) (moments : List Moment) (s : Session)
    → IsBroken s
    → clear_loop deadline moments s ≡ (raised serial_error, s)
unfolding clear_loop
clear_loop-broken deadline [] s broken = clear_round-broken s _ broken
clear_loop-broken deadline (m ∷ ms) s broken = clear_round-broken s _ broken

-- The wait goes on after a moment, as long as its clock is before the deadline.
clear_loop-on :
    (deadline : ℕ) (m : Moment) (ms : List Moment) (s s' : Session) (discarded : ℕ)
    → (s.clear_requested == s.clear_completed) ≡ false
    → clear_loop deadline (m ∷ ms) s ≡ (done discarded, s')
    → clear_loop deadline ms (drain m.ports s) ≡ (done discarded, s')
unfolding clear_loop
clear_loop-on deadline m ms s s' discarded asked h =
    let rest = clear_round-asked s s' _ discarded asked h in
    elim (Bool-cases (leb deadline m.now)) [ inl e ↦ cc (rw e at rest) | inr e ↦ rw e at rest ]

drain-first :
    (p : Port) (ps : List Port) (s : Session)
    → s.draining ≡ true
    → drain (p ∷ ps) s ≡ drain ps (drain_turn p s)
unfolding drain
drain-first p ps s runs = simp runs refl

-- After the first turn, the wait of a clear ends with what that turn threw away.
clear_loop-turn :
    (deadline : ℕ) (p : Port) (ps : List Port) (ms : List Moment) (s s' : Session) (discarded : ℕ)
    → IsAsked s
    → clear_loop deadline ms (drain (p ∷ ps) s) ≡ (done discarded, s')
    → Cleared s (p ∷ ps) discarded s'
clear_loop-turn deadline p ps ms s s' discarded asked h =
    let on = rw (drain-first p ps s asked.0) at h in
    elim (drain_turn-asked p s asked) [
      | inl gone ↦
          let (settled, kept) = drain-Settles ps (drain_turn p s) gone.is_live.2 in
          let ended =
            sym (clear_loop-settled deadline ms (drain ps (drain_turn p s)) settled) ∙ on in
          let count : (drain ps (drain_turn p s)).clear_discarded ≡ discarded = cc in
          record {
            turn = p;
            later = ps;
            is_first = refl;
            empties = subst (Empties p (length s.buffer)) (sym kept ∙ count) gone.empties;
            start = drain_turn p s;
            is_empty = gone.is_empty;
            keeps_dropped = gone.keeps_dropped;
            is_live = gone.is_live;
            reaches = cc;
          }
      | inr broken ↦
          let dead = drain-dead ps (drain_turn p s) broken.1 in
          let raised_there = clear_loop-broken deadline ms (drain_turn p s) broken in
          cc (rw (dead, raised_there) at on)
    ]

-- A moment without turns, or the first turn.
moment-Cleared :
    (deadline : ℕ) (m : Moment) (ms : List Moment) (ports : List Port) (s s' : Session)
    (discarded : ℕ)
    → IsAsked s
    → m.ports ≡ ports
    → clear_loop deadline ms (drain ports s) ≡ (done discarded, s')
    → (clear_loop deadline ms s ≡ (done discarded, s')
        → (count : ℕ) × Cleared s (turns_of (take count ms)) discarded s')
    → (count : ℕ) × Cleared s (turns_of (take count (m ∷ ms))) discarded s'
unfolding turns_of drain
moment-Cleared deadline m ms [] s s' discarded asked e h later =
    let (count, c) = later h in
    (
      suc count,
      subst (λ turns. Cleared s (turns ++ turns_of (take count ms)) discarded s') (sym e) c,
    )
moment-Cleared deadline m ms (p ∷ ps) s s' discarded asked e h later =
    let c = clear_loop-turn deadline p ps ms s s' discarded asked h in
    (1, subst (λ turns. Cleared s turns discarded s') (sym e ∙ sym (append-nil m.ports)) c)

clear_loop-Cleared :
    (deadline : ℕ) (moments : List Moment) (s s' : Session) (discarded : ℕ)
    → IsAsked s
    → clear_loop deadline moments s ≡ (done discarded, s')
    → (count : ℕ) × Cleared s (turns_of (take count moments)) discarded s'
clear_loop-Cleared deadline [] s s' discarded asked h =
    let rest = clear_round-asked s s' (waiting, s) discarded asked.2 (unfold clear_loop in h) in cc
clear_loop-Cleared deadline (m ∷ ms) s s' discarded asked h =
    moment-Cleared deadline m ms m.ports s s' discarded asked refl
      (clear_loop-on deadline m ms s s' discarded asked.2 h)
      (λ e. clear_loop-Cleared deadline ms s s' discarded asked e)

-- When a clear returns, of a session whose thread runs, some turns came in its wait, the first of
-- them threw away what was buffered, what it read and what the port had queued, which is the count
-- that is returned, and the rest were turns of a session that began with nothing buffered.
pub clear-Cleared :
    (start : ℕ) (moments : List Moment) (s s' : Session) (discarded : ℕ)
    → IsLive s
    → clear start moments s ≡ (done discarded, s')
    → (count : ℕ) × Cleared s (turns_of (take count moments)) discarded s'
unfolding clear
clear-Cleared start moments s s' discarded live h =
    let asking = record s { clear_requested = s.clear_requested + 1 } in
    let on : clear_loop (start + clear_wait_ms) moments asking ≡ (done discarded, s') =
      when_open-done (require_open s) s s' _ discarded h in
    let asked : (s.clear_requested + 1 == s.clear_completed) ≡ false = ground (arith, live) in
    let (count, c) =
      clear_loop-Cleared (start + clear_wait_ms) moments asking s' discarded (live.0, live.1, asked)
        on in
    (
      count,
      record {
        turn = c.turn;
        later = c.later;
        is_first = c.is_first;
        empties = c.empties;
        start = c.start;
        is_empty = c.is_empty;
        keeps_dropped = c.keeps_dropped;
        is_live = c.is_live;
        reaches = c.reaches;
      },
    )
