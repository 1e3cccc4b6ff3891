-- ===== src/Serial/Drained.antt =====
-- What the draining thread keeps: the bound of the buffer, and every byte.
use omarchy_hardware.Common.{
  ℕ, ◌+◌, ◌-◌, ◌==◌, ◌≤◌, ltb, ◌≡◌, ◌⊎◌, inl, inr, refl, sym, ap, ◌∙◌, if-both, length-take, ==_iff,
  Bool-cases, true, false, not, List, [], ◌∷◌, ◌++◌, length, drop, take, length-drop, length-append,
  take-append-drop, arith,
}
use mathlib.Core.List.{append_assoc, append-nil}
use omarchy_hardware.Common.Text.{Text}
use omarchy_hardware.Serial.{
  buffer_limit, Session, Reply, got, broke, Port, fail, discard, store, receive, handle_read,
  drain_turn, drain,
}

abbrev pub IsBounded : Session → Type 0
IsBounded s = length s.buffer ≤ buffer_limit

fail-IsBounded : (message : Text) (s : Session) → IsBounded s → IsBounded (fail message s)
unfolding fail
fail-IsBounded message s h = h

discard-IsBounded :
    (waiting : Reply ℕ) (reset : Reply (Unit {0})) (chunk : List ℕ) (s : Session)
    → IsBounded s
    → IsBounded (discard waiting reset chunk s)
unfolding discard fail
discard-IsBounded (broke message) reset chunk s h = h
discard-IsBounded (got waiting) (broke message) chunk s h = h
discard-IsBounded (got waiting) (got x) chunk s h = omega arith

store-IsBounded : (time : ℕ) (chunk : List ℕ) (s : Session) → IsBounded (store time chunk s)
unfolding store
store-IsBounded time chunk s =
    let joined = s.buffer ++ chunk in
    let kept = length-drop (length joined - buffer_limit) joined in
    elim (Bool-cases (ltb buffer_limit (length joined))) [
      | inl e ↦ rw e (ground (arith, kept))
      | inr e ↦ rw e (ground (arith, e))
    ]

receive-IsBounded :
    (p : Port) (chunk : List ℕ) (s : Session) → IsBounded s → IsBounded (receive p chunk s)
unfolding receive
receive-IsBounded p [] s h = h
receive-IsBounded p (b ∷ bs) s h = store-IsBounded p.time (b ∷ bs) s

handle_read-IsBounded :
    (p : Port) (r : Reply (List ℕ)) (s : Session) → IsBounded s → IsBounded (handle_read p r s)
unfolding handle_read
handle_read-IsBounded p (broke message) s h = fail-IsBounded message s h
handle_read-IsBounded p (got chunk) s h =
    if-both IsBounded (not (s.clear_requested == s.clear_completed))
      (discard-IsBounded p.in_waiting p.reset_input_buffer chunk s h)
      (receive-IsBounded p chunk s h)

drain_turn-IsBounded : (p : Port) (s : Session) → IsBounded s → IsBounded (drain_turn p s)
unfolding drain_turn
drain_turn-IsBounded p s h = if-both IsBounded s.closing h (handle_read-IsBounded p p.read s h)

-- If the buffer is within the buffer limit, it is so after any turns of the draining thread,
-- with failures and clears among them.
pub drain-IsBounded : (ports : List Port) (s : Session) → IsBounded s → IsBounded (drain ports s)
unfolding drain
drain-IsBounded [] s h = h
drain-IsBounded (p ∷ ps) s h =
    if-both IsBounded s.draining (drain-IsBounded ps (drain_turn p s) (drain_turn-IsBounded p s h))
      h

-- The thread runs and no clear is asked for.
abbrev pub IsLive : Session → Type 0
IsLive s = (s.draining ≡ true) × (s.closing ≡ false) × (s.clear_requested ≡ s.clear_completed)

-- From `s` to `s'`, `arrived` came in, `handed` was handed over, and what the ring lost is counted.
abbrev pub Conserves : List ℕ → List ℕ → Session → Session → Type 0
Conserves arrived handed s s' =
    (lost : List ℕ) × (s.buffer ++ arrived ≡ lost ++ (handed ++ s'.buffer))
    × (s'.dropped ≡ s.dropped + length lost)

-- The bytes that the port gives before it breaks.
unfoldable pub heard : Reply (List ℕ) → List ℕ → List ℕ
heard (broke message) later = []
heard (got chunk) later = chunk ++ later

unfoldable pub received : List Port → List ℕ
unfolding heard
received [] = []
received (p ∷ ps) = heard p.read (received ps)

store-Conserves :
    (time : ℕ) (chunk : List ℕ) (s : Session)
    → IsLive s
    → Conserves chunk [] s (store time chunk s) × IsLive (store time chunk s)
unfolding store
store-Conserves time chunk s live =
    let joined = s.buffer ++ chunk in
    let excess = length joined - buffer_limit in
    elim (Bool-cases (ltb buffer_limit (length joined))) [
      | inl e ↦
          let cut : joined ≡ take excess joined ++ drop excess joined =
            sym (take-append-drop excess joined) in
          let short = length-take excess joined in
          rw e ((take excess joined, cut, omega (arith, short)), live)
      | inr e ↦ rw e (([], refl, omega arith), live)
    ]

receive-Conserves :
    (p : Port) (chunk : List ℕ) (s : Session)
    → IsLive s
    → Conserves chunk [] s (receive p chunk s) × IsLive (receive p chunk s)
unfolding receive
receive-Conserves p [] s live = (([], append-nil s.buffer, omega arith), live)
receive-Conserves p (b ∷ bs) s live = store-Conserves p.time (b ∷ bs) s live

-- One after the other, when the first hands nothing over.
pub Conserves-append :
    (xs ys zs : List ℕ) (s s' s'' : Session)
    → Conserves xs [] s s'
    → Conserves ys zs s' s''
    → Conserves (xs ++ ys) zs s s''
Conserves-append xs ys zs s s' s'' (lost, e, d) (more, e', d') = (
  lost ++ more,
  sym (append_assoc s.buffer xs ys)
      ∙ ap (λ t. t ++ ys) e
      ∙ append_assoc lost s'.buffer ys
      ∙ ap (λ t. lost ++ t) e'
      ∙ sym (append_assoc lost more (zs ++ s''.buffer)),
  omega (arith, length-append lost more),
)

-- What a drain of a live session comes to: the thread still runs, or the session has failed.
abbrev pub Drains : List ℕ → Session → Session → Type 0
Drains arrived s s' = Conserves arrived [] s s' × (IsLive s' ⊎ (s'.failed ≡ true))

pub drain-dead : (ports : List Port) (s : Session) → s.draining ≡ false → drain ports s ≡ s
unfolding drain
drain-dead [] s h = refl
drain-dead (p ∷ ps) s h = ground (arith, h)

handle_read-Drains :
    (p : Port) (r : Reply (List ℕ)) (ps : List Port) (s : Session)
    → IsLive s
    → ((next : Session) → IsLive next → Drains (received ps) next (drain ps next))
    → Drains (heard r (received ps)) s (drain ps (handle_read p r s))
unfolding handle_read fail heard
handle_read-Drains p (broke message) ps s live later =
    rw (drain-dead ps (fail message s) refl) (([], append-nil s.buffer, omega arith), inr refl)
handle_read-Drains p (got chunk) ps s live later =
    let same : (s.clear_requested == s.clear_completed) ≡ true = (==_iff _ _).1 live.2 in
    let (kept, live') = receive-Conserves p chunk s live in
    let (more, after) = later (receive p chunk s) live' in
    rw same (
      Conserves-append chunk (received ps) [] s (receive p chunk s) (drain ps (receive p chunk s))
          kept more,
      after,
    )

pub drain-Drains :
    (ports : List Port) (s : Session) → IsLive s → Drains (received ports) s (drain ports s)
unfolding drain drain_turn received
drain-Drains [] s live = (([], append-nil s.buffer, omega arith), inl live)
drain-Drains (p ∷ ps) s live =
    let rest = handle_read-Drains p p.read ps s live (λ next h. drain-Drains ps next h) in
    simp (live.0, live.1) rest

-- A drain goes on where another one ended.
pub drain-append : (ps qs : List Port) (s : Session) → drain (ps ++ qs) s ≡ drain qs (drain ps s)
unfolding drain
drain-append [] qs s = refl
drain-append (p ∷ ps) qs s = elim (Bool-cases s.draining) [
  | inl e ↦ simp e (drain-append ps qs (drain_turn p s))
  | inr e ↦ simp e (sym (drain-dead qs s e))
]
