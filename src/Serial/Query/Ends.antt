-- ===== src/Serial/Query/Ends.antt =====
-- A clear and a query end by their deadlines.
use omarchy_hardware.Common.{
  ℕ, ◌+◌, ◌==◌, ◌≤◌, min, leb, ◌≡◌, ◌≢◌, inl, inr, refl, sym, if-both, le→leb, true, Option, none,
  some, List, [], ◌∷◌, In,
}
use omarchy_hardware.Serial.{Session, Reply, got, broke, drain, require_open}
use omarchy_hardware.Serial.Read.{Answer, done, raised, waiting, Moment, max_wait_ms}
use omarchy_hardware.Serial.Read.Promises.{when_open-ends, read-ends}
use omarchy_hardware.Serial.Query.{
  clear_wait_ms, then_with, clear_round, clear_loop, clear, written, write, Environment, query,
}

then_with-ends :
    {A B : Type 0} (r : Answer A × Session) (f : A → Session → Answer B × Session)
    → r.0 ≢ waiting
    → ((a : A) (s : Session) → (f a s).0 ≢ waiting)
    → (then_with r f).0 ≢ waiting
then_with-ends (done a, s) f h k = k a s
then_with-ends (raised e, s) f h k = λ q. cc
then_with-ends (waiting, s) f h k = absurd (h refl)

clear_round-ends :
    (s : Session) (wait : Answer ℕ × Session) → wait.0 ≢ waiting → (clear_round s wait).0 ≢ waiting
unfolding clear_round
clear_round-ends s wait h =
    if-both (λ (x : Answer ℕ × Session). x.0 ≢ waiting) (s.clear_completed == s.clear_requested)
      (λ q. cc) (when_open-ends (require_open s) s wait h)

clear_loop-ends :
    (deadline : ℕ) (moments : List Moment) (s : Session)
    → (m : Moment) → In m moments
    → deadline ≤ m.now
    → (clear_loop deadline moments s).0 ≢ waiting
unfolding clear_loop
clear_loop-ends deadline [] s m listed late = absurd listed
clear_loop-ends deadline (n ∷ ms) s m (inl e) late =
    let over : leb deadline n.now ≡ true = rw (sym e) (le→leb deadline m.now late) in
    clear_round-ends s _ (rw over (λ q. cc))
clear_loop-ends deadline (n ∷ ms) s m (inr e) late = clear_round-ends s _ (
    if-both (λ (x : Answer ℕ × Session). x.0 ≢ waiting) (leb deadline n.now) (λ q. cc)
      (clear_loop-ends deadline ms (drain n.ports s) m e late))

clear-ends :
    (start : ℕ) (moments : List Moment) (s : Session) (m : Moment)
    → In m moments
    → start + clear_wait_ms ≤ m.now
    → (clear start moments s).0 ≢ waiting
unfolding clear
clear-ends start moments s m listed late =
    when_open-ends (require_open s) s _
      (clear_loop-ends (start + clear_wait_ms) moments _ m listed late)

written-ends : (r : Reply (Option ℕ)) → written r ≢ waiting
unfolding written
written-ends (got none) = λ q. cc
written-ends (got (some n)) = λ q. cc
written-ends (broke message) = λ q. cc

write-ends :
    (port : List ℕ → Reply (Option ℕ)) (payload : List ℕ) (s : Session)
    → (write port payload s).0 ≢ waiting
unfolding write
write-ends port payload s = when_open-ends (require_open s) s _ (written-ends (port payload))

-- A query whose moments include one at or after the two seconds of its clear, and one at or
-- after the deadline of its read, is over: it does not wait any longer.
pub query-ends :
    (env : Environment) (payload : List ℕ) (wait_ms : ℕ) (until : List ℕ) (s : Session)
    (m m' : Moment)
    → In m env.clear_moments
    → env.clear_start + clear_wait_ms ≤ m.now
    → In m' env.read_moments
    → env.read_start + min wait_ms max_wait_ms ≤ m'.now
    → (query env payload wait_ms until s).0 ≢ waiting
unfolding query
query-ends env payload wait_ms until s m m' listed late listed' late' =
    then_with-ends _ _ (clear-ends env.clear_start env.clear_moments s m listed late)
      λ discarded s1.
        then_with-ends _ _ (write-ends env.write_to_port payload (drain env.before_write s1))
          λ sent s2.
            then_with-ends _ _
              (read-ends env.read_start true _ wait_ms until env.read_moments _ m' listed' late')
              λ taken s3. λ q. cc
