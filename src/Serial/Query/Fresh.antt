-- ===== src/Serial/Query/Fresh.antt =====
-- What a query hands over: only bytes that came after the input was thrown away.
use omarchy_hardware.Common.{
  ℕ, ◌+◌, ◌≡◌, inl, inr, refl, sym, ap, ◌∙◌, true, Option, List, ◌∷◌, ◌++◌, length, take,
}
use mathlib.Core.Path.{subst}
use omarchy_hardware.Errors.{serial_error}
use omarchy_hardware.Serial.{Session, Reply, Port, drain, require_open}
use omarchy_hardware.Serial.Drained.{
  IsLive, Conserves, Conserves-append, received, drain-Drains, drain-append,
}
use omarchy_hardware.Serial.Read.{Answer, done, raised, waiting, Moment, Taken, read}
use omarchy_hardware.Serial.Read.Promises.{arrivals, read-Conserves, read_loop-failed}
use omarchy_hardware.Serial.Query.{
  then_with, clear, write, query_bytes, Environment, Queried, query,
}
use omarchy_hardware.Serial.Query.Turns.{turns_of, Empties}
use omarchy_hardware.Serial.Query.Cleared.{when_open-done, clear-Cleared}

then_with-done :
    {A B : Type 0} (r : Answer A × Session) (f : A → Session → Answer B × Session) (b : B)
    (s' : Session)
    → then_with r f ≡ (done b, s')
    → (a : A) × (s : Session) × (r ≡ (done a, s)) × (f a s ≡ (done b, s'))
then_with-done (done a, s) f b s' h = (a, s, refl, h)
then_with-done (raised e, s) f b s' h = cc
then_with-done (waiting, s) f b s' h = cc

write-same :
    (port : List ℕ → Reply (Option ℕ)) (payload : List ℕ) (s s' : Session) (sent : ℕ)
    → write port payload s ≡ (done sent, s')
    → s' ≡ s
unfolding write
write-same port payload s s' sent h = let on = when_open-done (require_open s) s s' _ sent h in cc

read-failed :
    (start max_bytes wait_ms : ℕ) (until : List ℕ) (moments : List Moment) (s : Session)
    → s.failed ≡ true
    → read start true max_bytes wait_ms until moments s ≡ (raised serial_error, s)
unfolding read
read-failed start max_bytes wait_ms until moments s h = read_loop-failed _ _ _ moments s h

-- A read after some turns of a live session.
read-Kept :
    (turns : List Port) (s : Session) (env : Environment) (wait_ms : ℕ) (until : List ℕ)
    (s' : Session) (taken : Taken)
    → IsLive s
    → read env.read_start true query_bytes wait_ms until env.read_moments (drain turns s)
      ≡ (done taken, s')
    → (n : ℕ) × Conserves (received turns ++ arrivals (take n env.read_moments)) taken.bytes s s'
read-Kept turns s env wait_ms until s' taken live h =
    let (kept, after) = drain-Drains turns s live in
    elim after [
      | inl live' ↦
          let (n, more, short) =
            read-Conserves env.read_start query_bytes wait_ms until env.read_moments (drain turns s)
              s' taken live' h in
          (
            n,
            Conserves-append (received turns) (arrivals (take n env.read_moments)) taken.bytes s
                (drain turns s) s' kept more,
          )
      | inr failed ↦
          let raised_there =
            read-failed env.read_start query_bytes wait_ms until env.read_moments (drain turns s)
              failed in
          cc
    ]

done-injective :
    {A : Type 0} (a b : A) (s s' : Session)
    → ◌≡◌ {A = Answer A × Session} (done a, s) (done b, s')
    → (a ≡ b) × (s ≡ s')
done-injective a b s s' h = (cc, cc)

-- The steps of a query, put together.
steps-Fresh :
    (env : Environment) (payload : List ℕ) (wait_ms : ℕ) (until : List ℕ) (s s1 s2 s' : Session)
    (result : Queried)
    → IsLive s
    → clear env.clear_start env.clear_moments s ≡ (done result.bytes_discarded, s1)
    → write env.write_to_port payload (drain env.before_write s1) ≡ (done result.bytes_written, s2)
    → read env.read_start true query_bytes wait_ms until env.read_moments (drain env.before_read s2)
      ≡ (done result.taken, s')
    → (count : ℕ) × (turn : Port) × (later : List Port) × (turns_of (take count env.clear_moments)
        ≡ turn ∷ later)
      × Empties turn (length s.buffer) result.bytes_discarded
      × (n : ℕ) × (lost : List ℕ) × (received (later ++ (env.before_write ++ env.before_read))
            ++ arrivals (take n env.read_moments)
          ≡ lost ++ (result.taken.bytes ++ s'.buffer))
      × (s'.dropped ≡ s.dropped + length lost)
steps-Fresh env payload wait_ms until s s1 s2 s' result live cleared wrote took =
    let (count, c) =
      clear-Cleared env.clear_start env.clear_moments s s1 result.bytes_discarded live cleared in
    let turns = c.later ++ (env.before_write ++ env.before_read) in
    let before : drain env.before_read s2 ≡ drain turns c.start =
      ap (drain env.before_read) (
        write-same env.write_to_port payload (drain env.before_write s1) s2 result.bytes_written
          wrote
        ∙ ap (drain env.before_write) c.reaches)
      ∙ sym (drain-append env.before_write env.before_read (drain c.later c.start))
      ∙ sym (drain-append c.later (env.before_write ++ env.before_read) c.start) in
    let (n, (lost, kept, dropped)) =
      read-Kept turns c.start env wait_ms until s' result.taken c.is_live (
        subst
          (λ x.
            read env.read_start true query_bytes wait_ms until env.read_moments x
            ≡ (done result.taken, s'))
          before took) in
    (
      count,
      c.turn,
      c.later,
      c.is_first,
      c.empties,
      n,
      lost,
      subst
          (λ buffer.
            buffer ++ (received turns ++ arrivals (take n env.read_moments))
            ≡ lost ++ (result.taken.bytes ++ s'.buffer))
          c.is_empty kept,
      dropped ∙ ap (λ d. d + length lost) c.keeps_dropped,
    )

-- When a query returns, of a session whose thread runs, that is not closing and has no clear
-- asked for, the first turn of the thread in it threw away what was buffered, what that turn
-- read and what the port had queued, as many bytes as the query tells were discarded; and what
-- the later turns up to the read and some of the moments of the read brought is what the ring
-- lost, followed by the bytes returned, followed by what is buffered after, with the lost
-- bytes added to the dropped count.
pub query-Fresh :
    (env : Environment) (payload : List ℕ) (wait_ms : ℕ) (until : List ℕ) (s s' : Session)
    (result : Queried)
    → IsLive s
    → query env payload wait_ms until s ≡ (done result, s')
    → (count : ℕ) × (turn : Port) × (later : List Port) × (turns_of (take count env.clear_moments)
        ≡ turn ∷ later)
      × Empties turn (length s.buffer) result.bytes_discarded
      × (n : ℕ) × (lost : List ℕ) × (received (later ++ (env.before_write ++ env.before_read))
            ++ arrivals (take n env.read_moments)
          ≡ lost ++ (result.taken.bytes ++ s'.buffer))
      × (s'.dropped ≡ s.dropped + length lost)
unfolding query
query-Fresh env payload wait_ms until s s' result live h =
    let (discarded, s1, cleared, h1) =
      then_with-done (clear env.clear_start env.clear_moments s) _ result s' h in
    let (sent, s2, wrote, h2) =
      then_with-done (write env.write_to_port payload (drain env.before_write s1)) _ result s' h1 in
    let (taken, s3, took, h3) =
      then_with-done
        (read env.read_start true query_bytes wait_ms until env.read_moments
          (drain env.before_read s2))
        _ result s' h2 in
    let (e, last) = done-injective _ result s3 s' h3 in
    steps-Fresh env payload wait_ms until s s1 s2 s' result live
      (cleared ∙ ap (λ (q : Queried). (done q.bytes_discarded, s1)) e)
      (wrote ∙ ap (λ (q : Queried). (done q.bytes_written, s2)) e)
      (took ∙ ap (λ (q : Queried). (done q.taken, s3)) e ∙ ap (λ x. (done result.taken, x)) last)
