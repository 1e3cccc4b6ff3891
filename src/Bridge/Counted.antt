-- ===== src/Bridge/Counted.antt =====
-- The pace of a bridge: a message takes an interval.
use omarchy_hardware.Common.{
  ℕ, ◌+◌, ◌*◌, ◌≤◌, ltb, leb, leb→le, ◌≡◌, Bool, Bool-cases, if-both, true, false, Option, none,
  some, List, [], ◌∷◌, length, arith, inl, inr, if◌then◌else◌,
}
use omarchy_hardware.Common.Text.{codes}
use omarchy_hardware.Bridge.{
  Published, sent, refused, broke, Bridge, stop, publish_result, Attempt, send, is_due, set_pending,
  Limits, offer_payload, offer, flush_pending, Heard, closed, silence, reading, Turn, hear, turn,
  run,
}

-- From `b` to `b'`, the clock of the last message has gone an interval for each message published.
abbrev pub IsPaced : ℕ → Bridge → Bridge → Type 0
IsPaced interval b b' =
    b'.published * interval + b.last_sent ≤ b'.last_sent + b.published * interval

IsPaced-trans :
    (interval : ℕ) (b c d : Bridge)
    → IsPaced interval b c
    → IsPaced interval c d
    → IsPaced interval b d
IsPaced-trans interval b c d p q = omega arith

mul-next : (n interval : ℕ) → (n + 1) * interval ≡ n * interval + interval
mul-next n interval = omega arith

publish_result-IsPaced :
    (interval : ℕ) (result : Published) (b : Bridge) (time : ℕ)
    → b.last_sent + interval ≤ time
    → IsPaced interval b (record (publish_result result b) { last_sent = time })
unfolding publish_result
publish_result-IsPaced interval sent b time h = omega (arith, mul-next b.published interval)
publish_result-IsPaced interval (refused message) b time h = omega arith
publish_result-IsPaced interval (broke name) b time h = omega arith

-- A message that is sent when the interval is over.
send-IsPaced :
    (interval now : ℕ) (a : Attempt) (b : Bridge)
    → now ≤ a.sent_at
    → is_due interval now b ≡ true
    → IsPaced interval b (send a b)
unfolding send is_due
send-IsPaced interval now a b h due =
    let late = leb→le (b.last_sent + interval) now due in
    if-both (IsPaced interval b) b.stopped (omega arith) (
      if-both (IsPaced interval b) a.charged
        (publish_result-IsPaced interval a.published b a.sent_at (omega (arith, late)))
        (omega arith))

-- What a bridge does when the interval is over, or else with no message.
due-IsPaced :
    (interval now : ℕ) (a : Attempt) (b d : Bridge)
    → now ≤ a.sent_at
    → IsPaced interval b d
    → IsPaced interval b (if is_due interval now b then send a b else d)
due-IsPaced interval now a b d h k = elim (Bool-cases (is_due interval now b)) [
  | inl e ↦ rw e (send-IsPaced interval now a b h e)
  | inr e ↦ rw e k
]

flush_pending-IsPaced :
    (limits : Limits) (now : ℕ) (a : Attempt) (pending : Option (List ℕ)) (b : Bridge)
    → now ≤ a.sent_at
    → IsPaced limits.min_interval b (flush_pending limits now a pending b)
unfolding flush_pending is_due
flush_pending-IsPaced limits now a none b h = omega arith
flush_pending-IsPaced limits now a (some payload) b h =
    elim (Bool-cases (leb (b.last_sent + limits.min_interval) now)) [
      | inl e ↦ rw e (send-IsPaced limits.min_interval now a (record b { pending = none }) h e)
      | inr e ↦ rw e (omega arith)
    ]

offer_payload-IsPaced :
    (limits : Limits) (now : ℕ) (a : Attempt) (payload : Option (List ℕ)) (b : Bridge)
    → now ≤ a.sent_at
    → IsPaced limits.min_interval b (offer_payload limits now a payload b)
unfolding offer_payload set_pending
offer_payload-IsPaced limits now a none b h = omega arith
offer_payload-IsPaced limits now a (some payload) b h =
    if-both (IsPaced limits.min_interval b) (ltb limits.max_payload (length payload)) (omega arith)
      (due-IsPaced limits.min_interval now a b _ h (omega arith))

hear-IsPaced :
    (limits : Limits) (t : Turn) (heard : Heard) (b : Bridge)
    → t.offered_at ≤ t.offering.sent_at
    → IsPaced limits.min_interval b (hear limits t heard b)
unfolding hear stop offer
hear-IsPaced limits t closed b h = omega arith
hear-IsPaced limits t silence b h = omega arith
hear-IsPaced limits t (reading payload) b h =
    if-both (IsPaced limits.min_interval b) b.stopped (omega arith)
      (offer_payload-IsPaced limits t.offered_at t.offering payload b h)

-- The clock does not go back between a look at it and the message.
abbrev pub IsTimed : Turn → Type 0
IsTimed t = (t.now ≤ t.flushing.sent_at) × (t.offered_at ≤ t.offering.sent_at)

turn-IsPaced :
    (limits : Limits) (t : Turn) (b : Bridge)
    → IsTimed t
    → IsPaced limits.min_interval b (turn limits t b)
unfolding turn stop
turn-IsPaced limits t b (h, k) = if-both (IsPaced limits.min_interval b) b.stopped (omega arith) (
    if-both (IsPaced limits.min_interval b) (leb limits.deadline t.now) (omega arith) (
      IsPaced-trans limits.min_interval b (flush_pending limits t.now t.flushing b.pending b)
        (hear limits t t.heard (flush_pending limits t.now t.flushing b.pending b))
        (flush_pending-IsPaced limits t.now t.flushing b.pending b h)
        (hear-IsPaced limits t t.heard (flush_pending limits t.now t.flushing b.pending b) k)))

abbrev pub AllTimed : List (Bool × Turn) → Type 0
AllTimed [] = Unit
AllTimed ((stopping, t) ∷ ts) = IsTimed t × AllTimed ts

-- In any run of a bridge whose clock does not go back between a look at it and the message
-- that follows, the clock of the last message advances by at least min_interval for each
-- message that is published.
pub run-IsPaced :
    (limits : Limits) (turns : List (Bool × Turn)) (b : Bridge)
    → AllTimed turns
    → IsPaced limits.min_interval b (run limits turns b)
unfolding run stop
run-IsPaced limits [] b h = omega arith
run-IsPaced limits ((true, t) ∷ ts) b (h, rest) =
    let next = turn limits t (stop (codes "stopped") b) in
    IsPaced-trans limits.min_interval b next (run limits ts next)
      (turn-IsPaced limits t (stop (codes "stopped") b) h) (run-IsPaced limits ts next rest)
run-IsPaced limits ((false, t) ∷ ts) b (h, rest) =
    let next = turn limits t b in
    IsPaced-trans limits.min_interval b next (run limits ts next) (turn-IsPaced limits t b h)
      (run-IsPaced limits ts next rest)
