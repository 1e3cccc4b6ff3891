-- ===== src/Serial/Expect/Lines.antt =====
-- `expect` consumes whole lines and ends.
use omarchy_hardware.Common.{
  ℕ, zero, suc, ◌+◌, ◌≤◌, ◌<◌, min, leb, ◌≡◌, ◌≢◌, inl, inr, sym, Bool, Option-cases, if-both,
  le→leb, In, true, false, Option, none, some, List, [], ◌∷◌, length, take, length-take,
  length-drop, arith,
}
use omarchy_hardware.Common.Text.{Text, starts_with}
use omarchy_hardware.Errors.{ErrorCode, Result, ok, err}
use omarchy_hardware.Serial.{Session, drain, require_open}
use omarchy_hardware.Serial.Read.{Moment, find}
use omarchy_hardware.Serial.Expect.{
  Matcher, Expected, stuck, matched, waiting, raised, max_expect_ms, max_line, line_end, when_open,
  judge, scan, expect_loop, expect,
}

find-lt : (c : ℕ) (bytes : List ℕ) (i : ℕ) → find (c ∷ []) bytes ≡ some i → i < length bytes
unfolding find starts_with
find-lt c [] i h = cc
find-lt c (b ∷ bs) i h = elim (Option-cases (find (c ∷ []) bs)) [
  | inl e ↦ ground (arith, e)
  | inr (j, e) ↦ ground (arith, e, find-lt c bs j e)
]

-- A line has a byte at least, and no more than there are.
line_end-bounds :
    (buffer : List ℕ) (n : ℕ) → line_end buffer ≡ some n → (1 ≤ n) × (n ≤ length buffer)
unfolding line_end
line_end-bounds buffer n h = elim (Option-cases (find (10 ∷ []) (take max_line buffer))) [
  | inl e ↦ (ground (arith, e), ground (arith, e))
  | inr (i, e) ↦
      let inside = find-lt 10 (take max_line buffer) i e in
      let short = length-take max_line buffer in
      (ground (arith, e), ground (arith, e, inside, short))
]

module _ {V : Type 0} (m : Matcher V) (P : Expected V × Session → Type 0) where
  when_open-both :
      (r : Result (Unit {0})) (s : Session) (next : Expected V × Session)
      → ((e : ErrorCode) (s : Session) → P (raised e, s))
      → P next
      → P (when_open m r s next)
  unfolding when_open
  when_open-both (err e) s next h k = h e s
  when_open-both (ok x) s next h k = k

  judge-both :
      (found : Option V) (line : Text) (scanned : ℕ) (context : List Text) (s : Session)
      (rest : Expected V × Session)
      → ((line : Text) (v : V) (n : ℕ) (context : List Text) (s : Session)
          → P (matched line v n context, s))
      → P rest
      → P (judge m found line scanned context s rest)
  unfolding judge
  judge-both none line scanned context s rest h k = k
  judge-both (some v) line scanned context s rest h k = h (take max_line line) v scanned context s

  -- With as much fuel as there are bytes, a scan comes to a match, an error, or the wait.
  scan-both :
      (fuel scanned : ℕ) (context : List Text) (s : Session)
      (wait : ℕ → List Text → Session → Expected V × Session)
      → length s.buffer < fuel
      → ((e : ErrorCode) (s : Session) → P (raised e, s))
      → ((line : Text) (v : V) (n : ℕ) (context : List Text) (s : Session)
          → P (matched line v n context, s))
      → ((n : ℕ) (context : List Text) (s : Session) → P (wait n context s))
      → P (scan m fuel scanned context s wait)
  unfolding scan
  scan-both zero scanned context s wait enough r f w = absurd (omega arith)
  scan-both (suc fuel) scanned context s wait enough r f w =
      when_open-both (require_open s) s _ r (elim (Option-cases (line_end s.buffer)) [
        | inl e ↦ rw e (w scanned context s)
        | inr (end, e) ↦
            let (one, most) = line_end-bounds s.buffer end e in
            let left = length-drop end s.buffer in
            rw e (judge-both _ _ _ _ _ _ f (scan-both fuel _ _ _ wait (omega (arith, left)) r f w))
      ])

-- The call is over: it is not out of fuel and does not wait for more.
abbrev pub IsOver : {V : Type 0} → Expected V × Session → Type 0
IsOver (x, s) = (x ≢ stuck) × (x ≢ waiting)

module _ {V : Type 0} (m : Matcher V) where
  scan-IsOver :
      (scanned : ℕ) (context : List Text) (s : Session)
      (wait : ℕ → List Text → Session → Expected V × Session)
      → ((n : ℕ) (context : List Text) (s : Session) → IsOver (wait n context s))
      → IsOver (scan m (suc (length s.buffer)) scanned context s wait)
  scan-IsOver scanned context s wait w =
      scan-both m IsOver (suc (length s.buffer)) scanned context s wait (omega arith)
        (λ e s. (λ q. cc, λ q. cc)) (λ line v n context s. (λ q. cc, λ q. cc)) w

  expect_loop-IsOver :
      (deadline : ℕ) (moments : List Moment) (scanned : ℕ) (context : List Text) (s : Session)
      (late : Moment)
      → In late moments
      → deadline ≤ late.now
      → IsOver (expect_loop m deadline moments scanned context s)
  unfolding expect_loop
  expect_loop-IsOver deadline [] scanned context s late listed h = absurd listed
  expect_loop-IsOver deadline (moment ∷ moments) scanned context s late (inl e) h =
      let over : leb deadline moment.now ≡ true = rw (sym e) (le→leb deadline late.now h) in
      scan-IsOver scanned context s _ (λ n context s. rw over (λ q. cc, λ q. cc))
  expect_loop-IsOver deadline (moment ∷ moments) scanned context s late (inr listed) h =
      scan-IsOver scanned context s _ λ n context s.
        if-both IsOver (leb deadline moment.now) (λ q. cc, λ q. cc)
          (expect_loop-IsOver deadline moments n context (drain moment.ports s) late listed h)

  -- An expect whose moments include one at or after its deadline is over: its fuel did not run
  -- out and it does not wait any longer.
  pub expect-IsOver :
      (start : ℕ) (acquired : Bool) (wait_ms : ℕ) (moments : List Moment) (s : Session)
      (late : Moment)
      → In late moments
      → start + min wait_ms max_expect_ms ≤ late.now
      → IsOver (expect m start acquired wait_ms moments s)
  unfolding expect
  expect-IsOver start true wait_ms moments s late listed h =
      expect_loop-IsOver (start + min wait_ms max_expect_ms) moments 0 [] s late listed h
  expect-IsOver start false wait_ms moments s late listed h = (λ q. cc, λ q. cc)
