-- ===== src/Serial/Expect.antt =====
-- `expect` of mcp/omarchy_hardware/serial_session.py.
pub mod Lines
pub mod Stream
pub mod First
use omarchy_hardware.Common.{
  ℕ, zero, suc, ◌+◌, ◌-◌, ◌==◌, leb, min, Bool, true, false, ◌||◌, Option, none, some, List, [],
  ◌∷◌, ◌++◌, length, take, drop, reverse, if◌then◌else◌,
}
use omarchy_hardware.Common.Text.{Text}
use omarchy_hardware.Common.Unicode.{lstrip}
use omarchy_hardware.Errors.{ErrorCode, Result, ok, err}
use omarchy_hardware.Serial.{Session, drain, require_open}
use omarchy_hardware.Serial.Read.{Moment, find}

abbrev pub max_expect_ms : ℕ
max_expect_ms = 30000

abbrev pub max_line : ℕ
max_line = 4096

abbrev pub context_lines : ℕ
context_lines = 20

abbrev pub context_chars : ℕ
context_chars = 200

-- The matcher of the caller (`none` for what is not truthy) and the decoder that replaces what is
-- not UTF-8.
pub record Matcher (V : Type 0) : Type 0 where
  pub decode : List ℕ → Text
  pub match_line : Text → Option V

-- What a call comes to; `stuck` is no Python value: the fuel ran out.
pub data Expected (V : Type 0) : Type 0 where
  matched : (line : Text) → V → (lines_scanned : ℕ) → (context : List Text) → Expected V
  unmatched : (lines_scanned : ℕ) → (context : List Text) → (partial_line_bytes : ℕ) → Expected V
  busy : Expected V
  raised : ErrorCode → Expected V
  waiting : Expected V
  stuck : Expected V

-- Where the first whole line ends, in the first `max_line` bytes; so many bytes with no newline are
-- a line.
unfoldable pub line_end : List ℕ → Option ℕ
line_end buffer = elim (find (10 ∷ []) (take max_line buffer)) [
  | some newline ↦ some (newline + 1)
  | none ↦ if leb max_line (length buffer) then some max_line else none
]

-- `rstrip("\r\n")`
unfoldable pub rstrip_newline : Text → Text
unfolding lstrip
rstrip_newline s = reverse (lstrip (λ c. c == 13 || c == 10) (reverse s))

-- `append` to a deque with a `maxlen`.
unfoldable pub push : ℕ → List Text → Text → List Text
push limit lines line = let longer = lines ++ line ∷ [] in drop (length longer - limit) longer

module _ {V : Type 0} (m : Matcher V) where
  unfoldable pub when_open :
      Result (Unit {0}) → Session → Expected V × Session → Expected V × Session
  when_open (err e) s next = (raised e, s)
  when_open (ok x) s next = next

  -- A line that matches, or that the scan passes over.
  unfoldable pub judge :
      Option V → Text → ℕ → List Text → Session → Expected V × Session → Expected V × Session
  judge (some found) line scanned context s rest =
      (matched (take max_line line) found scanned context, s)
  judge none line scanned context s rest = rest

  -- The lines that are there, up to the first match; then `wait`, with the lines scanned so far.
  unfoldable pub scan :
      ℕ
      → ℕ
      → List Text
      → Session
      → (ℕ → List Text → Session → Expected V × Session)
      → Expected V × Session
  unfolding when_open judge
  scan zero scanned context s wait = (stuck, s)
  scan (suc fuel) scanned context s wait = when_open (require_open s) s (elim (line_end s.buffer) [
    | none ↦ wait scanned context s
    | some end ↦
        let line = rstrip_newline (m.decode (take end s.buffer)) in
        let s' = record s { buffer = drop end s.buffer } in
        judge (m.match_line line) line (scanned + 1) context s'
          (scan fuel (scanned + 1) (push context_lines context (take context_chars line)) s' wait)
  ])

  unfoldable pub expect_loop : ℕ → List Moment → ℕ → List Text → Session → Expected V × Session
  expect_loop deadline [] scanned context s =
      scan (suc (length s.buffer)) scanned context s (λ scanned context s. (waiting, s))
  expect_loop deadline (moment ∷ moments) scanned context s =
      scan (suc (length s.buffer)) scanned context s λ scanned context s.
        let rest = expect_loop deadline moments scanned context (drain moment.ports s) in
        if leb deadline moment.now then (unmatched scanned context (length s.buffer), s) else rest

  -- `acquired` is whether the wait for a query in progress ended in time.
  unfoldable pub expect : ℕ → Bool → ℕ → List Moment → Session → Expected V × Session
  expect start acquired wait_ms moments s =
      let deadline = start + min wait_ms max_expect_ms in
      if acquired then expect_loop deadline moments 0 [] s else (busy, s)
