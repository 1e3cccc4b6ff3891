-- ===== src/Serial/Expect/Stream.antt =====
-- The stream as `expect` sees it: lines, and what is consumed of them.
use mathlib.Core.Path.{subst}
use omarchy_hardware.Common.{
  ℕ, zero, suc, ◌+◌, ◌≤◌, ◌<◌, ◌==◌, ◌≡◌, refl, sym, ap, ◌∙◌, inl, inr, Bool, Option-cases, false,
  any, none, some, List, [], ◌∷◌, ◌++◌, length, take, arith, length-take,
}
use omarchy_hardware.Common.Text.{starts_with}
use omarchy_hardware.Serial.{Session}
use omarchy_hardware.Serial.Read.{Moment, find}
use omarchy_hardware.Serial.Read.Promises.{arrivals}
use omarchy_hardware.Serial.Expect.{
  Matcher, Expected, stuck, matched, unmatched, busy, waiting, raised, max_line, line_end,
  rstrip_newline,
}

abbrev pub has_newline : List ℕ → Bool
has_newline bytes = any (λ b. b == 10) bytes

-- The bytes of a line: up to a newline, or as many as a line can have with no newline.
pub data IsLine (raw : List ℕ) : Type 0 where
  ended :
      (before : List ℕ)
      → raw ≡ before ++ 10 ∷ []
      → has_newline before ≡ false
      → length before < max_line
      → IsLine raw
  long : has_newline raw ≡ false → length raw ≡ max_line → IsLine raw

take-take : (n k : ℕ) (bytes : List ℕ) → n ≤ k → take n (take k bytes) ≡ take n bytes
take-take zero k bytes h = refl
take-take (suc n) zero bytes h = absurd (omega arith)
take-take (suc n) (suc k) [] h = refl
take-take (suc n) (suc k) (b ∷ bytes) h = ap (λ t. b ∷ t) (take-take n k bytes (omega arith))

find-before :
    (bytes : List ℕ) (i : ℕ)
    → find (10 ∷ []) bytes ≡ some i
    → (take (suc i) bytes ≡ take i bytes ++ 10 ∷ [])
      × (has_newline (take i bytes) ≡ false)
      × (i < length bytes)
unfolding find starts_with
find-before [] i h = cc
find-before (b ∷ bytes) zero h =
    let first : b ≡ 10 = elim (Option-cases (find (10 ∷ []) bytes)) [
      | inl e ↦ ground (arith, e, h)
      | inr (j, e) ↦ ground (arith, e, h)
    ] in
    (ap (λ c. c ∷ []) first, refl, omega arith)
find-before (b ∷ bytes) (suc i) h = elim (Option-cases (find (10 ∷ []) bytes)) [
  | inl e ↦ absurd (ground (arith, e, h))
  | inr (j, e) ↦
      let same : j ≡ i = ground (arith, e, h) in
      let other : (b == 10) ≡ false = ground (arith, e, h) in
      let (cut, free, inside) = find-before bytes i (e ∙ ap some same) in
      (ap (λ t. b ∷ t) cut, rw other free, omega (arith, inside))
]

find-none : (bytes : List ℕ) → find (10 ∷ []) bytes ≡ none → has_newline bytes ≡ false
unfolding find starts_with
find-none [] h = refl
find-none (b ∷ bytes) h = elim (Option-cases (find (10 ∷ []) bytes)) [
  | inl e ↦ ground (arith, e, h, find-none bytes e)
  | inr (i, e) ↦ absurd (ground (arith, e, h))
]

-- What `line_end` finds is the end of a line.
pub line_end-IsLine :
    (buffer : List ℕ) (end : ℕ) → line_end buffer ≡ some end → IsLine (take end buffer)
unfolding line_end
line_end-IsLine buffer end h = elim (Option-cases (find (10 ∷ []) (take max_line buffer))) [
  | inl e ↦
      let most : (max_line ≤ length buffer) × (end ≡ max_line) =
        (ground (arith, e, h), ground (arith, e, h)) in
      let whole = length-take max_line buffer in
      subst (λ n. IsLine (take n buffer)) (sym most.1)
        (long (find-none (take max_line buffer) e) (omega (arith, whole, most.0)))
  | inr (i, e) ↦
      let (cut, free, inside) = find-before (take max_line buffer) i e in
      let whole = length-take max_line buffer in
      let within : i < max_line = omega (arith, whole, inside) in
      let there : end ≡ suc i = ground (arith, e, h) in
      subst (λ n. IsLine (take n buffer)) (sym there)
        (ended (take i buffer)
          (sym (take-take (suc i) max_line buffer (omega (arith, within)))
            ∙ cut
            ∙ ap (λ t. t ++ 10 ∷ []) (take-take i max_line buffer (omega (arith, within))))
          (ap has_newline (sym (take-take i max_line buffer (omega (arith, within)))) ∙ free)
          (omega (arith, within, length-take i buffer)))
]

-- What was consumed of a stream by a scan that has found nothing so far, in how many lines, and how
-- many bytes the ring lost of it: those bytes, and lines that do not match.
pub data Passed {V : Type 0} (m : Matcher V) : List ℕ → ℕ → ℕ → Type 0 where
  start : Passed m [] 0 0
  lost :
      {xs : List ℕ} {n gone : ℕ}
      → Passed m xs n gone
      → (ys : List ℕ) → Passed m (xs ++ ys) n (gone + length ys)
  passed_over :
      {xs : List ℕ} {n gone : ℕ}
      → Passed m xs n gone
      → (raw : List ℕ) → IsLine raw
      → m.match_line (rstrip_newline (m.decode raw)) ≡ none
      → Passed m (xs ++ raw) (suc n) gone

-- What an answer tells of the stream: what was buffered, followed by what arrived in some moments.
-- What the ring lost is what the session counts from `dropped` on.
abbrev pub Tells :
    {V : Type 0} → Matcher V → List ℕ → ℕ → List Moment → Expected V × Session → Type 0
Tells m stream dropped moments (matched line v n context, s) =
    (j : ℕ) × (xs : List ℕ) × (k gone : ℕ) × Passed m xs k gone
    × (raw : List ℕ) × IsLine raw
    × (m.match_line (rstrip_newline (m.decode raw)) ≡ some v)
    × (line ≡ take max_line (rstrip_newline (m.decode raw)))
    × (n ≡ suc k)
    × (stream ++ arrivals (take j moments) ≡ xs ++ (raw ++ s.buffer))
    × (s.dropped ≡ dropped + gone)
Tells m stream dropped moments (unmatched n context partial, s) =
    (j : ℕ) × (xs : List ℕ) × (gone : ℕ) × Passed m xs n gone
    × (stream ++ arrivals (take j moments) ≡ xs ++ s.buffer)
    × (s.dropped ≡ dropped + gone)
    × (line_end s.buffer ≡ none)
    × (partial ≡ length s.buffer)
Tells m stream dropped moments (busy, s) = Unit
Tells m stream dropped moments (raised e, s) = Unit
Tells m stream dropped moments (waiting, s) = Unit
Tells m stream dropped moments (stuck, s) = Unit
