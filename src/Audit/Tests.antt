-- ===== src/Audit/Tests.antt =====
-- Runs of the audit log, and the theorems about them.
use omarchy_hardware.Common.{
  ℕ, ◌+◌, ◌≡◌, ◌≢◌, refl, sym, ap, ◌∙◌, arith, length, some, List, [], ◌∷◌, ◌++◌, In, inl, inr,
}
use omarchy_hardware.Common.Text.{Text, codes, text_eq, split}
use omarchy_hardware.Common.Dict.{Dict, lookup, remove}
use omarchy_hardware.Common.Unicode.{lstrip, strip}
use omarchy_hardware.Audit.Json.{Value, text}
use omarchy_hardware.Audit.Verify.{
  genesis, intact, text_of, is_text, line_hash, check_record, check_loaded, check_text,
  check_decoded, check_line, verify_from, verify,
}
use omarchy_hardware.Audit.Chain.{File, forgotten, done, Step, records, resets, run_all}
use omarchy_hardware.Audit.OneChain.{record_count, run-verify}
use omarchy_hardware.Audit.Bodies.{bodies, hashed, stored}
use omarchy_hardware.Audit.Sealed.{bodies-sealed}
use omarchy_hardware.Audit.Sample.{sample, sample-Laws}

abbrev fields : Dict (Value Unit)
fields = (codes "bytes", text (codes "3")) ∷ (codes "port", text (codes "ttyUSB0")) ∷ []

-- Two processes that take turns, one of which starts afresh.
abbrev steps : List (Step Unit)
steps =
    records 0 tt tt (codes "write") fields
    ∷ records 1 tt tt (codes "flash") fields
    ∷ records 0 tt tt (codes "write") []
    ∷ resets 1
    ∷ records 1 tt tt (codes "close") fields
    ∷ []

run-verify_example :
    (after : File) × (run_all sample
        (λ p. forgotten)
        (record { path = codes "audit.log"; dev = 1; ino = 2; lines = [] })
        steps
      ≡ done after)
    × (verify sample (some after.lines) ≡ intact (record_count steps))
unfolding lookup text_eq
run-verify_example = run-verify sample sample-Laws (codes "audit.log") 1 2 steps refl

abbrev body : Dict (Value Unit)
body = (codes "event", text (codes "flash")) ∷ (codes "prev", text genesis) ∷ []

abbrev digest : Text
digest = sample.sha256 (genesis ++ (10 ∷ sample.dumps body))

abbrev line : List ℕ
line = sample.dumps (
    (codes "event", text (codes "flash"))
    ∷ (codes "hash", text digest)
    ∷ (codes "prev", text genesis)
    ∷ [])

abbrev log : List (List ℕ)
log = [] ∷ []

runs :
    (stored sample line ≡ some (sample.dumps body, digest))
    × (verify sample (some ([] ++ (line ∷ []))) ≡ intact 1)
    × (verify sample (some (log ++ (line ∷ []))) ≡ intact 1)
    × (bodies sample (line ∷ []) ≡ sample.dumps body ∷ [])
    × (bodies sample (log ++ (line ∷ [])) ≡ sample.dumps body ∷ [])
unfolding verify verify_from check_line check_decoded check_text check_loaded check_record line_hash
    is_text text_of lookup remove text_eq split strip lstrip
runs = (refl, refl, refl, refl, refl)

one_text : {s x : Text} → In s (x ∷ []) → s ≡ x
one_text (inl e) = e
one_text (inr m) = elim m [ ]

hashed_once :
    (bs : List Text)
    → bs ≡ sample.dumps body ∷ []
    → (s : Text) → In s (hashed sample bs)
    → s ≡ genesis ++ (10 ∷ sample.dumps body)
hashed_once bs e s m = one_text (rw e at m)

abbrev first_of : Text → ℕ
first_of [] = 0
first_of (c ∷ s) = c

sample-fresh : (s : Text) → sample.sha256 s ≢ genesis
sample-fresh s h = let e : 100 + length s ≡ 48 = ap first_of h in omega (arith, e)

bodies-sealed_example : bodies sample ([] ++ (line ∷ [])) ≡ bodies sample (log ++ (line ∷ []))
bodies-sealed_example =
    let (s, v, w, b, c) = runs in
    bodies-sealed sample (λ s. refl) [] log line line (sample.dumps body) (sample.dumps body) digest
      1 1 (λ s t m n _. hashed_once _ b s m ∙ sym (hashed_once _ c t n)) (λ s _. sample-fresh s)
      (λ t _. sample-fresh t) s s v w
