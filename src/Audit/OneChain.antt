-- ===== src/Audit/OneChain.antt =====
-- The processes that append to the log extend one chain.
use omarchy_hardware.Common.{
  ℕ, suc, ◌+◌, ◌<◌, ◌≡◌, refl, ap, ◌∙◌, ◌==◌, length, length-append, Bool, true, false, ◌&&◌, none,
  some, List, [], ◌∷◌, ◌++◌, all, arith, if-both,
}
use omarchy_hardware.Common.Text.{Text, codes, text_eq, text_eq_refl}
use omarchy_hardware.Common.Dict.{Dict, lookup}
use omarchy_hardware.Audit.Json.{
  Value, text, Python, Laws, put, text_lt, is_dict, lookup-merge, merge-is_dict,
}
use omarchy_hardware.Audit.Verify.{genesis, intact, line_hash, verify}
use omarchy_hardware.Audit.Chain.{
  File, size, Key, key_of, key_eq, Chain, forgotten, remembered, done, tail, payload, append_record,
  record_event, Step, records, resets, set, run_all,
}
use omarchy_hardware.Audit.Extends.{
  written, Follows, at_end, Follows-append, verify_from-Follows, read_head-Follows,
}

-- Fields that leave the chain's own keys alone.
abbrev pub is_plain : {V : Type 0} → Dict (Value V) → Bool
is_plain fields = elim (lookup (codes "prev") fields) [
  | some v ↦ false
  | none ↦ elim (lookup (codes "hash") fields) [ some v ↦ false | none ↦ true ]
]

abbrev pub is_plain_step : {V : Type 0} → Step V → Bool
is_plain_step (resets p) = true
is_plain_step (records p at pid event fields) = is_plain fields

-- How many records the steps write.
unfoldable pub record_count : {V : Type 0} → List (Step V) → ℕ
record_count [] = 0
record_count (resets p ∷ steps) = record_count steps
record_count (records p at pid event fields ∷ steps) = suc (record_count steps)

-- What a process remembers: nothing, the head of a log that has grown since, or the head.
data Agrees (file : File) (head : Text) : Chain → Type 0 where
  nothing : Agrees file head forgotten
  behind :
      {old : Text} {key : Key}
      → key.st_size < size file.lines
      → Agrees file head (remembered old key)
  current : Agrees file head (remembered head (key_of file))

size-append :
    (lines : List (List ℕ)) (line : List ℕ)
    → size (lines ++ (line ∷ [])) ≡ size lines + length line + 1
unfolding size
size-append [] line = omega arith
size-append (l ∷ lines) line = omega (arith, size-append lines line)

key_eq_refl : (k : Key) → key_eq k k ≡ true
unfolding key_eq
key_eq_refl k = ground (arith, text_eq_refl k.path)

key_eq-behind :
    (key : Key) (file : File) → key.st_size < size file.lines → key_eq key (key_of file) ≡ false
unfolding key_eq key_of
key_eq-behind key file h = ground arith

and-cases : (a b : Bool) → (a && b) ≡ true → (a ≡ true) × (b ≡ true)
and-cases a b h = ground arith

plain_fields :
    {V : Type 0} (fields : Dict (Value V))
    → is_plain fields ≡ true
    → (lookup (codes "prev") fields ≡ none) × (lookup (codes "hash") fields ≡ none)
plain_fields fields h = ground arith

module _ {V : Type 0} (py : Python V) (laws : Laws py) where
  tail-Agrees :
      {file : File} {head : Text} {chain : Chain}
      → Follows py genesis file.lines head
      → Agrees file head chain
      → tail py chain file ≡ done head
  unfolding tail
  tail-Agrees f nothing = rw (read_head-Follows py laws f) refl
  tail-Agrees {file = file} f (behind {key = key} h) =
      rw (key_eq-behind key file h, read_head-Follows py laws f) refl
  tail-Agrees {file = file} f current = rw (key_eq_refl (key_of file)) refl

  payload-Written :
      (at pid : V) (event previous : Text) (fields : Dict (Value V))
      → is_plain fields ≡ true
      → (is_dict (payload py at pid event previous fields) ≡ true)
        × (lookup (codes "prev") (payload py at pid event previous fields) ≡ some (text previous))
        × (lookup (codes "hash") (payload py at pid event previous fields) ≡ none)
  unfolding payload put lookup is_dict text_eq text_lt
  payload-Written at pid event previous fields h =
      let (p, k) = plain_fields fields h in
      (
        merge-is_dict _ fields refl,
        lookup-merge (codes "prev") _ fields p,
        lookup-merge (codes "hash") _ fields k,
      )

  append-Written :
      (file : File) {head : Text} (at pid : V) (event : Text) (fields : Dict (Value V))
      → is_plain fields ≡ true
      → Follows py genesis file.lines head
      → (chain : Chain) × (after : File) × (digest : Text) × (append_record py file head
            (payload py at pid event head fields)
          ≡ (chain, after, digest))
        × Follows py genesis after.lines digest
        × (chain ≡ remembered digest (key_of after))
        × (length after.lines ≡ length file.lines + 1)
        × (size file.lines < size after.lines)
  unfolding append_record
  append-Written file {head = head} at pid event fields h f =
      let (d, p, k) = payload-Written at pid event head fields h in
      let body = payload py at pid event head fields in
      let line =
        py.encode (py.dumps (put (codes "hash") (text (line_hash py head (py.dumps body))) body)) in
      (
        _,
        _,
        _,
        refl,
        Follows-append py f (written body d p k),
        refl,
        length-append file.lines (line ∷ []),
        omega (arith, size-append file.lines line),
      )

  record_event-Agrees :
      {file : File} {head : Text} {chain : Chain} (at pid : V) (event : Text)
      (fields : Dict (Value V))
      → Follows py genesis file.lines head
      → Agrees file head chain
      → record_event py true at pid event fields chain file
        ≡ done (append_record py file head (payload py at pid event head fields))
  unfolding record_event
  record_event-Agrees at pid event fields f a = rw (tail-Agrees f a) refl

  run-records :
      (chains : ℕ → Chain) (file : File) {after : File} (p : ℕ) (at pid : V) (event : Text)
      (fields : Dict (Value V)) (steps : List (Step V)) {chain : Chain} {digest : Text}
      → record_event py true at pid event fields (chains p) file ≡ done (chain, after, digest)
      → run_all py chains file (records p at pid event fields ∷ steps)
        ≡ run_all py (set p chain chains) after steps
  unfolding run_all
  run-records chains file p at pid event fields steps e = rw (run_all, e) refl

  -- What each process remembers agrees with the log after a step as well.
  set-Agrees :
      (file : File) (head : Text) (chains : ℕ → Chain) (p : ℕ) (chain : Chain)
      → Agrees file head chain
      → ((q : ℕ) → Agrees file head (chains q))
      → (q : ℕ) → Agrees file head (set p chain chains q)
  unfolding set
  set-Agrees file head chains p chain a all q = if-both (Agrees file head) (q == p) a (all q)

  grown-Agrees :
      {file after : File} {head digest : Text} {chain : Chain}
      → size file.lines < size after.lines
      → Agrees file head chain
      → Agrees after digest chain
  unfolding key_of
  grown-Agrees h nothing = nothing
  grown-Agrees h (behind k) = behind (omega (arith, h, k))
  grown-Agrees h current = behind h

  run-Follows :
      (chains : ℕ → Chain) (file : File) (steps : List (Step V)) {head : Text}
      → all is_plain_step steps ≡ true
      → Follows py genesis file.lines head
      → ((p : ℕ) → Agrees file head (chains p))
      → (after : File) × (last : Text) × (run_all py chains file steps ≡ done after)
        × Follows py genesis after.lines last
        × (length after.lines ≡ length file.lines + record_count steps)
  unfolding run_all record_count
  run-Follows chains file [] plain f a = (file, _, refl, f, omega arith)
  run-Follows chains file (resets p ∷ steps) {head = head} plain f a =
      run-Follows (set p forgotten chains) file steps plain f
        (set-Agrees file head chains p forgotten nothing a)
  run-Follows chains file (records p at pid event fields ∷ steps) {head = head} plain f a =
      let (h, rest) = and-cases (is_plain fields) (all is_plain_step steps) plain in
      let (chain, after, digest, e, g, c, n, grown) = append-Written file at pid event fields h f in
      let agrees : Agrees after digest chain = rw c current in
      let (end, last, r, follows, count) =
        run-Follows (set p chain chains) after steps rest g
          (set-Agrees after digest chains p chain agrees λ q. grown-Agrees grown (a q)) in
      (
        end,
        last,
        run-records chains file p at pid event fields steps
              (record_event-Agrees at pid event fields f (a p) ∙ ap done e)
            ∙ r,
        follows,
        omega (arith, n, count),
      )

-- From an empty log, when processes record events whose fields leave the keys prev and hash
-- alone, in any order and with caches that are forgotten at any time, every record is
-- appended, and verify finds the log intact with the number of records that were written.
pub run-verify :
    {V : Type 0} (py : Python V) (laws : Laws py) (path : Text) (dev ino : ℕ)
    (steps : List (Step V))
    → all is_plain_step steps ≡ true
    → (after : File) × (run_all py
          (λ p. forgotten)
          (record { path = path; dev = dev; ino = ino; lines = [] })
          steps
        ≡ done after)
      × (verify py (some after.lines) ≡ intact (record_count steps))
unfolding verify
run-verify py laws path dev ino steps plain =
    let (after, last, r, follows, count) =
      run-Follows py laws (λ p. forgotten)
        (record { path = path; dev = dev; ino = ino; lines = [] }) steps plain at_end
        (λ p. nothing) in
    let total : 0 + length after.lines ≡ record_count steps = omega (arith, count) in
    (after, r, verify_from-Follows py laws 0 1 follows ∙ ap intact total)
