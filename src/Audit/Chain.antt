-- ===== src/Audit/Chain.antt =====
-- `record` and `require` of mcp/omarchy_hardware/audit.py: appending to the log, by several
-- processes that each remember the head of the chain.
use omarchy_hardware.Common.{
  ℕ, ◌+◌, ◌==◌, length, Bool, true, false, ◌&&◌, Option, none, some, List, [], ◌∷◌, ◌++◌,
  if◌then◌else◌,
}
use omarchy_hardware.Common.Text.{Text, codes, text_eq}
use omarchy_hardware.Common.Dict.{Dict}
use omarchy_hardware.Errors.{Result, ok, err, audit_log_failed}
use omarchy_hardware.Audit.Json.{Value, text, other, Python, put, merge}
use omarchy_hardware.Audit.Verify.{line_hash, read_head}

-- The file: its path and identity, which `fstat` gives, and its lines, each ended by a line feed.
pub record File : Type 0 where
  pub path : Text
  pub dev : ℕ
  pub ino : ℕ
  pub lines : List (List ℕ)

unfoldable pub size : List (List ℕ) → ℕ
size [] = 0
size (line ∷ lines) = length line + 1 + size lines

pub record Key : Type 0 where
  pub path : Text
  pub dev : ℕ
  pub ino : ℕ
  pub st_size : ℕ

unfoldable pub key_of : File → Key
unfolding size
key_of file = record { path = file.path; dev = file.dev; ino = file.ino; st_size = size file.lines }

unfoldable pub key_eq : Key → Key → Bool
key_eq k j = text_eq k.path j.path && (k.dev == j.dev && (k.ino == j.ino && k.st_size == j.st_size))

-- `_Chain`: `head` and `key` are set together.
pub data Chain : Type 0 where
  forgotten : Chain
  remembered : (head : Text) → Key → Chain

-- What an append comes to.
pub data Attempt (A : Type 0) : Type 0 where
  done : A → Attempt A
  os_error : Attempt A
  unicode_error : Attempt A

abbrev pub found : Option Text → Attempt Text
found none = unicode_error
found (some head) = done head

module _ {V : Type 0} (py : Python V) where
  -- `_Chain.tail`
  unfoldable pub tail : Chain → File → Attempt Text
  unfolding key_eq
  tail forgotten file = found (read_head py (some file.lines))
  tail (remembered head key) file =
      if key_eq key (key_of file) then done head else found (read_head py (some file.lines))

  -- The record, without its hash.
  unfoldable pub payload : (at pid : V) → Text → Text → Dict (Value V) → Dict (Value V)
  payload at pid event previous fields =
      merge
        (put (codes "prev") (text previous) (
          put (codes "pid") (other pid)
            (put (codes "event") (text event) (put (codes "at") (other at) []))))
        fields

  unfoldable pub append_record : File → Text → Dict (Value V) → Chain × File × Text
  append_record file previous body =
      let digest = line_hash py previous (py.dumps body) in
      let line = py.encode (py.dumps (put (codes "hash") (text digest) body)) in
      let after : File = record {
        path = file.path;
        dev = file.dev;
        ino = file.ino;
        lines = file.lines ++ (line ∷ []);
      } in
      (remembered digest (key_of after), after, digest)

  abbrev pub appended :
      (at pid : V) → Text → Dict (Value V) → File → Attempt Text → Attempt (Chain × File × Text)
  appended at pid event fields file os_error = os_error
  appended at pid event fields file unicode_error = unicode_error
  appended at pid event fields file (done previous) =
      done (append_record file previous (payload at pid event previous fields))

  -- `record`; `writable` says whether the file can be opened for writing.
  unfoldable pub record_event :
      Bool → (at pid : V) → Text → Dict (Value V) → Chain → File → Attempt (Chain × File × Text)
  unfolding tail append_record payload
  record_event false at pid event fields chain file = os_error
  record_event true at pid event fields chain file =
      appended at pid event fields file (tail chain file)

  abbrev pub required : Attempt (Chain × File × Text) → Attempt (Result (Chain × File))
  required (done (chain, file, digest)) = done (ok (chain, file))
  required os_error = done (err audit_log_failed)
  required unicode_error = unicode_error

  -- `require`
  unfoldable pub require :
      Bool → (at pid : V) → Text → Dict (Value V) → Chain → File → Attempt (Result (Chain × File))
  unfolding record_event
  require writable at pid event fields chain file =
      required (record_event writable at pid event fields chain file)

-- A call of `record` in one of the processes, or the forgetting of its cache.
pub data Step (V : Type 0) : Type 0 where
  records : (process : ℕ) (at pid : V) → Text → Dict (Value V) → Step V
  resets : (process : ℕ) → Step V

unfoldable pub set : ℕ → Chain → (ℕ → Chain) → ℕ → Chain
set p chain chains q = if q == p then chain else chains q

module _ {V : Type 0} (py : Python V) where
  -- The appends of all processes, in the order in which they hold the lock on the file.
  unfoldable pub run_all : (ℕ → Chain) → File → List (Step V) → Attempt File
  unfolding record_event set
  run_all chains file [] = done file
  run_all chains file (resets p ∷ steps) = run_all (set p forgotten chains) file steps
  run_all chains file (records p at pid event fields ∷ steps) =
      elim (record_event py true at pid event fields (chains p) file) [
        | done (chain, after, digest) ↦ run_all (set p chain chains) after steps
        | os_error ↦ os_error
        | unicode_error ↦ unicode_error
      ]
