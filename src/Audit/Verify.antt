-- ===== src/Audit/Verify.antt =====
-- `verify` and `_read_head` of mcp/omarchy_hardware/audit.py, on the lines of the log.
use omarchy_hardware.Common.{
  ℕ, ◌+◌, Bool, false, ◌&&◌, Option, none, some, List, [], ◌∷◌, ◌++◌, if◌then◌else◌,
}
use omarchy_hardware.Common.Text.{Text, codes, text_eq, split}
use omarchy_hardware.Common.Dict.{Dict, lookup, remove}
use omarchy_hardware.Common.Unicode.{strip}
use omarchy_hardware.Audit.Json.{Value, text, other, Loaded, object, no_object, no_json, Python}

-- `"0" * 64`
abbrev pub genesis : Text
genesis = codes "0000000000000000000000000000000000000000000000000000000000000000"

pub data Reason : Type 0 where
  not_utf8 not_chained not_following : Reason

pub data Verdict : Type 0 where
  intact : (records : ℕ) → Verdict
  broken : (records line : ℕ) → Reason → Verdict

-- What one line comes to: nothing but spaces, a record with its hash, or a break.
pub data Checked : Type 0 where
  blank : Checked
  follows : Text → Checked
  breaks : Reason → Checked

-- `isinstance(digest, str)`, and `None` for a key that is not there.
unfoldable pub text_of : {V : Type 0} → Option (Value V) → Option Text
text_of (some (text s)) = some s
text_of (some (other v)) = none
text_of none = none

unfoldable pub is_text : {V : Type 0} → Option (Value V) → Text → Bool
is_text (some (text s)) t = text_eq s t
is_text (some (other v)) t = false
is_text none t = false

module _ {V : Type 0} (py : Python V) where
  unfoldable pub line_hash : Text → Text → Text
  line_hash previous body = py.sha256 (previous ++ (10 ∷ body))

  unfoldable pub check_record : Text → Dict (Value V) → Option Text → Checked
  unfolding line_hash is_text
  check_record previous record_fields none = breaks not_chained
  check_record previous record_fields (some digest) =
      if is_text (lookup (codes "prev") record_fields) previous
        && text_eq (line_hash previous (py.dumps record_fields)) digest
      then follows digest
      else breaks not_following

  unfoldable pub check_loaded : Text → Loaded V → Checked
  unfolding check_record text_of
  check_loaded previous (object d) =
      check_record previous (remove (codes "hash") d) (text_of (lookup (codes "hash") d))
  check_loaded previous no_object = breaks not_chained
  check_loaded previous no_json = breaks not_chained

  unfoldable pub check_text : Text → Text → Checked
  unfolding check_loaded
  check_text previous stripped =
      if text_eq stripped [] then blank else check_loaded previous (py.loads stripped)

  unfoldable pub check_decoded : Text → Option Text → Checked
  unfolding check_text
  check_decoded previous none = breaks not_utf8
  check_decoded previous (some raw) = check_text previous (strip py.unicode raw)

  unfoldable pub check_line : Text → List ℕ → Checked
  unfolding check_decoded
  check_line previous raw = check_decoded previous (py.decode raw)

  unfoldable pub verify_from : Text → (count number : ℕ) → List (List ℕ) → Verdict
  unfolding check_line
  verify_from previous count number [] = intact count
  verify_from previous count number (raw ∷ lines) = elim (check_line previous raw) [
    | blank ↦ verify_from previous count (number + 1) lines
    | follows digest ↦ verify_from digest (count + 1) (number + 1) lines
    | breaks reason ↦ broken count number reason
  ]

  -- `none` for a log that is not there.
  unfoldable pub verify : Option (List (List ℕ)) → Verdict
  unfolding verify_from
  verify none = intact 0
  verify (some lines) = verify_from genesis 0 1 lines

  -- `json.loads(stripped)["hash"]`, or the head so far.
  unfoldable pub hash_or : Value V → Loaded V → Value V
  hash_or head (object d) = elim (lookup (codes "hash") d) [ none ↦ head | some v ↦ v ]
  hash_or head no_object = head
  hash_or head no_json = head

  unfoldable pub head_after : Value V → List Text → Value V
  unfolding hash_or
  head_after head [] = head
  head_after head (raw ∷ lines) =
      let stripped = strip py.unicode raw in
      head_after (if text_eq stripped [] then head else hash_or head (py.loads stripped)) lines

  -- The loop reads a text: a carriage return ends a line, and bytes that are not UTF-8 raise.
  unfoldable pub head_of_lines : Value V → List (List ℕ) → Option (Value V)
  unfolding head_after
  head_of_lines head [] = some head
  head_of_lines head (raw ∷ lines) = elim (py.decode raw) [
    | none ↦ none
    | some s ↦ head_of_lines (head_after head (split 13 s)) lines
  ]

  unfoldable pub text_or_genesis : Value V → Text
  text_or_genesis (text s) = s
  text_or_genesis (other v) = genesis

  -- `_read_head`: `none` is a `UnicodeDecodeError`.
  unfoldable pub read_head : Option (List (List ℕ)) → Option Text
  unfolding head_of_lines text_or_genesis
  read_head none = some genesis
  read_head (some lines) = elim (head_of_lines (text genesis) lines) [
    | none ↦ none
    | some head ↦ some (text_or_genesis head)
  ]
