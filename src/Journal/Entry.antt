-- ===== src/Journal/Entry.antt =====
-- The keys, the labels and the entries of mcp/omarchy_hardware/journal.py.
use omarchy_hardware.Common.{
  ℕ, ◌-◌, ◌==◌, leb, length, take, drop, all, reverse, Bool, true, false, ◌&&◌, ◌||◌, Option, none,
  some, List, [], ◌∷◌, ◌++◌, if◌then◌else◌,
}
use omarchy_hardware.Common.Text.{Text, codes, text_eq, split}
use omarchy_hardware.Common.Unicode.{Unicode, lstrip, strip}
use omarchy_hardware.Errors.{Result, ok, err, invalid_argument}

-- A board, as the server lists it: a field may be absent.
pub record Board : Type 0 where
  pub serial : Option Text
  pub vid : Option Text
  pub pid : Option Text

pub record Upload : Type 0 where
  pub at : Text
  pub fqbn : Text
  pub sketch_dir : Text
  pub sketch : Text
  pub artifact_digest : Text

pub record Entry : Type 0 where
  pub vid : Text
  pub pid : Text
  pub label : Option Text
  pub first_recorded : Text
  pub uploads : List Upload

-- What the journal uses of Python: the character tables, the hexadecimal SHA-256 of a text, and how
-- many bytes `json.dump` writes of an entry.
pub record Python : Type 0 where
  pub unicode : Unicode
  pub sha256 : Text → Text
  pub dumped_bytes : Entry → ℕ

-- `field or ""`
abbrev pub or_empty : Option Text → Text
or_empty none = []
or_empty (some s) = s

abbrev pub is_none : Text → Bool
is_none [] = true
is_none (c ∷ s) = false

-- `(vid, pid, serial.upper()) in SHARED_SERIALS`
unfoldable pub is_shared : Text → Text → Text → Bool
is_shared vid pid serial =
    text_eq vid (codes "2e8a")
    && (text_eq pid (codes "0003") && text_eq serial (codes "E0C9125B0D9B"))

unfoldable pub key_from : Python → Text → Text → Text → Option Text
unfolding is_shared
key_from py serial vid pid =
    if is_none serial
      || (is_none vid || (is_none pid || is_shared vid pid (py.unicode.upper serial)))
    then none
    else some (take 32 (py.sha256 (vid ++ (b':' ∷ (pid ++ (b':' ∷ serial))))))

unfoldable pub board_key : Python → Board → Option Text
unfolding key_from
board_key py board =
    key_from py (strip py.unicode (or_empty board.serial)) (py.unicode.lower (or_empty board.vid))
      (py.unicode.lower (or_empty board.pid))

-- `[A-Za-z0-9]`, and `[A-Za-z0-9 ._-]`
unfoldable pub is_alnum : ℕ → Bool
is_alnum c =
    (leb b'A' c && leb c b'Z') || ((leb b'a' c && leb c b'z') || (leb b'0' c && leb c b'9'))

unfoldable pub is_label_char : ℕ → Bool
unfolding is_alnum
is_label_char c = is_alnum c || (c == b' ' || (c == b'.' || (c == b'_' || c == b'-')))

-- `LABEL_PATTERN.fullmatch`
unfoldable pub label_pattern : Text → Bool
unfolding is_label_char
label_pattern [] = false
label_pattern (c ∷ s) = is_alnum c && (leb (length s) 39 && all is_label_char s)

unfoldable pub checked_label : Text → Result (Option Text)
unfolding label_pattern
checked_label [] = ok none
checked_label (c ∷ s) = if label_pattern (c ∷ s) then ok (some (c ∷ s)) else err invalid_argument

unfoldable pub check_label : Python → Option Text → Result (Option Text)
unfolding checked_label
check_label py text = checked_label (strip py.unicode (or_empty text))

unfoldable pub empty_entry : Python → Board → Text → Entry
empty_entry py board now = record {
  vid = py.unicode.lower (or_empty board.vid);
  pid = py.unicode.lower (or_empty board.pid);
  label = none;
  first_recorded = now;
  uploads = [];
}

abbrev pub max_uploads : ℕ
max_uploads = 20

-- `del xs[:-n]`: the last n stay.
unfoldable pub keep_last {ℓ} : {A : Type ℓ} → ℕ → List A → List A
keep_last n xs = drop (length xs - n) xs

-- What follows the last slash.
unfoldable pub last_piece : List Text → Text
last_piece [] = []
last_piece (p ∷ []) = p
last_piece (p ∷ q ∷ ps) = last_piece (q ∷ ps)

-- `os.path.basename(path.rstrip("/"))`
unfoldable pub base_name : Text → Text
unfolding last_piece
base_name path = last_piece (split b'/' (reverse (lstrip (λ c. c == b'/') (reverse path))))

unfoldable pub new_upload : (now fqbn sketch_dir artifact_digest : Text) → Upload
unfolding base_name
new_upload now fqbn sketch_dir artifact_digest = record {
  at = now;
  fqbn = fqbn;
  sketch_dir = sketch_dir;
  sketch = base_name sketch_dir;
  artifact_digest = artifact_digest;
}

unfoldable pub with_upload : Upload → Entry → Entry
unfolding keep_last
with_upload upload e = record {
  vid = e.vid;
  pid = e.pid;
  label = e.label;
  first_recorded = e.first_recorded;
  uploads = keep_last max_uploads (e.uploads ++ (upload ∷ []));
}

unfoldable pub with_label : Option Text → Entry → Entry
with_label new_label e = record {
  vid = e.vid;
  pid = e.pid;
  label = new_label;
  first_recorded = e.first_recorded;
  uploads = e.uploads;
}
