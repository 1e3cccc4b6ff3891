-- ===== src/Line.antt =====
-- The line protocol of mcp/omarchy_hardware/ming.py: `_lp`, `_field_value` and `build_line`.
pub mod Head
pub mod Reads
mod Tests
use omarchy_hardware.Common.{
  ℕ, suc, ◌^◌, leb, ltb, length, any, Bool, true, false, not, ◌&&◌, ◌||◌, ◌==◌, Option, none, some,
  List, [], ◌∷◌, ◌++◌, if◌then◌else◌,
}
use omarchy_hardware.Common.Text.{Text, codes, starts_with}
use omarchy_hardware.Errors.{Result, ok, err, invalid_argument, ◌>>=◌, ◌>>◌}
use omarchy_hardware.Flux.Literal.{replace_char}
use omarchy_hardware.Flux.Query.{Python, accept, short_text, joined}
use omarchy_hardware.Settings.Urls.{decimal}

-- The loop over the special characters.
unfoldable pub escape_each : List ℕ → Text → Text
unfolding replace_char
escape_each [] s = s
escape_each (c ∷ cs) s = escape_each cs (replace_char c (b'\\' ∷ c ∷ []) s)

-- The text with its backslashes and special characters escaped.
unfoldable pub escape : List ℕ → Text → Text
unfolding escape_each
escape special value = escape_each special (replace_char b'\\' (b'\\' ∷ b'\\' ∷ []) value)

-- `_lp`
unfoldable pub lp : Python → List ℕ → Text → Result Text
unfolding escape
lp py special value = do v ← short_text py value; ok (escape special v)

-- A value of a field: a Boolean, an integer by its sign and its size, a float by its `repr` if it is
-- finite, a string, and a value of another type.
pub data Value : Type 0 where
  flag : Bool → Value
  whole : (negative : Bool) → ℕ → Value
  float : Option Text → Value
  text : Text → Value
  another : Value

abbrev breaks_line : ℕ → Bool
breaks_line c = c == 10 || (c == 13 || c == 0)

-- `_field_value`
unfoldable pub field_value : Value → Result Text
field_value (flag true) = ok (codes "true")
field_value (flag false) = ok (codes "false")
field_value (whole false n) =
    if ltb n (2 ^ 63) then ok (decimal n ++ codes "i") else err invalid_argument
field_value (whole true n) =
    if leb n (2 ^ 63) then ok (b'-' ∷ (decimal n ++ codes "i")) else err invalid_argument
field_value (float none) = err invalid_argument
field_value (float (some shown)) = ok shown
field_value (text s) =
    if any breaks_line s
    then err invalid_argument
    else ok (
        b'"'
        ∷ (replace_char b'"' (b'\\' ∷ b'"' ∷ []) (replace_char b'\\' (b'\\' ∷ b'\\' ∷ []) s)
            ++ codes "\""))
field_value another = err invalid_argument

abbrev pub max_tags : ℕ
max_tags = 16

abbrev pub max_fields : ℕ
max_fields = 32

abbrev pub in_name : List ℕ
in_name = codes ", "

abbrev pub in_key : List ℕ
in_key = codes ",= "

-- The tags, sorted by their keys, each after a comma.
unfoldable pub tag_parts : Python → List (Text × Text) → Result Text
unfolding lp
tag_parts py [] = ok []
tag_parts py ((key, value) ∷ tags) = do
  accept (not (starts_with key (codes "_")))
  k ← lp py in_key key
  v ← lp py in_key value
  rest ← tag_parts py tags
  ok (b',' ∷ (k ++ (b'=' ∷ (v ++ rest))))

-- The fields, sorted by their keys.
unfoldable pub field_parts : Python → List (Text × Value) → Result (List Text)
unfolding lp field_value
field_parts py [] = ok []
field_parts py ((key, value) ∷ fields) = do
  accept (not (starts_with key (codes "_")))
  k ← lp py in_key key
  v ← field_value value
  rest ← field_parts py fields
  ok ((k ++ (b'=' ∷ v)) ∷ rest)

-- The timestamp: none, seconds, or what is refused.
pub data Stamp : Type 0 where
  no_stamp bad_stamp : Stamp
  stamp : ℕ → Stamp

unfoldable pub stamp_part : Stamp → Result Text
stamp_part no_stamp = ok []
stamp_part bad_stamp = err invalid_argument
stamp_part (stamp n) = ok (b' ' ∷ decimal n)

pub record Point : Type 0 where
  pub measurement : Text
  pub fields : List (Text × Value)
  pub tags : List (Text × Text)
  pub timestamp : Stamp

-- `build_line`, before its text is encoded.
unfoldable pub build_line : Python → Point → Result Text
unfolding lp tag_parts field_parts stamp_part
build_line py point = do
  accept (not (starts_with point.measurement (codes "_")))
  accept (not (starts_with point.measurement (codes "#")))
  accept (leb 1 (length point.fields) && leb (length point.fields) max_fields)
  accept (leb (length point.tags) max_tags)
  name ← lp py in_name point.measurement
  tags ← tag_parts py point.tags
  fields ← field_parts py point.fields
  time ← stamp_part point.timestamp
  ok (name ++ (tags ++ (b' ' ∷ (joined (codes ",") fields ++ time))))
