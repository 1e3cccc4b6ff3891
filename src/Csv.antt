-- ===== src/Csv.antt =====
-- `parse_csv` of mcp/omarchy_hardware/ming.py, on the lines that Python's csv reader yields.
pub mod Tables
mod Tests
use omarchy_hardware.Common.{
  ℕ, leb, length, any, all, Bool, true, false, not, ◌&&◌, ◌||◌, Option, none, some, List, [], ◌∷◌,
  ◌++◌, if◌then◌else◌,
}
use omarchy_hardware.Common.Text.{Text, codes, text_eq, starts_with}
use omarchy_hardware.Common.Dict.{Dict, lookup, insert}

-- The character table of `str.strip`.
pub record Python : Type 0 where
  pub is_space : ℕ → Bool

-- `VALUE_TYPE`
abbrev pub value_type : Text
value_type = codes "#datatype"

-- The header of the table, the types of its columns, and the last line of types.
pub record Table : Type 0 where
  pub header : Option (List Text)
  pub types : Dict Text
  pub datatypes : List Text

abbrev pub no_table : Table
no_table = record { header = none; types = []; datatypes = [] }

unfoldable pub zip_into : Dict Text → List Text → List Text → Dict Text
unfolding insert
zip_into d [] cells = d
zip_into d (column ∷ columns) [] = d
zip_into d (column ∷ columns) (cell ∷ cells) = zip_into (insert column cell d) columns cells

-- `dict(zip(columns, cells))`
abbrev pub zipped : List Text → List Text → Dict Text
zipped columns cells = zip_into [] columns cells

-- No cell has anything but space.
unfoldable pub is_blank : Python → List Text → Bool
is_blank py line = not (any (λ cell. any (λ c. not (py.is_space c)) cell) line)

-- A text that is not empty.
abbrev pub is_given : Option Text → Bool
is_given none = false
is_given (some []) = false
is_given (some (c ∷ s)) = true

-- A column of a table of errors, or one without a name.
abbrev pub is_error_column : Text → Bool
is_error_column column =
    text_eq column [] || (text_eq column (codes "error") || text_eq column (codes "reference"))

-- The row tells that the query failed.
unfoldable pub tells_failure : List Text → Dict Text → Bool
unfolding lookup
tells_failure header row = all is_error_column header && is_given (lookup (codes "error") row)

-- The type of the value, kept in the row.
unfoldable pub with_type : Dict Text → Dict Text → Dict Text
unfolding lookup insert
with_type types row = elim (lookup (codes "_value") types) [
  | none ↦ row
  | some datatype ↦ insert value_type datatype row
]

-- What a line does: the table goes on, a row is found, or the query failed.
pub data Turn : Type 0 where
  goes_on : Table → Turn
  found : Dict Text → Turn
  failed : Turn

unfoldable pub header_or_row : Table → List Text → Turn
unfolding zip_into tells_failure with_type
header_or_row table line = elim table.header [
  | none ↦ Turn.goes_on (record table { header = some line; types = zipped line table.datatypes })
  | some header ↦
      if tells_failure header (zipped header line)
      then Turn.failed
      else Turn.found (with_type table.types (zipped header line))
]

-- A turn of the loop.
unfoldable pub take_line : Python → Table → List Text → Turn
unfolding is_blank header_or_row starts_with
take_line py table [] = Turn.goes_on no_table
take_line py table (cell ∷ cells) =
    if is_blank py (cell ∷ cells)
    then Turn.goes_on no_table
    else if text_eq cell value_type
    then Turn.goes_on (record table { datatypes = cell ∷ cells })
    else if starts_with cell (codes "#")
    then Turn.goes_on table
    else header_or_row table (cell ∷ cells)

pub data Reply : Type 0 where
  rows : List (Dict Text) → Reply
  unreadable query_failed : Reply

-- The loop, after some rows; a line that the reader raises on is `none`.
unfoldable pub parse_lines :
    Python → ℕ → List (Dict Text) → Table → List (Option (List Text)) → Reply
unfolding take_line
parse_lines py max_rows kept table [] = Reply.rows kept
parse_lines py max_rows kept table (none ∷ lines) = Reply.unreadable
parse_lines py max_rows kept table (some line ∷ lines) = elim (take_line py table line) [
  | goes_on next ↦ parse_lines py max_rows kept next lines
  | found row ↦
      let more = parse_lines py max_rows (kept ++ (row ∷ [])) table lines in
      if leb max_rows (length (kept ++ (row ∷ []))) then Reply.rows (kept ++ (row ∷ [])) else more
  | failed ↦ Reply.query_failed
]

-- `parse_csv`
unfoldable pub parse_csv : Python → ℕ → List (Option (List Text)) → Reply
unfolding parse_lines
parse_csv py max_rows lines = parse_lines py max_rows [] no_table lines
