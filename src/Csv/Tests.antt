-- ===== src/Csv/Tests.antt =====
-- Replies that are parsed, and the theorem about written tables.
use omarchy_hardware.Common.{
  ◌≡◌, refl, ◌==◌, all, not, ◌&&◌, Option, some, none, true, List, [], ◌∷◌, arith,
}
use omarchy_hardware.Common.Text.{Text, codes, text_eq, starts_with}
use omarchy_hardware.Common.Dict.{Dict, lookup, insert}
use omarchy_hardware.Csv.{
  Python, zip_into, is_blank, tells_failure, with_type, header_or_row, take_line, Reply,
  parse_lines, parse_csv,
}
use omarchy_hardware.Csv.Tables.{
  Written, tables_lines, lines_from, lines_of, Tell, is_plain, parse_csv-reads,
}

abbrev python : Python
python = record { is_space = λ c. c == b' ' }

abbrev rooms : Written
rooms = record {
  annotation = codes "double" ∷ codes "string" ∷ [];
  columns = [] ∷ codes "_value" ∷ codes "room" ∷ [];
  cells = ([] ∷ codes "21" ∷ codes "hall" ∷ []) ∷ ([] ∷ codes "19" ∷ codes "attic" ∷ []) ∷ [];
}

abbrev failure : List (Option (List Text))
failure =
    some (codes "error" ∷ codes "reference" ∷ []) ∷ some (codes "no such bucket" ∷ [] ∷ []) ∷ []

told : parse_csv python 5 failure ≡ Reply.query_failed
unfolding parse_csv parse_lines take_line header_or_row is_blank tells_failure zip_into insert
    lookup text_eq starts_with
told = refl

stopped :
    parse_csv python 1 (some (codes "a" ∷ []) ∷ some (codes "1" ∷ []) ∷ none ∷ [])
    ≡ Reply.rows (((codes "a", codes "1") ∷ []) ∷ [])
unfolding parse_csv parse_lines take_line header_or_row is_blank tells_failure with_type zip_into
    insert lookup text_eq starts_with
stopped = refl

rooms_good :
    all
      (λ table.
        is_plain python table.columns
        && all
            (λ line.
              is_plain python line
              && not (tells_failure table.columns (zip_into [] table.columns line)))
            table.cells)
      (rooms ∷ [])
    ≡ true
unfolding is_plain is_blank tells_failure zip_into insert lookup text_eq starts_with
rooms_good = refl

parse_csv-reads_example :
    (rows : List (Dict Text)) × (parse_csv python 3 (tables_lines (rooms ∷ [])) ≡ Reply.rows rows)
    × Tell (lines_of (rooms ∷ [])) rows
unfolding lines_of lines_from
parse_csv-reads_example = parse_csv-reads python 3 (rooms ∷ []) refl rooms_good (omega arith)
