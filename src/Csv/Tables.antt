-- ===== src/Csv/Tables.antt =====
-- The tables of a reply, written as lines, and what `parse_csv` reads back from them.
use mathlib.Core.List.{append_assoc, append-nil}
use omarchy_hardware.Common.{
  ℕ, suc, length-append, ◌+◌, ◌<◌, ◌≡◌, refl, ap, ◌∙◌, leb, length, all, Bool, true, false, not,
  ◌&&◌, Option, none, some, Option-cases, if◌then◌else◌, List, [], ◌∷◌, ◌++◌, arith, Bool-cases,
  inl, inr,
}
use omarchy_hardware.Common.Text.{Text, codes, text_eq, starts_with, text_eq_iff}
use omarchy_hardware.Common.Dict.{Dict, lookup, insert, lookup-insert}
use omarchy_hardware.Csv.{
  Python, value_type, no_table, zip_into, zipped, is_blank, tells_failure, with_type, Turn,
  header_or_row, take_line, Reply, parse_lines, parse_csv,
}
use omarchy_hardware.Csv

-- A table as it is written: the types and the names of its columns, and its lines. The cells of the
-- annotation are the ones after its name.
pub record Written : Type 0 where
  pub annotation : List Text
  pub columns : List Text
  pub cells : List (List Text)

unfoldable pub row_lines : List (List Text) → List (Option (List Text))
row_lines [] = []
row_lines (line ∷ lines) = some line ∷ row_lines lines

-- The annotation, the header, the rows and an empty line.
unfoldable pub table_lines : Written → List (Option (List Text))
unfolding row_lines
table_lines table =
    some (value_type ∷ table.annotation)
    ∷ some table.columns
    ∷ (row_lines table.cells ++ (some [] ∷ []))

unfoldable pub tables_lines : List Written → List (Option (List Text))
unfolding table_lines
tables_lines [] = []
tables_lines (table ∷ tables) = table_lines table ++ tables_lines tables

-- The cell under the last column of a name, where the line reaches it.
unfoldable pub cell_under : Text → List Text → List Text → Option Text
cell_under name [] cells = none
cell_under name (column ∷ columns) [] = none
cell_under name (column ∷ columns) (cell ∷ cells) = elim (cell_under name columns cells) [
  | some later ↦ some later
  | none ↦ if text_eq column name then some cell else none
]

-- What a row has under a name: the type that the annotation gives the column of values, under
-- `value_type`, if it gives one, and else the cell of the line.
unfoldable pub told_under : Written → List Text → Text → Option Text
unfolding cell_under
told_under table line name =
    if text_eq value_type name
    then elim (cell_under (codes "_value") table.columns (value_type ∷ table.annotation)) [
      | some datatype ↦ some datatype
      | none ↦ cell_under name table.columns line
    ]
    else cell_under name table.columns line

-- The lines of the tables, each with its table.
unfoldable pub lines_from : Written → List (List Text) → List (Written × List Text)
lines_from table [] = []
lines_from table (line ∷ lines) = (table, line) ∷ lines_from table lines

unfoldable pub lines_of : List Written → List (Written × List Text)
unfolding lines_from
lines_of [] = []
lines_of (table ∷ tables) = lines_from table table.cells ++ lines_of tables

-- A row for each line, which has under every name what the line and its table tell.
pub data Tell : List (Written × List Text) → List (Dict Text) → Type 0 where
  no_row : Tell [] []
  one_row :
      {table : Written} {line : List Text} {lines : List (Written × List Text)} {row : Dict Text}
      {rows : List (Dict Text)}
      → ((name : Text) → lookup name row ≡ told_under table line name)
      → Tell lines rows
      → Tell ((table, line) ∷ lines) (row ∷ rows)

lookup-zip_into :
    (name : Text) (d : Dict Text) (columns cells : List Text)
    → lookup name (zip_into d columns cells)
      ≡ elim (cell_under name columns cells) [ some cell ↦ some cell | none ↦ lookup name d ]
unfolding zip_into cell_under
lookup-zip_into name d [] cells = refl
lookup-zip_into name d (column ∷ columns) [] = refl
lookup-zip_into name d (column ∷ columns) (cell ∷ cells) =
    lookup-zip_into name (insert column cell d) columns cells
    ∙ elim (Option-cases (cell_under name columns cells)) [
      | inl e ↦ rw (e, lookup-insert column name cell d) (ground arith)
      | inr (later, e) ↦ rw e refl
    ]

lookup-zipped :
    (name : Text) (columns cells : List Text)
    → lookup name (zipped columns cells) ≡ cell_under name columns cells
unfolding lookup
lookup-zipped name columns cells =
    lookup-zip_into name [] columns cells ∙ elim (Option-cases (cell_under name columns cells)) [
      | inl e ↦ rw e refl
      | inr (cell, e) ↦ rw e refl
    ]

abbrev row_of : Written → List Text → Dict Text
row_of table line =
    with_type (zipped table.columns (value_type ∷ table.annotation)) (zipped table.columns line)

-- A row with the type of its value, if there is one.
lookup-typed :
    (given : Option Text) (row : Dict Text) (name : Text)
    → lookup name (elim given [ none ↦ row | some datatype ↦ insert value_type datatype row ]) ≡ (
        if text_eq value_type name
        then elim given [ some datatype ↦ some datatype | none ↦ lookup name row ]
        else lookup name row)
lookup-typed none row name = ground arith
lookup-typed (some datatype) row name = lookup-insert value_type name datatype row

-- The row that a line is read as has what the line and its table tell.
lookup-row_of :
    (table : Written) (line : List Text) (name : Text)
    → lookup name (row_of table line) ≡ told_under table line name
unfolding with_type told_under
lookup-row_of table line name =
    lookup-typed (lookup (codes "_value") (zipped table.columns (value_type ∷ table.annotation)))
      (zipped table.columns line) name
    ∙ ap
        (λ given.
          if text_eq value_type name
          then elim given [
            | some datatype ↦ some datatype
            | none ↦ lookup name (zipped table.columns line)
          ]
          else lookup name (zipped table.columns line))
        (lookup-zipped (codes "_value") table.columns (value_type ∷ table.annotation))
    ∙ ap
        (λ plain.
          if text_eq value_type name
          then elim (cell_under (codes "_value") table.columns (value_type ∷ table.annotation)) [
            | some datatype ↦ some datatype
            | none ↦ plain
          ]
          else plain)
        (lookup-zipped name table.columns line)

unfoldable rows_from : Written → List (List Text) → List (Dict Text)
rows_from table [] = []
rows_from table (line ∷ lines) = row_of table line ∷ rows_from table lines

-- The rows that the tables are read as.
unfoldable rows_of : List Written → List (Dict Text)
unfolding rows_from
rows_of [] = []
rows_of (table ∷ tables) = rows_from table table.cells ++ rows_of tables

rows_from-Tell :
    (table : Written) (lines : List (List Text)) (more : List (Written × List Text))
    (rows : List (Dict Text))
    → Tell more rows
    → Tell (lines_from table lines ++ more) (rows_from table lines ++ rows)
unfolding lines_from rows_from
rows_from-Tell table [] more rows h = h
rows_from-Tell table (line ∷ lines) more rows h =
    one_row (lookup-row_of table line) (rows_from-Tell table lines more rows h)

rows_of-Tell : (tables : List Written) → Tell (lines_of tables) (rows_of tables)
unfolding lines_of rows_of
rows_of-Tell [] = no_row
rows_of-Tell (table ∷ tables) =
    rows_from-Tell table table.cells (lines_of tables) (rows_of tables) (rows_of-Tell tables)

length-Tell :
    {lines : List (Written × List Text)} {rows : List (Dict Text)}
    → Tell lines rows
    → length rows ≡ length lines
length-Tell no_row = refl
length-Tell (one_row told more) = ap suc (length-Tell more)

-- A line that is neither blank nor an annotation.
unfoldable pub is_plain : Python → List Text → Bool
unfolding is_blank starts_with
is_plain py [] = false
is_plain py (cell ∷ cells) = not (is_blank py (cell ∷ cells)) && not (starts_with cell (codes "#"))

-- A row that does not tell of a failure.
abbrev pub is_data : Python → List Text → List Text → Bool
is_data py columns line = is_plain py line && not (tells_failure columns (zipped columns line))

abbrev pub is_table : Python → Written → Bool
is_table py table = is_plain py table.columns && all (is_data py table.columns) table.cells

take_line-plain :
    (py : Python) (state : Csv.Table) (line : List Text)
    → is_plain py line ≡ true
    → take_line py state line ≡ header_or_row state line
unfolding take_line is_plain
take_line-plain py state [] h = cc
take_line-plain py state (cell ∷ cells) h = elim (Bool-cases (text_eq cell value_type)) [
  | inl e ↦
      let same : cell ≡ value_type = (text_eq_iff cell value_type).0 e in
      let starts : starts_with cell (codes "#") ≡ true = unfold starts_with in rw same refl in
      grind (arith, starts)
  | inr e ↦ grind arith
]

-- The table as it is once its header is read.
abbrev opened : Written → Csv.Table
opened table = record {
  header = some table.columns;
  types = zipped table.columns (value_type ∷ table.annotation);
  datatypes = value_type ∷ table.annotation;
}

take_line-data :
    (py : Python) (table : Written) (line : List Text)
    → is_data py table.columns line ≡ true
    → take_line py (opened table) line ≡ Turn.found (row_of table line)
unfolding header_or_row
take_line-data py table line h = take_line-plain py (opened table) line (grind arith) ∙ grind arith

parse_lines-goes_on :
    (py : Python) (n : ℕ) (kept : List (Dict Text)) (state next : Csv.Table) (line : List Text)
    (more : List (Option (List Text)))
    → take_line py state line ≡ Turn.goes_on next
    → parse_lines py n kept state (some line ∷ more) ≡ parse_lines py n kept next more
unfolding parse_lines
parse_lines-goes_on py n kept state next line more h = grind arith

parse_lines-found :
    (py : Python) (n : ℕ) (kept : List (Dict Text)) (state : Csv.Table) (line : List Text)
    (row : Dict Text) (more : List (Option (List Text)))
    → take_line py state line ≡ Turn.found row
    → length (kept ++ (row ∷ [])) < n
    → parse_lines py n kept state (some line ∷ more)
      ≡ parse_lines py n (kept ++ (row ∷ [])) state more
unfolding parse_lines
parse_lines-found py n kept state line row more h b =
    let over : leb n (length (kept ++ (row ∷ []))) ≡ false = ground arith in grind arith

parse_lines-rows :
    (py : Python) (n : ℕ) (kept : List (Dict Text)) (table : Written) (lines : List (List Text))
    (more : List (Option (List Text)))
    → all (is_data py table.columns) lines ≡ true
    → length kept + length lines < n
    → parse_lines py n kept (opened table) (row_lines lines ++ more)
      ≡ parse_lines py n (kept ++ rows_from table lines) (opened table) more
unfolding parse_lines row_lines rows_from
parse_lines-rows py n kept table [] more h b = rw (append-nil kept) refl
parse_lines-rows py n kept table (line ∷ lines) more h b =
    let row = row_of table line in
    let later : length (kept ++ (row ∷ [])) + length lines < n =
      omega (arith, length-append kept (row ∷ [])) in
    parse_lines-found py n kept (opened table) line row (row_lines lines ++ more)
      (take_line-data py table line (grind arith)) (grind arith)
    ∙ (parse_lines-rows py n (kept ++ (row ∷ [])) table lines more (grind arith) later
        ∙ ap (λ rows. parse_lines py n rows (opened table) more)
            (append_assoc kept (row ∷ []) (rows_from table lines)))

take_line-annotation :
    (py : Python) (state : Csv.Table) (cells : List Text)
    → py.is_space b'#' ≡ false
    → take_line py state (value_type ∷ cells)
      ≡ Turn.goes_on (record state { datatypes = value_type ∷ cells })
unfolding take_line is_blank text_eq
take_line-annotation py state cells h = rw h refl

take_line-header :
    (py : Python) (table : Written)
    → is_plain py table.columns ≡ true
    → take_line py (record no_table { datatypes = value_type ∷ table.annotation }) table.columns
      ≡ Turn.goes_on (opened table)
unfolding header_or_row
take_line-header py table h = take_line-plain py _ table.columns h

take_line-empty : (py : Python) (state : Csv.Table) → take_line py state [] ≡ Turn.goes_on no_table
unfolding take_line
take_line-empty py state = refl

length-rows_from :
    (table : Written) (lines : List (List Text)) → length (rows_from table lines) ≡ length lines
unfolding rows_from
length-rows_from table [] = refl
length-rows_from table (line ∷ lines) = omega (arith, length-rows_from table lines)

parse_lines-table :
    (py : Python) (n : ℕ) (kept : List (Dict Text)) (table : Written)
    (more : List (Option (List Text)))
    → py.is_space b'#' ≡ false
    → is_table py table ≡ true
    → length kept + length table.cells < n
    → parse_lines py n kept no_table (table_lines table ++ more)
      ≡ parse_lines py n (kept ++ rows_from table table.cells) no_table more
unfolding table_lines
parse_lines-table py n kept table more hash good b =
    let after = row_lines table.cells ++ (some [] ∷ []) in
    let annotated = record no_table { datatypes = value_type ∷ table.annotation } in
    parse_lines-goes_on py n kept no_table annotated (value_type ∷ table.annotation)
      (some table.columns ∷ (after ++ more))
      (take_line-annotation py no_table table.annotation hash)
    ∙ (parse_lines-goes_on py n kept annotated (opened table) table.columns (after ++ more)
          (take_line-header py table (grind arith))
        ∙ (ap (parse_lines py n kept (opened table))
              (append_assoc (row_lines table.cells) (some [] ∷ []) more)
            ∙ (parse_lines-rows py n kept table table.cells (some [] ∷ more) (grind arith) b
                ∙ parse_lines-goes_on py n (kept ++ rows_from table table.cells) (opened table)
                    no_table [] more (take_line-empty py (opened table)))))

parse_lines-tables :
    (py : Python) (n : ℕ) (kept : List (Dict Text)) (tables : List Written)
    → py.is_space b'#' ≡ false
    → all (is_table py) tables ≡ true
    → length kept + length (rows_of tables) < n
    → parse_lines py n kept no_table (tables_lines tables) ≡ Reply.rows (kept ++ rows_of tables)
unfolding parse_lines tables_lines rows_of
parse_lines-tables py n kept [] hash good b = rw (append-nil kept) refl
parse_lines-tables py n kept (table ∷ tables) hash good b =
    let rows = rows_from table table.cells in
    let sizes : length (rows ++ rows_of tables) ≡ length rows + length (rows_of tables) =
      length-append rows (rows_of tables) in
    let now : length kept + length table.cells < n =
      omega (arith, length-rows_from table table.cells) in
    let next : length (kept ++ rows) + length (rows_of tables) < n =
      omega (arith, length-append kept rows) in
    parse_lines-table py n kept table (tables_lines tables) hash (grind arith) now
    ∙ (parse_lines-tables py n (kept ++ rows) tables hash (grind arith) next
        ∙ ap Reply.rows (append_assoc kept rows (rows_of tables)))

-- If a number sign is no space, tables of a reply that are written as lines, with their
-- annotation, their header, their rows and an empty line, are read by parse_csv as one row for
-- each line, in their order, provided they have fewer lines than the limit, no header or line
-- is blank or begins with a number sign, and no line tells of a failure. Under every name a
-- row has the cell of its line in the last column of that name, if the line reaches it, but
-- under #datatype the type that the annotation gives the last column _value, if it gives one.
pub parse_csv-reads :
    (py : Python) (n : ℕ) (tables : List Written)
    → py.is_space b'#' ≡ false
    → all (is_table py) tables ≡ true
    → length (lines_of tables) < n
    → (rows : List (Dict Text)) × (parse_csv py n (tables_lines tables) ≡ Reply.rows rows)
      × Tell (lines_of tables) rows
unfolding parse_csv
parse_csv-reads py n tables hash good b =
    let told = rows_of-Tell tables in
    (
      rows_of tables,
      parse_lines-tables py n [] tables hash good (omega (arith, b, length-Tell told)),
      told,
    )
