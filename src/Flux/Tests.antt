-- ===== src/Flux/Tests.antt =====
-- Queries that are built, and the theorem about literals.
use omarchy_hardware.Common.{◌≡◌, refl, none, ◌==◌, leb, ◌&&◌, some, [], ◌∷◌, ◌++◌, if◌then◌else◌}
use omarchy_hardware.Common.Text.{Text, codes, text_eq, contains}
use omarchy_hardware.Errors.{Result, ok, err, invalid_argument}
use omarchy_hardware.Flux.Literal.{replace_char, escape_dollar, escaped, flux_string}
use omarchy_hardware.Flux.Reads.{read_literal, flux_string-reads}
use omarchy_hardware.Flux.Outside.{outside}
use omarchy_hardware.Flux.Structure.{build_query-outside}
use omarchy_hardware.Flux.Schema.{measurements_text, build_schema_query}
use omarchy_hardware.Flux.Query.{
  Python, short_text, is_over, next_place, duration_from, is_duration, matches_shape, at_end,
  is_zone, is_fraction, after_seconds, is_timestamp, minus_duration, flux_time, tag_predicates,
  field_predicate, joined, window_lines, Query, build_query,
}

abbrev python : Python
python = record {
  is_digit = λ c. leb b'0' c && leb c b'9';
  is_printable = λ c. leb b' ' c;
  decimal = λ n. if n == 11 then codes "11" else codes "?";
}

escapes : flux_string (codes "a\\\"${b}") ≡ codes "\"a\\\\\\\"\\${b}\""
unfolding flux_string escaped escape_dollar replace_char
escapes = refl

flux_string-reads_example :
    read_literal (flux_string (codes "a\\\"${b}") ++ codes ") |> to()")
    ≡ some (codes "a\\\"${b}", codes ") |> to()")
flux_string-reads_example = flux_string-reads (codes "a\\\"${b}") (codes ") |> to()")

times :
    (flux_time python (codes "-1h30m") ≡ ok (codes "-1h30m"))
    × (flux_time python (codes "-1x") ≡ err invalid_argument)
    × (flux_time python (codes "2026-09-18T10:00:00.5Z")
        ≡ ok (codes "time(v: \"2026-09-18T10:00:00.5Z\")"))
    × (flux_time python (codes "2026-09-18 10:00:00Z") ≡ err invalid_argument)
unfolding flux_time minus_duration is_duration duration_from is_over next_place is_timestamp
    matches_shape after_seconds is_fraction is_zone at_end flux_string escaped escape_dollar
    replace_char text_eq contains
times = (refl, refl, refl, refl)

abbrev query : Query
query = record {
  bucket = codes "lab";
  measurement = codes "temp";
  field = some (codes "value");
  tags = (codes "room", codes "a\"b") ∷ [];
  start = codes "-1h";
  stop = codes "now";
  aggregate = some (codes "mean");
  every = some (codes "1m");
  limit = 10;
}

abbrev query_text : Text
query_text =
    codes
      "from(bucket: \"lab\")\n  |> range(start: -1h, stop: now())\n  |> filter(fn: (r) => r._measurement == \"temp\" and r._field == \"value\" and r[\"room\"] == \"a\\\"b\")\n  |> aggregateWindow(every: 1m, fn: mean, createEmpty: false)\n  |> limit(n: 11)"

-- The same query of other values, which try to leave their literals.
abbrev hostile : Query
hostile = record {
  bucket = codes "lab\") |> drop() //";
  measurement = codes "${x}";
  field = some (codes "v\\");
  tags = (codes "\"", codes "\" or true") ∷ [];
  start = codes "-1h";
  stop = codes "now";
  aggregate = some (codes "mean");
  every = some (codes "1m");
  limit = 10;
}

abbrev value_of : Result Text → Text
value_of (ok s) = s
value_of (err code) = []

abbrev hostile_text : Text
hostile_text = value_of (build_query python hostile)

built : (build_query python query ≡ ok query_text) × (build_query python hostile ≡ ok hostile_text)
unfolding build_query short_text field_predicate tag_predicates window_lines joined flux_time
    minus_duration is_duration duration_from is_over next_place flux_string escaped escape_dollar
    replace_char text_eq contains
built = (refl, refl)

build_query-outside_example : outside query_text ≡ outside hostile_text
build_query-outside_example =
    build_query-outside python refl query hostile query_text hostile_text refl refl refl refl refl
      refl refl refl built.0 built.1

listed :
    build_schema_query python (codes "a\"") none (codes "now")
    ≡ ok (
        codes
          "import \"influxdata/influxdb/schema\"\nschema.measurements(bucket: \"a\\\"\", start: now())")
unfolding build_schema_query measurements_text flux_time flux_string escaped escape_dollar
    replace_char text_eq
listed = refl
