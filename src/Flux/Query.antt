-- ===== src/Flux/Query.antt =====
-- `_text`, `flux_time` and `build_query` of mcp/omarchy_hardware/ming.py.
use omarchy_hardware.Common.{
  ℕ, zero, suc, ◌+◌, ◌==◌, leb, length, all, Bool, true, false, ◌&&◌, ◌||◌, Option, none, some,
  List, [], ◌∷◌, ◌++◌, if◌then◌else◌,
}
use omarchy_hardware.Common.Text.{Text, codes, text_eq, contains}
use omarchy_hardware.Errors.{Result, ok, err, invalid_argument, ◌>>=◌, ◌>>◌}
use omarchy_hardware.Flux.Literal.{flux_string}

-- What a query is built with: the character tables, and the decimal digits of a number.
pub record Python : Type 0 where
  pub is_digit : ℕ → Bool
  pub is_printable : ℕ → Bool
  pub decimal : ℕ → Text

abbrev pub accept : Bool → Result (Unit {0})
accept true = ok tt
accept false = err invalid_argument

abbrev pub identifier_limit : ℕ
identifier_limit = 128

-- `_text`
unfoldable pub short_text : Python → Text → Result Text
short_text py value = do
  accept (leb 1 (length value) && leb (length value) identifier_limit)
  accept (all py.is_printable value)
  ok value

abbrev pub units : List Text
units =
    codes "ns"
    ∷ codes "us"
    ∷ codes "ms"
    ∷ codes "mo"
    ∷ codes "s"
    ∷ codes "m"
    ∷ codes "h"
    ∷ codes "d"
    ∷ codes "w"
    ∷ codes "y"
    ∷ []

-- Where a match of DURATION stands: before a number, in one, in a unit, or nowhere.
pub data Place : Type 0 where
  before_number in_number nowhere : Place
  in_unit : Text → Place

unfoldable pub is_over : Place → Bool
is_over (in_unit u) = contains units u
is_over _ = false

unfoldable pub next_place : Bool → ℕ → Place → Place
next_place digit c before_number = if digit then in_number else nowhere
next_place digit c in_number = if digit then in_number else in_unit (c ∷ [])
next_place digit c (in_unit u) =
    if digit then (if contains units u then in_number else nowhere) else in_unit (u ++ (c ∷ []))
next_place digit c nowhere = nowhere

-- `(?:\d+(?:ns|us|ms|mo|s|m|h|d|w|y))+$`: a unit ends where a digit or the end follows, and `$` holds
-- before a line feed at the end too.
unfoldable pub duration_from : Python → Place → Text → Bool
unfolding is_over next_place
duration_from py place [] = is_over place
duration_from py place (c ∷ s) =
    let rest = duration_from py (next_place (py.is_digit c) c place) s in
    rest || (is_over place && text_eq (c ∷ s) (10 ∷ []))

unfoldable pub is_duration : Python → Text → Bool
unfolding duration_from
is_duration py s = duration_from py before_number s

-- A pattern of digits, written `0`, and of other characters that stand for themselves.
unfoldable pub matches_shape : Python → Text → Text → Option Text
matches_shape py [] s = some s
matches_shape py (p ∷ ps) [] = none
matches_shape py (p ∷ ps) (c ∷ s) =
    let rest = matches_shape py ps s in
    if (if p == b'0' then py.is_digit c else c == p) then rest else none

-- `$`
unfoldable pub at_end : Option Text → Bool
at_end none = false
at_end (some s) = text_eq s [] || text_eq s (10 ∷ [])

-- `(?:Z|[+-]\d{2}:\d{2})$`
unfoldable pub is_zone : Python → Text → Bool
unfolding matches_shape at_end
is_zone py [] = false
is_zone py (c ∷ s) =
    (c == b'Z' && at_end (some s))
    || ((c == b'+' || c == b'-') && at_end (matches_shape py (codes "00:00") s))

-- `\d{0,n}` and the zone.
unfoldable pub is_fraction : Python → ℕ → Text → Bool
unfolding is_zone
is_fraction py zero s = is_zone py s
is_fraction py (suc n) [] = false
is_fraction py (suc n) (c ∷ s) =
    let rest = is_fraction py n s in if py.is_digit c then rest else is_zone py (c ∷ s)

unfoldable pub after_seconds : Python → Option Text → Bool
unfolding is_fraction
after_seconds py (some (c ∷ d ∷ s)) =
    if c == b'.' then py.is_digit d && is_fraction py 8 s else is_zone py (c ∷ d ∷ s)
after_seconds py (some s) = is_zone py s
after_seconds py none = false

-- RFC3339
unfoldable pub is_timestamp : Python → Text → Bool
unfolding after_seconds
is_timestamp py s = after_seconds py (matches_shape py (codes "0000-00-00T00:00:00") s)

unfoldable pub minus_duration : Python → Text → Bool
unfolding is_duration
minus_duration py [] = false
minus_duration py (c ∷ s) = c == b'-' && is_duration py s

unfoldable pub flux_time : Python → Text → Result Text
unfolding is_timestamp minus_duration
flux_time py value =
    if text_eq value (codes "now")
    then ok (codes "now()")
    else if minus_duration py value
    then ok value
    else if is_timestamp py value
    then ok (codes "time(v: " ++ (flux_string value ++ codes ")"))
    else err invalid_argument

-- The tags are sorted by their keys.
unfoldable pub tag_predicates : Python → List (Text × Text) → Result (List Text)
unfolding short_text
tag_predicates py [] = ok []
tag_predicates py ((key, value) ∷ tags) = do
  k ← short_text py key
  v ← short_text py value
  rest ← tag_predicates py tags
  ok ((codes "r[" ++ (flux_string k ++ (codes "] == " ++ flux_string v))) ∷ rest)

unfoldable pub field_predicate : Python → Option Text → Result (List Text)
unfolding short_text
field_predicate py none = ok []
field_predicate py (some field) = do
  f ← short_text py field
  ok ((codes "r._field == " ++ flux_string f) ∷ [])

-- `sep.join(pieces)`
unfoldable pub joined : Text → List Text → Text
joined sep [] = []
joined sep (p ∷ []) = p
joined sep (p ∷ q ∷ ps) = p ++ (sep ++ joined sep (q ∷ ps))

abbrev pub aggregates : List Text
aggregates =
    codes "mean"
    ∷ codes "median"
    ∷ codes "min"
    ∷ codes "max"
    ∷ codes "sum"
    ∷ codes "count"
    ∷ codes "first"
    ∷ codes "last"
    ∷ []

unfoldable pub window_lines : Python → (aggregate every : Option Text) → Result (List Text)
unfolding is_duration
window_lines py none none = ok []
window_lines py none (some every) = err invalid_argument
window_lines py (some aggregate) none = err invalid_argument
window_lines py (some aggregate) (some every) = do
  accept (contains aggregates aggregate)
  accept (is_duration py every)
  ok (
      (codes "  |> aggregateWindow(every: "
        ++ (every ++ (codes ", fn: " ++ (aggregate ++ codes ", createEmpty: false)"))))
      ∷ [])

abbrev pub max_query_rows : ℕ
max_query_rows = 1000

pub record Query : Type 0 where
  pub bucket : Text
  pub measurement : Text
  pub field : Option Text
  pub tags : List (Text × Text)
  pub start : Text
  pub stop : Text
  pub aggregate : Option Text
  pub every : Option Text
  pub limit : ℕ

unfoldable pub build_query : Python → Query → Result Text
unfolding short_text field_predicate tag_predicates flux_time window_lines joined
build_query py q = do
  measurement ← short_text py q.measurement
  fields ← field_predicate py q.field
  accept (leb (length q.tags) 16)
  tags ← tag_predicates py q.tags
  start ← flux_time py q.start
  stop ← flux_time py q.stop
  window ← window_lines py q.aggregate q.every
  accept (leb 1 q.limit && leb q.limit max_query_rows)
  let predicates = (codes "r._measurement == " ++ flux_string measurement) ∷ (fields ++ tags)
  ok (
      joined (10 ∷ []) (
        (codes "from(bucket: " ++ (flux_string q.bucket ++ codes ")"))
        ∷ (codes "  |> range(start: " ++ (start ++ (codes ", stop: " ++ (stop ++ codes ")"))))
        ∷ (codes "  |> filter(fn: (r) => " ++ (joined (codes " and ") predicates ++ codes ")"))
        ∷ (window ++ ((codes "  |> limit(n: " ++ (py.decimal (q.limit + 1) ++ codes ")")) ∷ []))))
