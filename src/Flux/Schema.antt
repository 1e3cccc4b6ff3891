-- ===== src/Flux/Schema.antt =====
-- `build_schema_query` of mcp/omarchy_hardware/ming.py.
use mathlib.Core.List.{append_assoc}
use omarchy_hardware.Common.{◌≡◌, refl, sym, ap, ◌∙◌, false, Option, none, some, is_some, ◌∷◌, ◌++◌}
use omarchy_hardware.Common.Text.{Text, codes}
use omarchy_hardware.Errors.{Result, ok, ◌>>=◌, >>=-ok}
use omarchy_hardware.Flux.Literal.{replace_char, escape_dollar, escaped, flux_string}
use omarchy_hardware.Flux.Query.{Python, short_text, flux_time}
use omarchy_hardware.Flux.Outside.{
  outside, Same, code-Same, flux_string-Same, append-Same, Same-outside,
}
use omarchy_hardware.Flux.Parts.{ok-injective}
use omarchy_hardware.Flux.Times.{flux_time-Same}

abbrev pub header : Text
header = codes "import \"influxdata/influxdb/schema\"\n"

-- The query for the measurements of a bucket.
unfoldable pub measurements_text : (bucket start : Text) → Text
unfolding flux_string
measurements_text bucket start =
    header
    ++ (codes "schema.measurements(bucket: "
        ++ (flux_string bucket ++ (codes ", start: " ++ (start ++ codes ")"))))

-- The line that marks the keys with their kind.
abbrev pub marked : Text → Text
marked kind = codes ")\n  |> set(key: \"kind\", value: \"" ++ (kind ++ codes "\")\n")

-- A call that lists keys of a measurement, marked with their kind.
unfoldable pub keys_text : (call kind bucket measurement start : Text) → Text
unfolding flux_string
keys_text call kind bucket measurement start =
    call
    ++ (codes "(bucket: "
        ++ (flux_string bucket
            ++ (codes ", measurement: "
                ++ (flux_string measurement ++ (codes ", start: " ++ (start ++ marked kind))))))

unfoldable pub keys_query : (bucket measurement start : Text) → Text
unfolding keys_text
keys_query bucket measurement start =
    header
    ++ (keys_text (codes "fields = schema.measurementFieldKeys") (codes "field") bucket measurement
          start
        ++ (keys_text (codes "tags = schema.measurementTagKeys") (codes "tag") bucket measurement
              start
            ++ codes "union(tables: [fields, tags])"))

-- `build_schema_query`
unfoldable pub build_schema_query :
    Python → (bucket : Text) (measurement : Option Text) (start : Text) → Result Text
unfolding short_text flux_time measurements_text keys_query
build_schema_query py bucket none start = do
  flux_start ← flux_time py start
  ok (measurements_text bucket flux_start)
build_schema_query py bucket (some measurement) start = do
  flux_start ← flux_time py start
  m ← short_text py measurement
  ok (keys_query bucket m flux_start)

header-Same : Same header header
unfolding flux_string escaped escape_dollar replace_char
header-Same =
    append-Same (code-Same (codes "import ") refl)
      (append-Same (flux_string-Same path path) (code-Same (codes "\n") refl))
  where
    path : Text
    path = codes "influxdata/influxdb/schema"

-- The line of a kind that is written without a special character.
marked-Same :
    (kind : Text)
    → flux_string kind ≡ b'"' ∷ (kind ++ codes "\"")
    → Same (marked kind) (marked kind)
unfolding flux_string escaped escape_dollar replace_char
marked-Same kind plain =
    let pieces : Text =
      codes ")\n  |> set(key: "
      ++ (flux_string (codes "kind") ++ (codes ", value: " ++ (flux_string kind ++ codes ")\n"))) in
    let same_text : pieces ≡ marked kind =
      ap
        (λ t.
          codes ")\n  |> set(key: "
          ++ (flux_string (codes "kind") ++ (codes ", value: " ++ (t ++ codes ")\n"))))
        plain
      ∙ ap (λ t. codes ")\n  |> set(key: \"kind\", value: \"" ++ t)
          (append_assoc kind (codes "\"") (codes ")\n")) in
    rw (sym same_text) (
      append-Same (code-Same (codes ")\n  |> set(key: ") refl) (
        append-Same (flux_string-Same (codes "kind") (codes "kind")) (
          append-Same (code-Same (codes ", value: ") refl)
            (append-Same (flux_string-Same kind kind) (code-Same (codes ")\n") refl)))))

keys_text-Same :
    (call kind b b' m m' time : Text)
    → Same call call
    → Same (marked kind) (marked kind)
    → Same time time
    → Same (keys_text call kind b m time) (keys_text call kind b' m' time)
unfolding keys_text
keys_text-Same call kind b b' m m' time p q r = append-Same p (
    append-Same (code-Same (codes "(bucket: ") refl) (
      append-Same (flux_string-Same b b') (
        append-Same (code-Same (codes ", measurement: ") refl) (
          append-Same (flux_string-Same m m')
            (append-Same (code-Same (codes ", start: ") refl) (append-Same r q))))))

field-Same : Same (marked (codes "field")) (marked (codes "field"))
unfolding flux_string escaped escape_dollar replace_char
field-Same = marked-Same (codes "field") refl

tag-Same : Same (marked (codes "tag")) (marked (codes "tag"))
unfolding flux_string escaped escape_dollar replace_char
tag-Same = marked-Same (codes "tag") refl

keys_query-Same :
    (b b' m m' time : Text) → Same time time → Same (keys_query b m time) (keys_query b' m' time)
unfolding keys_query
keys_query-Same b b' m m' time r = append-Same header-Same (
    append-Same
      (keys_text-Same (codes "fields = schema.measurementFieldKeys") (codes "field") b b' m m' time
        (code-Same _ refl) field-Same r)
      (append-Same
        (keys_text-Same (codes "tags = schema.measurementTagKeys") (codes "tag") b b' m m' time
          (code-Same _ refl) tag-Same r)
        (code-Same (codes "union(tables: [fields, tags])") refl)))

measurements_text-Same :
    (b b' time : Text)
    → Same time time
    → Same (measurements_text b time) (measurements_text b' time)
unfolding measurements_text
measurements_text-Same b b' time r = append-Same header-Same (
    append-Same (code-Same (codes "schema.measurements(bucket: ") refl) (
      append-Same (flux_string-Same b b') (
        append-Same (code-Same (codes ", start: ") refl)
          (append-Same r (code-Same (codes ")") refl)))))

-- Two schema queries that are built for the same start, both with a measurement or both without
-- one, are the same outside their string literals, whatever the bucket and the measurement are, if
-- a quote is no digit.
pub build_schema_query-outside :
    (py : Python) (bucket bucket' : Text) (measurement measurement' : Option Text)
    (start s s' : Text)
    → py.is_digit b'"' ≡ false
    → is_some measurement ≡ is_some measurement'
    → build_schema_query py bucket measurement start ≡ ok s
    → build_schema_query py bucket' measurement' start ≡ ok s'
    → outside s ≡ outside s'
unfolding build_schema_query
build_schema_query-outside py b b' none none start s s' digits e h h' =
    let (t, et, r) = >>=-ok (flux_time py start) _ s h in
    let (t', et', r') = >>=-ok (flux_time py start) _ s' h' in
    let times : t' ≡ t = ok-injective (sym et' ∙ et) in
    ap outside (sym (ok-injective r))
    ∙ (Same-outside (measurements_text-Same b b' t (flux_time-Same py digits start t et))
        ∙ ap outside (ap (measurements_text b') (sym times) ∙ ok-injective r'))
build_schema_query-outside py b b' none (some m') start s s' digits e h h' = cc
build_schema_query-outside py b b' (some m) none start s s' digits e h h' = cc
build_schema_query-outside py b b' (some m) (some m') start s s' digits e h h' =
    let (t, et, r1) = >>=-ok (flux_time py start) _ s h in
    let (t', et', r1') = >>=-ok (flux_time py start) _ s' h' in
    let (n, _, r) = >>=-ok (short_text py m) _ s r1 in
    let (n', _, r') = >>=-ok (short_text py m') _ s' r1' in
    let times : t' ≡ t = ok-injective (sym et' ∙ et) in
    ap outside (sym (ok-injective r))
    ∙ (Same-outside (keys_query-Same b b' n n' t (flux_time-Same py digits start t et))
        ∙ ap outside (ap (keys_query b' n') (sym times) ∙ ok-injective r'))
