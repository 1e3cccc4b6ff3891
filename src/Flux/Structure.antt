-- ===== src/Flux/Structure.antt =====
-- The values of a Flux query stay inside its string literals.
use omarchy_hardware.Common.{
  ◌+◌, ◌≡◌, refl, sym, ap, ◌∙◌, leb, length, is_some, true, false, ◌&&◌, List, [], ◌∷◌, ◌++◌,
}
use omarchy_hardware.Common.Text.{Text, codes}
use omarchy_hardware.Errors.{ok, >>=-ok, >>-ok}
use omarchy_hardware.Flux.Literal.{flux_string}
use omarchy_hardware.Flux.Query.{
  Python, accept, short_text, flux_time, tag_predicates, field_predicate, joined, window_lines,
  max_query_rows, Query, build_query,
}
use omarchy_hardware.Flux.Outside.{
  outside, is_code, Same, code-Same, flux_string-Same, append-Same, Same-outside,
}
use omarchy_hardware.Flux.Times.{flux_time-Same}
use omarchy_hardware.Flux.Parts.{
  AllSame, no_texts, one_more, append-AllSame, joined-Same, ok-injective, field_predicate-AllSame,
  tag_predicates-AllSame, window_lines-AllSame,
}

-- A query that is built, by its parts.
query_text :
    Python
    → Query
    → (measurement : Text) → (predicates : List Text) → (start stop : Text) → List Text
    → Text
query_text py q measurement predicates start stop window = joined (10 ∷ []) (
    (codes "from(bucket: " ++ (flux_string q.bucket ++ codes ")"))
    ∷ (codes "  |> range(start: " ++ (start ++ (codes ", stop: " ++ (stop ++ codes ")"))))
    ∷ (codes "  |> filter(fn: (r) => "
        ++ (joined (codes " and ")
              ((codes "r._measurement == " ++ flux_string measurement) ∷ predicates)
            ++ codes ")"))
    ∷ (window ++ ((codes "  |> limit(n: " ++ (py.decimal (q.limit + 1) ++ codes ")")) ∷ [])))

build_query-ok :
    (py : Python) (q : Query) (s : Text)
    → build_query py q ≡ ok s
    → (measurement : Text) × (fields : List Text) × (tags : List Text) × (start : Text)
      × (stop : Text) × (window : List Text) × (field_predicate py q.field ≡ ok fields)
      × (tag_predicates py q.tags ≡ ok tags)
      × (flux_time py q.start ≡ ok start)
      × (flux_time py q.stop ≡ ok stop)
      × (window_lines py q.aggregate q.every ≡ ok window)
      × (s ≡ query_text py q measurement (fields ++ tags) start stop window)
unfolding build_query query_text
build_query-ok py q s h =
    let (measurement, _, h1) = >>=-ok (short_text py q.measurement) _ s h in
    let (fields, f, h2) = >>=-ok (field_predicate py q.field) _ s h1 in
    let (_, h3) = >>-ok (accept (leb (length q.tags) 16)) _ s h2 in
    let (tags, t, h4) = >>=-ok (tag_predicates py q.tags) _ s h3 in
    let (start, a, h5) = >>=-ok (flux_time py q.start) _ s h4 in
    let (stop, b, h6) = >>=-ok (flux_time py q.stop) _ s h5 in
    let (window, w, h7) = >>=-ok (window_lines py q.aggregate q.every) _ s h6 in
    let (_, h8) = >>-ok (accept (leb 1 q.limit && leb q.limit max_query_rows)) _ s h7 in
    (measurement, fields, tags, start, stop, window, f, t, a, b, w, sym (ok-injective h8))

query_text-Same :
    (py : Python) (q q' : Query) (measurement measurement' start stop : Text)
    {predicates predicates' window : List Text}
    → is_code (py.decimal (q.limit + 1)) ≡ true
    → q.limit ≡ q'.limit
    → Same start start
    → Same stop stop
    → AllSame predicates predicates'
    → AllSame window window
    → Same
        (query_text py q measurement predicates start stop window)
        (query_text py q' measurement' predicates' start stop window)
unfolding query_text
query_text-Same py q q' measurement measurement' start stop number l a b p w =
    joined-Same (10 ∷ []) refl (
      one_more
        (append-Same (code-Same (codes "from(bucket: ") refl)
          (append-Same (flux_string-Same q.bucket q'.bucket) (code-Same (codes ")") refl)))
        (one_more
          (append-Same (code-Same (codes "  |> range(start: ") refl) (
            append-Same a (
              append-Same (code-Same (codes ", stop: ") refl)
                (append-Same b (code-Same (codes ")") refl)))))
          (one_more
            (append-Same (code-Same (codes "  |> filter(fn: (r) => ") refl) (
              append-Same
                (joined-Same (codes " and ") refl (
                  one_more
                    (append-Same (code-Same (codes "r._measurement == ") refl)
                      (flux_string-Same measurement measurement'))
                    p))
                (code-Same (codes ")") refl)))
            (append-AllSame w (one_more (limit_line l) no_texts)))))
  where
    limit_line :
        q.limit ≡ q'.limit
        → Same
            (codes "  |> limit(n: " ++ (py.decimal (q.limit + 1) ++ codes ")"))
            (codes "  |> limit(n: " ++ (py.decimal (q'.limit + 1) ++ codes ")"))
    limit_line e = rw (sym e) (
        append-Same (code-Same (codes "  |> limit(n: ") refl)
          (append-Same (code-Same _ number) (code-Same (codes ")") refl)))

-- Two Flux queries that are built from the same times, aggregate and limit, with a field in
-- both or in neither and with the same number of tags, are the same outside their string
-- literals, whatever the bucket, the measurement, the field and the tags are, if a quote is no
-- digit and the number of the limit is written without one.
pub build_query-outside :
    (py : Python) (digits : py.is_digit b'"' ≡ false) (q q' : Query) (s s' : Text)
    → is_code (py.decimal (q.limit + 1)) ≡ true
    → is_some q.field ≡ is_some q'.field
    → length q.tags ≡ length q'.tags
    → q.start ≡ q'.start
    → q.stop ≡ q'.stop
    → q.aggregate ≡ q'.aggregate
    → q.every ≡ q'.every
    → q.limit ≡ q'.limit
    → build_query py q ≡ ok s
    → build_query py q' ≡ ok s'
    → outside s ≡ outside s'
build_query-outside py digits q q' s s' number ef et ea eb eg ee el h h' =
    let (m, fields, tags, start, stop, window, f, t, a, b, w, e) = build_query-ok py q s h in
    let (m', fields', tags', start', stop', window', f', t', a', b', w', e') =
      build_query-ok py q' s' h' in
    let starts : start' ≡ start = ok-injective (sym a' ∙ ap (flux_time py) (sym ea) ∙ a) in
    let stops : stop' ≡ stop = ok-injective (sym b' ∙ ap (flux_time py) (sym eb) ∙ b) in
    let windows : window' ≡ window = ok-injective (
      sym w'
      ∙ ap (λ g. window_lines py g q'.every) (sym eg)
      ∙ ap (window_lines py q.aggregate) (sym ee)
      ∙ w) in
    let predicates =
      append-AllSame (field_predicate-AllSame py q.field q'.field fields fields' ef f f')
        (tag_predicates-AllSame py q.tags q'.tags tags tags' et t t') in
    rw (e, e', starts, stops, windows)
      (Same-outside (
        query_text-Same py q q' m m' start stop number el (flux_time-Same py digits q.start start a)
          (flux_time-Same py digits q.stop stop b) predicates
          (window_lines-AllSame py digits q.aggregate q.every window w)))
