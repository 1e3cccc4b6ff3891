-- ===== src/Line/Head.antt =====
-- The head of a line of mcp/omarchy_hardware/ming.py's `build_line`, read back by an independent reader.
use mathlib.Core.List.{append_assoc}
use omarchy_hardware.Common.{
  ℕ, zero, suc, ◌≡◌, refl, sym, ap, ◌∙◌, ◌==◌, ◌&&◌, leb, length, true, Option, none, some, List,
  [], ◌∷◌, ◌++◌, arith, if◌then◌else◌, not,
}
use omarchy_hardware.Common.Text.{Text, codes, starts_with}
use omarchy_hardware.Errors.{ok, >>=-ok, >>-ok}
use omarchy_hardware.Flux.Query.{Python, accept, short_text, joined}
use omarchy_hardware.Flux.Parts.{ok-injective, accept-ok}
use omarchy_hardware.Line.{
  escape, lp, in_name, in_key, max_tags, max_fields, tag_parts, field_parts, stamp_part, Point,
  build_line,
}
use omarchy_hardware.Line.Reads.{ends, read_word, read_word-escape, in_key-Escapes, in_name-Escapes}

unfoldable with_tag :
    Text → Text → Option (List (Text × Text) × Text) → Option (List (Text × Text) × Text)
with_tag key value none = none
with_tag key value (some (tags, rest)) = some ((key, value) ∷ tags, rest)

-- A key that was read, the sign after it, its value, and what `more` makes of the rest.
unfoldable pub read_tag :
    (Text → Option (List (Text × Text) × Text)) → Text × Text → Option (List (Text × Text) × Text)
unfolding with_tag
read_tag more (key, []) = none
read_tag more (key, sign ∷ s) =
    let (value, after) = read_word in_key s in
    if sign == b'=' then with_tag key value (more after) else none

-- At most so many tags, each after a comma, up to the space that ends them.
unfoldable pub read_tags : ℕ → Text → Option (List (Text × Text) × Text)
unfolding read_tag
read_tags n [] = none
read_tags zero (a ∷ s) = if a == b' ' then some ([], a ∷ s) else none
read_tags (suc n) (a ∷ s) =
    if a == b' '
    then some ([], a ∷ s)
    else if a == b','
    then read_tag (read_tags n) (read_word in_key s)
    else none

-- The measurement, the tags, and what follows them.
unfoldable pub read_head : Text → Text × Option (List (Text × Text) × Text)
unfolding read_word read_tags
read_head line = let (name, after) = read_word in_name line in (name, read_tags max_tags after)

lp-ok :
    (py : Python) (special value found : Text)
    → lp py special value ≡ ok found
    → found ≡ escape special value
unfolding lp short_text
lp-ok py special value found h =
    let (v, e, r) = >>=-ok (short_text py value) _ found h in
    let (_, e1) = >>-ok _ _ v e in
    let (_, e2) = >>-ok _ _ v e1 in
    rw (sym (ok-injective r)) (ap (escape special) (sym (ok-injective e2)))

-- A text that begins with a comma or a space.
record Stops (t : Text) : Type 0 where
  first : ℕ
  others : Text
  is_cons : t ≡ first ∷ others
  ends_name : ends in_name first ≡ true
  ends_key : ends in_key first ≡ true

read_name-Stops :
    (name t : Text) → Stops t → read_word in_name (escape in_name name ++ t) ≡ (name, t)
read_name-Stops name t s =
    rw s.is_cons (read_word-escape in_name name s.first s.others in_name-Escapes s.ends_name)

read_key-Stops : (key t : Text) → Stops t → read_word in_key (escape in_key key ++ t) ≡ (key, t)
read_key-Stops key t s =
    rw s.is_cons (read_word-escape in_key key s.first s.others in_key-Escapes s.ends_key)

read_tags-tag :
    (n : ℕ) (key value t : Text) (tags : List (Text × Text)) (rest : Text)
    → Stops t
    → read_tags n t ≡ some (tags, rest)
    → read_tags (suc n) (b',' ∷ (escape in_key key ++ (b'=' ∷ (escape in_key value ++ t))))
      ≡ some ((key, value) ∷ tags, rest)
unfolding read_tags read_tag with_tag
read_tags-tag n key value t tags rest s h =
    rw
      (
        read_word-escape in_key key b'=' (escape in_key value ++ t) in_key-Escapes refl,
        read_key-Stops value t s,
        h,
      )
      refl

space-Stops : (rest : Text) → Stops (b' ' ∷ rest)
space-Stops rest = record {
  first = b' ';
  others = rest;
  is_cons = refl;
  ends_name = refl;
  ends_key = refl;
}

comma-Stops : (rest : Text) → Stops (b',' ∷ rest)
comma-Stops rest = record {
  first = b',';
  others = rest;
  is_cons = refl;
  ends_name = refl;
  ends_key = refl;
}

-- What the tags were written as reads back, up to the space.
tag_parts-reads :
    (py : Python) (n : ℕ) (tags : List (Text × Text)) (parts rest : Text)
    → leb (length tags) n ≡ true
    → tag_parts py tags ≡ ok parts
    → Stops (parts ++ (b' ' ∷ rest))
      × (read_tags n (parts ++ (b' ' ∷ rest)) ≡ some (tags, b' ' ∷ rest))
unfolding tag_parts read_tags
tag_parts-reads py zero [] parts rest b h = rw (sym (ok-injective h)) (space-Stops rest, refl)
tag_parts-reads py (suc n) [] parts rest b h = rw (sym (ok-injective h)) (space-Stops rest, refl)
tag_parts-reads py zero ((key, value) ∷ tags) parts rest b h =
    let absurd : ⊥ = grind arith in elim absurd [ ]
tag_parts-reads py (suc n) ((key, value) ∷ tags) parts rest b h =
    let (_, r0) = >>-ok (accept (not (starts_with key (codes "_")))) _ parts h in
    let (k, ek, r1) = >>=-ok (lp py in_key key) _ parts r0 in
    let (v, ev, r2) = >>=-ok (lp py in_key value) _ parts r1 in
    let (later, et, r3) = >>=-ok (tag_parts py tags) _ parts r2 in
    let (s, reads) = tag_parts-reads py n tags later rest (grind arith) et in
    let shape : parts ++ (b' ' ∷ rest)
        ≡ b',' ∷ (escape in_key key ++ (b'=' ∷ (escape in_key value ++ (later ++ (b' ' ∷ rest))))) =
      rw (sym (ok-injective r3), lp-ok py in_key key k ek, lp-ok py in_key value v ev)
        (ap (λ x. b',' ∷ x) (rw (append_assoc, append_assoc) refl)) in
    rw shape (comma-Stops _, read_tags-tag n key value _ tags (b' ' ∷ rest) s reads)

-- The parts of a line that was built.
build_line-parts :
    (py : Python) (point : Point) (line : Text)
    → build_line py point ≡ ok line
    → (leb (length point.tags) max_tags ≡ true)
      × (tags : Text) × (rest : Text) × (tag_parts py point.tags ≡ ok tags)
      × (line ≡ escape in_name point.measurement ++ (tags ++ (b' ' ∷ rest)))
unfolding build_line
build_line-parts py point line h =
    let (_, r1) = >>-ok (accept (not (starts_with point.measurement (codes "_")))) _ line h in
    let (_, r2) = >>-ok (accept (not (starts_with point.measurement (codes "#")))) _ line r1 in
    let (_, r3) =
      >>-ok (accept (leb 1 (length point.fields) && leb (length point.fields) max_fields)) _ line
        r2 in
    let (few, r4) = >>-ok (accept (leb (length point.tags) max_tags)) _ line r3 in
    let (name, en, r5) = >>=-ok (lp py in_name point.measurement) _ line r4 in
    let (tags, et, r6) = >>=-ok (tag_parts py point.tags) _ line r5 in
    let (fields, _, r7) = >>=-ok (field_parts py point.fields) _ line r6 in
    let (time, _, r8) = >>=-ok (stamp_part point.timestamp) _ line r7 in
    let rest = joined (codes ",") fields ++ time in
    (
      accept-ok _ few,
      tags,
      rest,
      et,
      sym (ok-injective r8)
          ∙ ap (λ x. x ++ (tags ++ (b' ' ∷ rest))) (lp-ok py in_name point.measurement name en),
    )

-- The head of every line of line protocol that build_line builds reads back, by the rules of
-- the protocol for escaped words, as the measurement and the tags of the point, whatever
-- characters they hold, and what follows begins with the space before the fields.
pub build_line-reads :
    (py : Python) (point : Point) (line : Text)
    → build_line py point ≡ ok line
    → (rest : Text) × (read_head line ≡ (point.measurement, some (point.tags, b' ' ∷ rest)))
unfolding read_head
build_line-reads py point line h =
    let (few, tags, rest, et, shape) = build_line-parts py point line h in
    let (s, reads) = tag_parts-reads py max_tags point.tags tags rest few et in
    (rest, rw (shape, read_name-Stops point.measurement _ s, reads) refl)
