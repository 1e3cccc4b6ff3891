-- ===== src/Flux/Parts.antt =====
-- The parts of a Flux query that hold values: the predicates, and the line of the aggregate.
use omarchy_hardware.Common.{
  ◌≡◌, refl, sym, length, is_some, Bool, true, false, Option, none, some, List, [], ◌∷◌, ◌++◌,
  arith,
}
use omarchy_hardware.Common.Text.{Text, codes, contains}
use omarchy_hardware.Errors.{Result, ok, >>=-ok, >>-ok}
use omarchy_hardware.Flux.Query.{
  Python, accept, short_text, tag_predicates, field_predicate, joined, is_duration, aggregates,
  window_lines,
}
use omarchy_hardware.Flux.Outside.{is_code, Same, code-Same, flux_string-Same, append-Same}
use omarchy_hardware.Flux.Times.{contains-is_code, is_duration-code}

-- Lists whose texts look the same from outside, one by one.
pub data AllSame : List Text → List Text → Type 0 where
  no_texts : AllSame [] []
  one_more : {s t : Text} {ss ts : List Text} → Same s t → AllSame ss ts → AllSame (s ∷ ss) (t ∷ ts)

pub append-AllSame :
    {ss ts us vs : List Text} → AllSame ss ts → AllSame us vs → AllSame (ss ++ us) (ts ++ vs)
append-AllSame no_texts k = k
append-AllSame (one_more p h) k = one_more p (append-AllSame h k)

pub joined-Same :
    (sep : Text) {ss ts : List Text}
    → is_code sep ≡ true
    → AllSame ss ts
    → Same (joined sep ss) (joined sep ts)
unfolding joined
joined-Same sep c no_texts = code-Same [] refl
joined-Same sep c (one_more p no_texts) = p
joined-Same sep c (one_more p (one_more q h)) =
    append-Same p (append-Same (code-Same sep c) (joined-Same sep c (one_more q h)))

pub accept-ok : (test : Bool) → accept test ≡ ok tt → test ≡ true
accept-ok true h = refl
accept-ok false h = cc

pub ok-injective : {A : Type 0} {a b : A} → Result.ok a ≡ ok b → a ≡ b
ok-injective h = cc

pub field_predicate-AllSame :
    (py : Python) (f f' : Option Text) (ps ps' : List Text)
    → is_some f ≡ is_some f'
    → field_predicate py f ≡ ok ps
    → field_predicate py f' ≡ ok ps'
    → AllSame ps ps'
unfolding field_predicate
field_predicate-AllSame py none none ps ps' e h h' =
    rw (sym (ok-injective h), sym (ok-injective h')) no_texts
field_predicate-AllSame py none (some f') ps ps' e h h' = cc
field_predicate-AllSame py (some f) none ps ps' e h h' = cc
field_predicate-AllSame py (some f) (some f') ps ps' e h h' =
    let (v, _, r) = >>=-ok (short_text py f) _ ps h in
    let (v', _, r') = >>=-ok (short_text py f') _ ps' h' in
    rw (sym (ok-injective r), sym (ok-injective r'))
      (one_more (append-Same (code-Same (codes "r._field == ") refl) (flux_string-Same v v'))
        no_texts)

pub tag_predicates-AllSame :
    (py : Python) (tags tags' : List (Text × Text)) (ps ps' : List Text)
    → length tags ≡ length tags'
    → tag_predicates py tags ≡ ok ps
    → tag_predicates py tags' ≡ ok ps'
    → AllSame ps ps'
unfolding tag_predicates
tag_predicates-AllSame py [] [] ps ps' e h h' =
    rw (sym (ok-injective h), sym (ok-injective h')) no_texts
tag_predicates-AllSame py [] (t ∷ tags') ps ps' e h h' =
    let absurd : ⊥ = omega (arith, e) in elim absurd [ ]
tag_predicates-AllSame py (t ∷ tags) [] ps ps' e h h' =
    let absurd : ⊥ = omega (arith, e) in elim absurd [ ]
tag_predicates-AllSame py ((key, value) ∷ tags) ((key', value') ∷ tags') ps ps' e h h' =
    let (k, _, r1) = >>=-ok (short_text py key) _ ps h in
    let (v, _, r2) = >>=-ok (short_text py value) _ ps r1 in
    let (others, o, r3) = >>=-ok (tag_predicates py tags) _ ps r2 in
    let (k', _, r1') = >>=-ok (short_text py key') _ ps' h' in
    let (v', _, r2') = >>=-ok (short_text py value') _ ps' r1' in
    let (others', o', r3') = >>=-ok (tag_predicates py tags') _ ps' r2' in
    rw (sym (ok-injective r3), sym (ok-injective r3'))
      (one_more
        (append-Same (code-Same (codes "r[") refl) (
          append-Same (flux_string-Same k k')
            (append-Same (code-Same (codes "] == ") refl) (flux_string-Same v v'))))
        (tag_predicates-AllSame py tags tags' others others' (omega (arith, e)) o o'))

module _ (py : Python) (digits : py.is_digit b'"' ≡ false) where
  pub window_lines-AllSame :
      (aggregate every : Option Text) (ps : List Text)
      → window_lines py aggregate every ≡ ok ps
      → AllSame ps ps
  unfolding window_lines contains
  window_lines-AllSame none none ps h = rw (sym (ok-injective h)) no_texts
  window_lines-AllSame none (some every) ps h = cc
  window_lines-AllSame (some aggregate) none ps h = cc
  window_lines-AllSame (some aggregate) (some every) ps h =
      let (a, r) = >>-ok (accept (contains aggregates aggregate)) _ ps h in
      let (d, q) = >>-ok (accept (is_duration py every)) _ ps r in
      let plain = contains-is_code aggregates aggregate refl (accept-ok _ a) in
      let window = is_duration-code py digits every (accept-ok _ d) in
      rw (sym (ok-injective q)) (
        one_more
          (append-Same (code-Same (codes "  |> aggregateWindow(every: ") refl) (
            append-Same (code-Same every window) (
              append-Same (code-Same (codes ", fn: ") refl) (
                append-Same (code-Same aggregate plain)
                  (code-Same (codes ", createEmpty: false)") refl)))))
          no_texts)
