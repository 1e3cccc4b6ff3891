-- ===== src/Audit/Sample.antt =====
-- A codec and a hash for the tests of the audit log: texts are shifted, and each is ended by a
-- separator.
use mathlib.Core.List.{reverse-reverse}
use omarchy_hardware.Common.{
  ℕ, ◌+◌, ◌-◌, ◌≡◌, refl, ap, ◌==◌, leb, length, take, all, reverse, Bool, true, false, some, List,
  [], ◌∷◌, ◌++◌, arith, if◌then◌else◌,
}
use omarchy_hardware.Common.Text.{Text, codes, text_eq, split, cons_head}
use omarchy_hardware.Common.Dict.{Dict}
use omarchy_hardware.Common.Unicode.{lstrip, strip}
use omarchy_hardware.Audit.Json.{Value, text, other, Loaded, object, no_json, Python, Laws}

abbrev shift : Text → Text
shift [] = []
shift (c ∷ s) = (c + 102) ∷ shift s

abbrev unshift : Text → Text
unshift [] = []
unshift (c ∷ s) = (c - 102) ∷ unshift s

unshift-shift : (s : Text) → unshift (shift s) ≡ s
unshift-shift [] = refl
unshift-shift (c ∷ s) =
    let back : (c + 102) - 102 ≡ c = omega arith in rw (back, unshift-shift s) refl

abbrev of_value : Value Unit → Text
of_value (text s) = 100 ∷ shift s
of_value (other u) = 101 ∷ []

abbrev to_value : Text → Value Unit
to_value [] = other tt
to_value (c ∷ s) = if c == 100 then text (unshift s) else other tt

to_value-of_value : (v : Value Unit) → to_value (of_value v) ≡ v
to_value-of_value (text s) = ap text (unshift-shift s)
to_value-of_value (other tt) = refl

abbrev items_text : Dict (Value Unit) → Text
items_text [] = []
items_text ((k, v) ∷ d) = shift k ++ (99 ∷ (of_value v ++ (99 ∷ items_text d)))

abbrev items_of : List Text → Dict (Value Unit)
items_of (k ∷ v ∷ pieces) = (unshift k, to_value v) ∷ items_of pieces
items_of _ = []

-- No character of the text is below the given one.
abbrev is_above : ℕ → Text → Bool
is_above least s = all (λ c. leb least c) s

shift-above : (s : Text) → is_above 100 (shift s) ≡ true
shift-above [] = refl
shift-above (c ∷ s) = ground (arith, shift-above s)

split-piece : (s t : Text) → is_above 100 s ≡ true → split 99 (s ++ (99 ∷ t)) ≡ s ∷ split 99 t
unfolding split cons_head
split-piece [] t h = refl
split-piece (c ∷ s) t h =
    let apart : (c == 99) ≡ false = ground (arith, h) in
    let rest : is_above 100 s ≡ true = ground (arith, h) in rw (apart, split-piece s t rest) refl

of_value-above : (v : Value Unit) → is_above 100 (of_value v) ≡ true
of_value-above (text s) = shift-above s
of_value-above (other u) = refl

items_of-split : (d : Dict (Value Unit)) → items_of (split 99 (items_text d)) ≡ d
items_of-split [] = unfold split in refl
items_of-split ((k, v) ∷ d) =
    rw
      (
        split-piece (shift k) (of_value v ++ (99 ∷ items_text d)) (shift-above k),
        split-piece (of_value v) (items_text d) (of_value-above v),
        unshift-shift k,
        to_value-of_value v,
        items_of-split d,
      )
      refl

split-none : (s : Text) → is_above 99 s ≡ true → split 13 s ≡ s ∷ []
unfolding split cons_head
split-none [] h = refl
split-none (c ∷ s) h =
    let apart : (c == 13) ≡ false = ground (arith, h) in
    let rest : is_above 99 s ≡ true = ground (arith, h) in rw (apart, split-none s rest) refl

above-append :
    (s t : Text) → is_above 99 s ≡ true → is_above 99 t ≡ true → is_above 99 (s ++ t) ≡ true
above-append [] t h k = k
above-append (c ∷ s) t h k = ground (arith, above-append s t)

above-weaken : (s : Text) → is_above 100 s ≡ true → is_above 99 s ≡ true
above-weaken [] h = refl
above-weaken (c ∷ s) h = ground (arith, above-weaken s)

items_text-above : (d : Dict (Value Unit)) → is_above 99 (items_text d) ≡ true
items_text-above [] = refl
items_text-above ((k, v) ∷ d) = above-append (shift k) _ (above-weaken (shift k) (shift-above k)) (
    above-append (of_value v) (99 ∷ items_text d) (above-weaken (of_value v) (of_value-above v))
      (items_text-above d))

abbrev sample_loads : Text → Loaded Unit
sample_loads [] = no_json
sample_loads (c ∷ s) = object (items_of (split 99 s))

-- Not SHA-256, but of its length, and a function of the length of the text.
abbrev pub sample : Python Unit
sample = record {
  dumps = λ d. 123 ∷ items_text d;
  loads = sample_loads;
  sha256 = λ s.
      take 64 (
        (100 + length s)
        ∷ codes "aaaaaaaaaaaaaaaaaaaaaaaaaaaaaaaaaaaaaaaaaaaaaaaaaaaaaaaaaaaaaaaa");
  encode = λ s. s;
  decode = λ s. some s;
  unicode = record { is_digit = λ c. false; is_space = λ c. false; lower = λ s. s; upper = λ s. s };
}

lstrip-none : (s : Text) → lstrip (λ c. false) s ≡ s
unfolding lstrip
lstrip-none [] = refl
lstrip-none (c ∷ s) = refl

strip-none : (s : Text) → strip sample.unicode s ≡ s
unfolding strip
strip-none s = rw (lstrip-none s, lstrip-none (reverse s)) (reverse-reverse s)

pub sample-Laws : Laws sample
unfolding text_eq
sample-Laws = record {
  loads-dumps = λ d h. ap object (items_of-split d);
  strip-dumps = λ d. strip-none (123 ∷ items_text d);
  split-dumps = λ d. split-none (123 ∷ items_text d) (items_text-above d);
  decode-dumps = λ d. refl;
  dumps-given = λ d. refl;
}
