-- ===== src/Line/Reads.antt =====
-- How a line reads back: an independent reader of the head of a line.
use mathlib.Core.List.{append_assoc}
use omarchy_hardware.Common.{
  ℕ, ◌≡◌, refl, sym, ap, ◌==◌, Bool, true, false, List, [], ◌∷◌, ◌++◌, arith, Bool-cases, inl, inr,
  if◌then◌else◌,
}
use omarchy_hardware.Common.Text.{Text}
use omarchy_hardware.Flux.Literal.{replace_char}
use omarchy_hardware.Line.{escape_each, escape, in_name, in_key}

-- A character that ends a word.
abbrev pub ends : List ℕ → ℕ → Bool
ends [] a = false
ends (c ∷ cs) a = if a == c then true else ends cs a

-- A word up to an unescaped special character, and what follows; a backslash takes the next
-- character as it is.
unfoldable pub read_word : List ℕ → Text → Text × Text
read_word special [] = ([], [])
read_word special (a ∷ []) = if ends special a then ([], a ∷ []) else (a ∷ [], [])
read_word special (a ∷ b ∷ s) =
    let (word, after) = read_word special s in
    let (word', after') = read_word special (b ∷ s) in
    if ends special a
    then ([], a ∷ b ∷ s)
    else if a == b'\\'
    then (b ∷ word, after)
    else (a ∷ word', after')

replace_char-append :
    (c : ℕ) (t x y : Text) → replace_char c t (x ++ y) ≡ replace_char c t x ++ replace_char c t y
unfolding replace_char
replace_char-append c t [] y = refl
replace_char-append c t (a ∷ x) y = elim (Bool-cases (a == c)) [
  | inl e ↦ rw (e, replace_char-append c t x y) (sym (append_assoc t _ _))
  | inr e ↦ rw (e, replace_char-append c t x y) refl
]

escape_each-append :
    (cs : List ℕ) (x y : Text) → escape_each cs (x ++ y) ≡ escape_each cs x ++ escape_each cs y
unfolding escape_each
escape_each-append [] x y = refl
escape_each-append (c ∷ cs) x y =
    rw (replace_char-append c (b'\\' ∷ c ∷ []) x y) (escape_each-append cs _ _)

escape-nil : (cs : List ℕ) → escape cs [] ≡ []
unfolding escape replace_char
escape-nil cs = go cs
  where
    go : (cs : List ℕ) → escape_each cs [] ≡ []
    go [] = unfold escape_each in refl
    go (c ∷ cs) = unfold escape_each replace_char in go cs

escape-cons :
    (cs : List ℕ) (a : ℕ) (s : Text) → escape cs (a ∷ s) ≡ escape cs (a ∷ []) ++ escape cs s
unfolding escape
escape-cons cs a s =
    rw (replace_char-append b'\\' (b'\\' ∷ b'\\' ∷ []) (a ∷ []) s) (escape_each-append cs _ _)

-- A character by itself.
abbrev alone : List ℕ → ℕ → Text
alone cs a = if a == b'\\' then b'\\' ∷ a ∷ [] else if ends cs a then b'\\' ∷ a ∷ [] else a ∷ []

-- The special characters are escaped one by one, and the backslash is none of them.
pub record Escapes (cs : List ℕ) : Type 0 where
  pub one : (a : ℕ) → escape cs (a ∷ []) ≡ alone cs a
  pub no_backslash : ends cs b'\\' ≡ false

pub in_key-Escapes : Escapes in_key
in_key-Escapes = record { one = λ a. one a; no_backslash = refl }
  where
    one : (a : ℕ) → escape in_key (a ∷ []) ≡ alone in_key a
    one a = unfold escape escape_each replace_char in ground arith

pub in_name-Escapes : Escapes in_name
in_name-Escapes = record { one = λ a. one a; no_backslash = refl }
  where
    one : (a : ℕ) → escape in_name (a ∷ []) ≡ alone in_name a
    one a = unfold escape escape_each replace_char in ground arith

read_word-stops :
    (cs : List ℕ) (a : ℕ) (s : Text) → ends cs a ≡ true → read_word cs (a ∷ s) ≡ ([], a ∷ s)
unfolding read_word
read_word-stops cs a [] h = rw h refl
read_word-stops cs a (b ∷ s) h = rw h refl

read_word-plain :
    (cs : List ℕ) (a : ℕ) (s word after : Text)
    → ends cs a ≡ false
    → (a == b'\\') ≡ false
    → read_word cs s ≡ (word, after)
    → read_word cs (a ∷ s) ≡ (a ∷ word, after)
unfolding read_word
read_word-plain cs a [] word after h k e = rw h (ap (λ p. (a ∷ p.0, p.1)) e)
read_word-plain cs a (b ∷ s) word after h k e = rw (h, k) (ap (λ p. (a ∷ p.0, p.1)) e)

read_word-escaped :
    (cs : List ℕ) (a : ℕ) (s word after : Text)
    → ends cs b'\\' ≡ false
    → read_word cs s ≡ (word, after)
    → read_word cs (b'\\' ∷ a ∷ s) ≡ (a ∷ word, after)
unfolding read_word
read_word-escaped cs a s word after h e = rw h (ap (λ p. (a ∷ p.0, p.1)) e)

-- An escaped text reads back, up to the special character after it.
pub read_word-escape :
    (cs : List ℕ) (value : Text) (stop : ℕ) (rest : Text)
    → Escapes cs
    → ends cs stop ≡ true
    → read_word cs (escape cs value ++ (stop ∷ rest)) ≡ (value, stop ∷ rest)
read_word-escape cs [] stop rest e h = rw (escape-nil cs) (read_word-stops cs stop rest h)
read_word-escape cs (a ∷ value) stop rest e h =
    let later = read_word-escape cs value stop rest e h in
    let tail = escape cs value ++ (stop ∷ rest) in
    rw (escape-cons cs a value, e.one a, append_assoc)
      (elim (Bool-cases (a == b'\\')) [
        | inl back ↦ rw back (read_word-escaped cs a tail value (stop ∷ rest) e.no_backslash later)
        | inr other ↦ elim (Bool-cases (ends cs a)) [
          | inl special ↦
              rw (other, special)
                (read_word-escaped cs a tail value (stop ∷ rest) e.no_backslash later)
          | inr plain ↦
              rw (other, plain) (read_word-plain cs a tail value (stop ∷ rest) plain other later)
        ]
      ])
