-- ===== src/Flux/Reads.antt =====
-- How a Flux string literal reads: a backslash before a backslash, a quote or `${` stands for what
-- follows it, a quote ends the literal, and `${` without a backslash begins an expression.
use mathlib.Core.List.{append_assoc}
use omarchy_hardware.Common.{
  ℕ, ◌≡◌, refl, ◌∙◌, ◌==◌, Bool, true, false, ◌&&◌, ◌||◌, Option, none, some, [], ◌∷◌, ◌++◌, arith,
  if◌then◌else◌, Bool-cases, inl, inr,
}
use omarchy_hardware.Common.Text.{Text}
use omarchy_hardware.Flux.Literal.{replace_char, escape_dollar, escaped, flux_string}

abbrev pub prepend : ℕ → Option (Text × Text) → Option (Text × Text)
prepend c none = none
prepend c (some (value, rest)) = some (c ∷ value, rest)

-- The characters up to the closing quote, and what follows it; `none` for a text that ends before
-- it, for another escape, and for an expression.
unfoldable pub read_body : Text → Option (Text × Text)
read_body [] = none
read_body (a ∷ []) = if a == b'"' then some ([], []) else none
read_body (a ∷ b ∷ s) =
    let after = read_body s in
    let next = read_body (b ∷ s) in
    if a == b'"'
    then some ([], b ∷ s)
    else if a == b'\\'
    then if b == b'\\' || (b == b'"' || b == b'$') then prepend b after else none
    else if a == b'$' && b == b'{'
    then none
    else prepend a next

unfoldable pub read_literal : Text → Option (Text × Text)
unfolding read_body
read_literal [] = none
read_literal (a ∷ s) = if a == b'"' then read_body s else none

-- The first two replacements.
abbrev quoted : Text → Text
quoted value = replace_char b'"' (b'\\' ∷ b'"' ∷ []) (replace_char b'\\' (b'\\' ∷ b'\\' ∷ []) value)

quoted-cons :
    (c : ℕ) (v : Text)
    → quoted (c ∷ v) ≡ (
        if c == b'\\'
        then b'\\' ∷ b'\\' ∷ quoted v
        else if c == b'"'
        then b'\\' ∷ b'"' ∷ quoted v
        else c ∷ quoted v)
unfolding replace_char
quoted-cons c v = elim (Bool-cases (c == b'\\')) [ inl e ↦ rw e refl | inr e ↦ rw e refl ]

escape_dollar-cons :
    (a : ℕ) (s : Text) → (a == b'$') ≡ false → escape_dollar (a ∷ s) ≡ a ∷ escape_dollar s
unfolding escape_dollar
escape_dollar-cons a [] h = refl
escape_dollar-cons a (b ∷ s) h = rw h refl

-- Reading on after one character that is not special.
read_body-cons :
    (a : ℕ) (s : Text) {value rest : Text}
    → (a == b'"') ≡ false
    → (a == b'\\') ≡ false
    → (a == b'$') ≡ false
    → read_body s ≡ some (value, rest)
    → read_body (a ∷ s) ≡ some (a ∷ value, rest)
unfolding read_body
read_body-cons a [] p q r h = cc
read_body-cons a (b ∷ s) p q r h = rw (p, q, r, h) refl

read_body-escape :
    (b : ℕ) (s : Text) {value rest : Text}
    → (b == b'\\' || (b == b'"' || b == b'$')) ≡ true
    → read_body s ≡ some (value, rest)
    → read_body (b'\\' ∷ b ∷ s) ≡ some (b ∷ value, rest)
unfolding read_body
read_body-escape b s p h = rw (p, h) refl

abbrev starts_brace : Text → Bool
starts_brace [] = false
starts_brace (b ∷ s) = b == b'{'

-- A dollar sign that begins no expression.
read_body-dollar :
    (s : Text) {value rest : Text}
    → starts_brace s ≡ false
    → read_body s ≡ some (value, rest)
    → read_body (b'$' ∷ s) ≡ some (b'$' ∷ value, rest)
unfolding read_body
read_body-dollar [] n h = cc
read_body-dollar (b ∷ s) n h = rw (n, h) refl

escape_dollar-dollar :
    (s : Text) → starts_brace s ≡ false → escape_dollar (b'$' ∷ s) ≡ b'$' ∷ escape_dollar s
unfolding escape_dollar
escape_dollar-dollar [] n = refl
escape_dollar-dollar (b ∷ s) n = rw n refl

escape_dollar-brace :
    (s : Text) → escape_dollar (b'$' ∷ b'{' ∷ s) ≡ b'\\' ∷ b'$' ∷ b'{' ∷ escape_dollar s
unfolding escape_dollar
escape_dollar-brace s = refl

quoted-starts : (d : ℕ) (v : Text) → starts_brace (quoted (d ∷ v)) ≡ (d == b'{')
quoted-starts d v = rw (quoted-cons d v) (elim (Bool-cases (d == b'\\')) [
  | inl e ↦ rw e (ground arith)
  | inr e ↦ rw e (elim (Bool-cases (d == b'"')) [ inl f ↦ rw f (ground arith) | inr f ↦ rw f refl ])
])

module _ (rest : Text) where
  -- An escaped text and what closes it.
  abbrev closed : Text → Text
  closed s = escape_dollar s ++ (b'"' ∷ rest)

  closed-starts : (s : Text) → starts_brace s ≡ false → starts_brace (closed s) ≡ false
  unfolding escape_dollar
  closed-starts [] n = refl
  closed-starts (a ∷ []) n = n
  closed-starts (a ∷ b ∷ s) n = elim (Bool-cases (a == b'$' && b == b'{')) [
    | inl e ↦ rw e refl
    | inr e ↦ rw e n
  ]

  read_quote : read_body (b'"' ∷ rest) ≡ some ([], rest)
  unfolding read_body
  read_quote = of_rest rest
    where
      of_rest : (r : Text) → read_body (b'"' ∷ r) ≡ some ([], r)
      of_rest [] = refl
      of_rest (c ∷ r) = refl

  plain_reads :
      (c : ℕ) (v : Text)
      → (c == b'$') ≡ false
      → read_body (closed (quoted v)) ≡ some (v, rest)
      → read_body (closed (quoted (c ∷ v))) ≡ some (c ∷ v, rest)
  plain_reads c v d h = elim (Bool-cases (c == b'\\')) [
    | inl e ↦
        let same : c ≡ b'\\' = ground (arith, e) in
        rw
          (
            quoted-cons c v,
            e,
            escape_dollar-cons b'\\' (b'\\' ∷ quoted v) refl,
            escape_dollar-cons b'\\' (quoted v) refl,
            same,
          )
          (read_body-escape b'\\' (closed (quoted v)) refl h)
    | inr e ↦ elim (Bool-cases (c == b'"')) [
      | inl f ↦
          let same : c ≡ b'"' = ground (arith, f) in
          rw
            (
              quoted-cons c v,
              e,
              f,
              escape_dollar-cons b'\\' (b'"' ∷ quoted v) refl,
              escape_dollar-cons b'"' (quoted v) refl,
              same,
            )
            (read_body-escape b'"' (closed (quoted v)) refl h)
      | inr f ↦
          rw (quoted-cons c v, e, f, escape_dollar-cons c (quoted v) d)
            (read_body-cons c (closed (quoted v)) f e d h)
    ]
  ]

  dollar_reads :
      (v : Text)
      → starts_brace (quoted v) ≡ false
      → read_body (closed (quoted v)) ≡ some (v, rest)
      → read_body (closed (b'$' ∷ quoted v)) ≡ some (b'$' ∷ v, rest)
  dollar_reads v n h =
      rw (escape_dollar-dollar (quoted v) n)
        (read_body-dollar (closed (quoted v)) (closed-starts (quoted v) n) h)

  quoted_dollar : (v : Text) → quoted (b'$' ∷ v) ≡ b'$' ∷ quoted v
  quoted_dollar v = quoted-cons b'$' v

  brace_reads :
      (v : Text)
      → read_body (closed (quoted v)) ≡ some (v, rest)
      → read_body (closed (quoted (b'$' ∷ b'{' ∷ v))) ≡ some (b'$' ∷ b'{' ∷ v, rest)
  brace_reads v h =
      rw (quoted_dollar (b'{' ∷ v), quoted-cons b'{' v, escape_dollar-brace (quoted v))
        (read_body-escape b'$' (b'{' ∷ closed (quoted v)) refl
          (read_body-cons b'{' (closed (quoted v)) refl refl refl h))

  escaped_reads : (v : Text) → read_body (closed (quoted v)) ≡ some (v, rest)
  unfolding replace_char escape_dollar
  escaped_reads [] = read_quote
  escaped_reads (c ∷ []) = elim (Bool-cases (c == b'$')) [
    | inl e ↦
        let same : c ≡ b'$' = ground (arith, e) in
        rw (same, quoted_dollar []) (dollar_reads [] refl read_quote)
    | inr e ↦ plain_reads c [] e read_quote
  ]
  escaped_reads (c ∷ d ∷ v) = elim (Bool-cases (c == b'$')) [
    | inl e ↦
        let same : c ≡ b'$' = ground (arith, e) in
        rw same (elim (Bool-cases (d == b'{')) [
          | inl f ↦
              let brace : d ≡ b'{' = ground (arith, f) in rw brace (brace_reads v (escaped_reads v))
          | inr f ↦
              rw (quoted_dollar (d ∷ v))
                (dollar_reads (d ∷ v) (quoted-starts d v ∙ f) (escaped_reads (d ∷ v)))
        ])
    | inr e ↦ plain_reads c (d ∷ v) e (escaped_reads (d ∷ v))
  ]

-- Whatever the value and whatever follows, the Flux literal of a value reads back as that
-- value, with nothing of what follows taken and no expression begun.
pub flux_string-reads :
    (value rest : Text) → read_literal (flux_string value ++ rest) ≡ some (value, rest)
unfolding read_literal flux_string escaped
flux_string-reads value rest =
    rw (append_assoc (escape_dollar (quoted value)) (b'"' ∷ []) rest) (escaped_reads rest value)
