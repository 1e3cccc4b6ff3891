-- ===== src/Flux/Outside.antt =====
-- What of a Flux query stands outside its string literals.
use mathlib.Core.List.{append_assoc, append-nil}
use omarchy_hardware.Common.{
  ℕ, ◌≡◌, refl, sym, ap, ◌∙◌, ◌==◌, all, Bool, true, false, not, ◌&&◌, ◌||◌, Option, none, some, [],
  ◌∷◌, ◌++◌, arith, if◌then◌else◌, Bool-cases, inl, inr,
}
use omarchy_hardware.Common.Text.{Text}
use omarchy_hardware.Flux.Literal.{flux_string, escaped}
use omarchy_hardware.Flux.Reads.{prepend, read_body, read_literal, flux_string-reads}

-- The text without what is inside quotes; the flag says that a literal has begun.
unfoldable pub outside_from : Bool → Text → Text
outside_from literal [] = []
outside_from false (c ∷ s) =
    let inside = outside_from true s in
    let code = outside_from false s in if c == b'"' then c ∷ inside else c ∷ code
outside_from true (c ∷ []) = if c == b'"' then c ∷ [] else []
outside_from true (c ∷ d ∷ s) =
    let skipped = outside_from true s in
    let inside = outside_from true (d ∷ s) in
    let code = outside_from false (d ∷ s) in
    if c == b'"' then c ∷ code else if c == b'\\' then skipped else inside

unfoldable pub outside : Text → Text
unfolding outside_from
outside s = outside_from false s

prepend-some :
    (c : ℕ) (o : Option (Text × Text)) {value rest : Text}
    → prepend c o ≡ some (value, rest)
    → (before : Text) × (o ≡ some (before, rest))
prepend-some c none h = cc
prepend-some c (some (before, after)) h =
    let e : after ≡ _ = cc in (before, ap (λ t. some (before, t)) e)

read_body-outside_from :
    (s : Text) {value rest : Text}
    → read_body s ≡ some (value, rest)
    → outside_from true s ≡ b'"' ∷ outside_from false rest
unfolding read_body outside_from
read_body-outside_from [] h = cc
read_body-outside_from (a ∷ []) {rest = rest} h = elim (Bool-cases (a == b'"')) [
  | inl e ↦
      let same : a ≡ b'"' = ground (arith, e) in
      let nothing : rest ≡ [] = cc (rw e at h) in rw (same, nothing) refl
  | inr e ↦ cc (rw e at h)
]
read_body-outside_from (a ∷ b ∷ s) {rest = rest} h = elim (Bool-cases (a == b'"')) [
  | inl e ↦
      let same : a ≡ b'"' = ground (arith, e) in
      let after : rest ≡ b ∷ s = cc (rw e at h) in rw (same, after) refl
  | inr e ↦ elim (Bool-cases (a == b'\\')) [
    | inl f ↦ elim (Bool-cases (b == b'\\' || (b == b'"' || b == b'$'))) [
      | inl g ↦
          let (before, r) = prepend-some b (read_body s) (rw (e, f, g) at h) in
          rw (e, f) (read_body-outside_from s r)
      | inr g ↦ cc (rw (e, f, g) at h)
    ]
    | inr f ↦ elim (Bool-cases (a == b'$' && b == b'{')) [
      | inl g ↦ cc (rw (e, f, g) at h)
      | inr g ↦
          let (before, r) = prepend-some a (read_body (b ∷ s)) (rw (e, f, g) at h) in
          rw (e, f) (read_body-outside_from (b ∷ s) r)
    ]
  ]
]

-- A literal leaves its quotes, whatever its value.
pub outside-flux_string :
    (value rest : Text) → outside (flux_string value ++ rest) ≡ b'"' ∷ b'"' ∷ outside rest
unfolding outside outside_from flux_string read_literal
outside-flux_string value rest =
    ap (λ t. b'"' ∷ t)
      (read_body-outside_from ((escaped value ++ (b'"' ∷ [])) ++ rest) {value = value} {rest = rest}
        (flux_string-reads value rest))

-- A text without a quote.
abbrev pub is_code : Text → Bool
is_code s = all (λ c. not (c == b'"')) s

-- Two texts that look the same from outside, whatever stands the same after them.
pub data Same (s t : Text) : Type 0 where
  same : ((r r' : Text) → outside r ≡ outside r' → outside (s ++ r) ≡ outside (t ++ r')) → Same s t

code_outside :
    (s r r' : Text)
    → is_code s ≡ true
    → outside r ≡ outside r'
    → outside (s ++ r) ≡ outside (s ++ r')
unfolding outside outside_from
code_outside [] r r' h e = e
code_outside (c ∷ s) r r' h e =
    let apart : (c == b'"') ≡ false = ground (arith, h) in
    let rest : is_code s ≡ true = ground (arith, h) in
    rw apart (ap (λ t. c ∷ t) (code_outside s r r' rest e))

pub code-Same : (s : Text) → is_code s ≡ true → Same s s
code-Same s h = same (λ r r' e. code_outside s r r' h e)

pub flux_string-Same : (value value' : Text) → Same (flux_string value) (flux_string value')
flux_string-Same value value' = same (λ r r' e.
    outside-flux_string value r ∙ ap (λ t. b'"' ∷ b'"' ∷ t) e ∙ sym (outside-flux_string value' r'))

pub append-Same : {s s' t t' : Text} → Same s s' → Same t t' → Same (s ++ t) (s' ++ t')
append-Same {s = s} {s' = s'} {t = t} {t' = t'} (same h) (same k) = same λ r r' e.
    ap outside (append_assoc s t r)
    ∙ h (t ++ r) (t' ++ r') (k r r' e)
    ∙ sym (ap outside (append_assoc s' t' r'))

pub Same-outside : {s t : Text} → Same s t → outside s ≡ outside t
Same-outside {s = s} {t = t} (same h) =
    ap outside (sym (append-nil s)) ∙ h [] [] refl ∙ ap outside (append-nil t)
