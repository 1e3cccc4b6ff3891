-- ===== src/Flux/Times.antt =====
-- The times and the durations that a Flux query takes have no quote of their own.
use mathlib.Core.Path.{subst}
use omarchy_hardware.Common.{
  ℕ, ◌≡◌, refl, sym, ◌==◌, ==_iff, all, Bool, true, false, not, List, [], ◌∷◌, ◌++◌, arith,
  Bool-cases, inl, inr,
}
use omarchy_hardware.Common.Text.{Text, codes, text_eq, text_eq_iff, contains}
use omarchy_hardware.Errors.{ok}
use omarchy_hardware.Flux.Literal.{flux_string}
use omarchy_hardware.Flux.Query.{
  Python, units, Place, before_number, in_number, nowhere, in_unit, is_over, next_place,
  duration_from, is_duration, is_timestamp, minus_duration, flux_time,
}
use omarchy_hardware.Flux.Outside.{is_code, Same, code-Same, flux_string-Same, append-Same}

pub contains-is_code :
    (xs : List Text) (u : Text) → all is_code xs ≡ true → contains xs u ≡ true → is_code u ≡ true
unfolding contains
contains-is_code [] u h k = cc
contains-is_code (x ∷ xs) u h k = elim (Bool-cases (text_eq x u)) [
  | inl e ↦
      let found : x ≡ u = (text_eq_iff x u).0 e in
      let plain : is_code x ≡ true = ground (arith, h) in rw (sym found) plain
  | inr e ↦
      let others : all is_code xs ≡ true = ground (arith, h) in
      let there : contains xs u ≡ true = ground (arith, k, e) in contains-is_code xs u others there
]

abbrev place_code : Place → Bool
place_code before_number = true
place_code in_number = true
place_code nowhere = false
place_code (in_unit u) = is_code u

is_code-append :
    (u : Text) (c : ℕ)
    → is_code (u ++ (c ∷ [])) ≡ true
    → (is_code u ≡ true) × (not (c == b'"') ≡ true)
is_code-append [] c h = (refl, ground (arith, h))
is_code-append (a ∷ u) c h =
    let (p, q) = is_code-append u c (ground (arith, h)) in (ground (arith, h, p), q)

module _ (py : Python) (digits : py.is_digit b'"' ≡ false) where
  digit_code : (c : ℕ) → py.is_digit c ≡ true → not (c == b'"') ≡ true
  digit_code c h = elim (Bool-cases (c == b'"')) [
    | inl e ↦
        let quote : c ≡ b'"' = (==_iff c b'"').0 e in
        let no : py.is_digit c ≡ false = rw quote digits in cc
    | inr e ↦ rw e refl
  ]

  is_over-code : (place : Place) → is_over place ≡ true → place_code place ≡ true
  unfolding is_over contains text_eq
  is_over-code before_number h = refl
  is_over-code in_number h = refl
  is_over-code nowhere h = h
  is_over-code (in_unit u) h = contains-is_code units u refl h

  next_place-code :
      (c : ℕ) (place : Place)
      → place_code (next_place (py.is_digit c) c place) ≡ true
      → (place_code place ≡ true) × (not (c == b'"') ≡ true)
  unfolding next_place contains text_eq
  next_place-code c before_number h = elim (Bool-cases (py.is_digit c)) [
    | inl e ↦ (refl, digit_code c e)
    | inr e ↦ cc (rw e at h)
  ]
  next_place-code c in_number h = elim (Bool-cases (py.is_digit c)) [
    | inl e ↦ (refl, digit_code c e)
    | inr e ↦ (refl, (is_code-append [] c (rw e at h)).1)
  ]
  next_place-code c nowhere h = cc
  next_place-code c (in_unit u) h = elim (Bool-cases (py.is_digit c)) [
    | inl e ↦ elim (Bool-cases (contains units u)) [
      | inl f ↦ (contains-is_code units u refl f, digit_code c e)
      | inr f ↦ cc (rw (e, f) at h)
    ]
    | inr e ↦ is_code-append u c (rw e at h)
  ]

  duration_from-code :
      (place : Place) (s : Text)
      → duration_from py place s ≡ true
      → (place_code place ≡ true) × (is_code s ≡ true)
  unfolding duration_from
  duration_from-code place [] h = (is_over-code place h, refl)
  duration_from-code place (c ∷ s) h =
      elim (Bool-cases (duration_from py (next_place (py.is_digit c) c place) s)) [
        | inl e ↦
            let (n, r) = duration_from-code (next_place (py.is_digit c) c place) s e in
            let (p, q) = next_place-code c place n in (p, ground (arith, q, r))
        | inr e ↦
            let over : is_over place ≡ true = ground (arith, rw e at h) in
            let feed : text_eq (c ∷ s) (10 ∷ []) ≡ true = ground (arith, rw e at h) in
            let text : c ∷ s ≡ 10 ∷ [] = (text_eq_iff (c ∷ s) (10 ∷ [])).0 feed in
            (is_over-code place over, subst (λ t. is_code t ≡ true) (sym text) refl)
      ]

  pub is_duration-code : (s : Text) → is_duration py s ≡ true → is_code s ≡ true
  unfolding is_duration
  is_duration-code s h = (duration_from-code before_number s h).1

  minus_duration-code : (s : Text) → minus_duration py s ≡ true → is_code s ≡ true
  unfolding minus_duration
  minus_duration-code [] h = refl
  minus_duration-code (c ∷ s) h =
      let plain : is_code s ≡ true = is_duration-code s (ground (arith, h)) in
      ground (arith, h, plain)

  pub flux_time-Same : (value time : Text) → flux_time py value ≡ ok time → Same time time
  unfolding flux_time
  flux_time-Same value time h = elim (Bool-cases (text_eq value (codes "now"))) [
    | inl e ↦
        let now : time ≡ codes "now()" = cc (rw e at h) in rw now (code-Same (codes "now()") refl)
    | inr e ↦ elim (Bool-cases (minus_duration py value)) [
      | inl f ↦
          let ago : time ≡ value = cc (rw (e, f) at h) in
          rw ago (code-Same value (minus_duration-code value f))
      | inr f ↦ elim (Bool-cases (is_timestamp py value)) [
        | inl g ↦
            let stamp : time ≡ codes "time(v: " ++ (flux_string value ++ codes ")") =
              cc (rw (e, f, g) at h) in
            rw stamp (
              append-Same (code-Same (codes "time(v: ") refl)
                (append-Same (flux_string-Same value value) (code-Same (codes ")") refl)))
        | inr g ↦ cc (rw (e, f, g) at h)
      ]
    ]
  ]
