-- ===== src/Journal/LastUploads.antt =====
-- The last elements of a list, which mcp/omarchy_hardware/journal.py keeps, and its first ones
-- when it is read backwards.
use mathlib.Core.List.{reverse-cons, reverse-append, reverse-reverse}
use omarchy_hardware.Common.{
  ℕ, zero, suc, ◌+◌, ◌-◌, ◌≤◌, ◌≡◌, refl, sym, ap, ◌∙◌, length, length-append, take, drop, reverse,
  List, [], ◌∷◌, ◌++◌, leb, arith, Bool-cases, inl, inr,
}
use omarchy_hardware.Journal.Entry.{keep_last}

module _ {A : Type 0} where
  take-all : (n : ℕ) (xs : List A) → length xs ≤ n → take n xs ≡ xs
  take-all zero [] h = refl
  take-all zero (x ∷ xs) h = let absurd : ⊥ = omega (arith, h) in elim absurd [ ]
  take-all (suc n) [] h = refl
  take-all (suc n) (x ∷ xs) h = ap (λ t. x ∷ t) (take-all n xs (omega (arith, h)))

  take-short : (n : ℕ) (xs ys : List A) → n ≤ length xs → take n (xs ++ ys) ≡ take n xs
  take-short zero xs ys h = refl
  take-short (suc n) [] ys h = let absurd : ⊥ = omega (arith, h) in elim absurd [ ]
  take-short (suc n) (x ∷ xs) ys h = ap (λ t. x ∷ t) (take-short n xs ys (omega (arith, h)))

  take-suc-take : (n : ℕ) (xs : List A) → take n (take (suc n) xs) ≡ take n xs
  take-suc-take zero xs = refl
  take-suc-take (suc n) [] = refl
  take-suc-take (suc n) (x ∷ xs) = ap (λ t. x ∷ t) (take-suc-take n xs)

  length-reverse : (xs : List A) → length (reverse xs) ≡ length xs
  length-reverse [] = refl
  length-reverse (x ∷ xs) =
      ap length (reverse-cons x xs)
      ∙ length-append (reverse xs) (x ∷ [])
      ∙ let e : length (reverse xs) + 1 ≡ suc (length xs) = omega (arith, length-reverse xs) in e

  drop-suc :
      (x : A) (xs : List A) (n : ℕ)
      → n ≤ length xs
      → drop (suc (length xs) - n) (x ∷ xs) ≡ drop (length xs - n) xs
  drop-suc x xs n h =
      let e : suc (length xs) - n ≡ suc (length xs - n) = omega (arith, h) in rw e refl

  -- The last elements are the first of the reversed list.
  keep_last_lem : (n : ℕ) (xs : List A) → keep_last n xs ≡ reverse (take n (reverse xs))
  unfolding keep_last
  keep_last_lem zero [] = refl
  keep_last_lem (suc n) [] = let e : 0 - suc n ≡ 0 = omega arith in rw e refl
  keep_last_lem n (x ∷ xs) = elim (Bool-cases (leb n (length xs))) [
    | inl h ↦
        let few : n ≤ length xs = ground (arith, h) in
        let few' : n ≤ length (reverse xs) = omega (arith, few, length-reverse xs) in
        drop-suc x xs n few
        ∙ keep_last_lem n xs
        ∙ ap reverse
            (sym (ap (take n) (reverse-cons x xs) ∙ take-short n (reverse xs) (x ∷ []) few'))
    | inr h ↦
        let none_goes : suc (length xs) - n ≡ 0 = ground (arith, h) in
        let whole : length (reverse (x ∷ xs)) ≤ n = ground (arith, h, length-reverse (x ∷ xs)) in
        ap (λ k. drop k (x ∷ xs)) none_goes
        ∙ sym (reverse-reverse (x ∷ xs))
        ∙ ap reverse (sym (take-all n (reverse (x ∷ xs)) whole))
  ]

  -- The kept end of a list grows at its front when it is read backwards.
  pub keep_last-append :
      (n : ℕ) (x : A) (xs : List A)
      → keep_last (suc n) (reverse (take (suc n) xs) ++ (x ∷ [])) ≡ reverse (take (suc n) (x ∷ xs))
  keep_last-append n x xs =
      let few = take (suc n) xs in
      keep_last_lem (suc n) (reverse few ++ (x ∷ []))
      ∙ ap (λ t. reverse (take (suc n) t))
          (reverse-append (reverse few) (x ∷ []) ∙ ap (λ t. x ∷ t) (reverse-reverse few))
      ∙ ap (λ t. reverse (x ∷ t)) (take-suc-take n xs)
