-- ===== src/Audit/Sealed.antt =====
-- What the hash of the last record says of the log before it.
use omarchy_hardware.Common.{
  ℕ, ◌+◌, ◌≡◌, ◌≢◌, refl, sym, ap, ◌∙◌, length, none, some, List, [], ◌∷◌, ◌++◌, In, ◌⊎◌, arith,
  inl, inr,
}
use omarchy_hardware.Common.Text.{Text}
use omarchy_hardware.Audit.Json.{Python}
use omarchy_hardware.Audit.Verify.{genesis, intact, broken, Reason, line_hash, verify_from, verify}
use omarchy_hardware.Audit.Bodies.{
  stored, pushed, bodies_onto, bodies, sealed, hashed, check_line-Seen, Seen-cases,
}

broken-ne : {records line count : ℕ} {reason : Reason} → broken count line reason ≢ intact records
broken-ne h = cc

module _ {V : Type 0} (py : Python V) where
  -- A line of an intact log, and the rest of it.
  verify_from-cases :
      (previous : Text) (count number records : ℕ) (raw : List ℕ) (lines : List (List ℕ))
      → verify_from py previous count number (raw ∷ lines) ≡ intact records
      → ((stored py raw ≡ none)
          × (verify_from py previous count (number + 1) lines ≡ intact records))
        ⊎ ((body : Text) × (stored py raw ≡ some (body, line_hash py previous body))
            × (verify_from py (line_hash py previous body) (count + 1) (number + 1) lines
                ≡ intact records))
  unfolding verify_from
  verify_from-cases previous count number records raw lines h =
      elim (Seen-cases py (check_line-Seen py previous raw)) [
        | inl (e, o) ↦ inl (o, rw (verify_from, e) at h)
        | inr (inl (body, e, o)) ↦ inr (body, o, rw (verify_from, e) at h)
        | inr (inr (reason, e)) ↦ elim (broken-ne (rw (verify_from, e) at h)) [ ]
      ]

  -- The hash that the last record of an intact log stores seals all its bodies.
  verify_from-sealed :
      (xs : List (List ℕ)) (raw : List ℕ) (body digest previous : Text) (count number records : ℕ)
      (before : List Text)
      → stored py raw ≡ some (body, digest)
      → previous ≡ sealed py before
      → verify_from py previous count number (xs ++ (raw ∷ [])) ≡ intact records
      → digest ≡ sealed py (bodies_onto py before (xs ++ (raw ∷ [])))
  unfolding line_hash
  verify_from-sealed [] raw body digest previous count number records before s p h =
      elim (verify_from-cases previous count number records raw [] h) [
        | inl (o, _) ↦ cc
        | inr (b, o, _) ↦
            let same : body ≡ b = cc in
            let sealing : digest ≡ line_hash py previous b = cc in
            sealing
            ∙ ap (λ t. py.sha256 (t ++ (10 ∷ b))) p
            ∙ ap (λ t. py.sha256 (sealed py before ++ (10 ∷ t))) (sym same)
            ∙ ap (λ o. sealed py (pushed py o before)) (sym s)
      ]
  verify_from-sealed (x ∷ xs) raw body digest previous count number records before s p h =
      elim (verify_from-cases previous count number records x (xs ++ (raw ∷ [])) h) [
        | inl (o, rest) ↦
            verify_from-sealed xs raw body digest previous count (number + 1) records before s p
              rest
            ∙ ap (λ t. sealed py (bodies_onto py (pushed py t before) (xs ++ (raw ∷ [])))) (sym o)
        | inr (b, o, rest) ↦
            verify_from-sealed xs raw body digest (line_hash py previous b) (count + 1) (number + 1)
              records (b ∷ before) s (ap (λ t. py.sha256 (t ++ (10 ∷ b))) p) rest
            ∙ ap (λ t. sealed py (bodies_onto py (pushed py t before) (xs ++ (raw ∷ [])))) (sym o)
      ]

abbrev rest_of : Text → Text
rest_of [] = []
rest_of (c ∷ s) = s

append-split :
    (xs ys : Text) (b c : Text)
    → length xs ≡ length ys
    → xs ++ (10 ∷ b) ≡ ys ++ (10 ∷ c)
    → (xs ≡ ys) × (b ≡ c)
append-split [] [] b c n h = (refl, ap rest_of h)
append-split [] (y ∷ ys) b c n h = let absurd : ⊥ = omega (arith, n) in elim absurd [ ]
append-split (x ∷ xs) [] b c n h = let absurd : ⊥ = omega (arith, n) in elim absurd [ ]
append-split (x ∷ xs) (y ∷ ys) b c n h =
    let (p, q) = append-split xs ys b c (omega (arith, n)) (ap rest_of h) in
    let first : x ≡ y = cc in (cc, q)

module _ {V : Type 0} (py : Python V) (hash_length : (s : Text) → length (py.sha256 s) ≡ 64) where
  length-sealed : (bs : List Text) → length (sealed py bs) ≡ 64
  length-sealed [] = refl
  length-sealed (b ∷ bs) = hash_length _

  -- One head seals one list of bodies, of those whose hashes tell them apart.
  sealed-injective :
      (bs cs : List Text)
      → ((s t : Text)
          → In s (hashed py bs)
          → In t (hashed py cs)
          → py.sha256 s ≡ py.sha256 t
          → s ≡ t)
      → ((s : Text) → In s (hashed py bs) → py.sha256 s ≢ genesis)
      → ((t : Text) → In t (hashed py cs) → py.sha256 t ≢ genesis)
      → sealed py bs ≡ sealed py cs
      → bs ≡ cs
  sealed-injective [] [] apart fresh fresh' h = refl
  sealed-injective [] (c ∷ cs) apart fresh fresh' h = elim (fresh' _ (inl refl) (sym h)) [ ]
  sealed-injective (b ∷ bs) [] apart fresh fresh' h = elim (fresh _ (inl refl) h) [ ]
  sealed-injective (b ∷ bs) (c ∷ cs) apart fresh fresh' h =
      let same = apart _ _ (inl refl) (inl refl) h in
      let (heads, e) =
        append-split (sealed py bs) (sealed py cs) b c (length-sealed bs ∙ sym (length-sealed cs))
          same in
      let rest =
        sealed-injective bs cs (λ s t m n. apart s t (inr m) (inr n)) (λ s m. fresh s (inr m))
          (λ t m. fresh' t (inr m)) heads in
      cc

  -- Two logs that verify finds intact and that end in a record with the same hash have the same
  -- bodies in all their records, if the hash has 64 characters, tells apart the texts that the
  -- two logs hash, and takes none of them to the genesis hash.
  pub bodies-sealed :
      (xs ys : List (List ℕ)) (raw raw' : List ℕ) (body body' digest : Text) (records records' : ℕ)
      → ((s t : Text)
          → In s (hashed py (bodies py (xs ++ (raw ∷ []))))
          → In t (hashed py (bodies py (ys ++ (raw' ∷ []))))
          → py.sha256 s ≡ py.sha256 t
          → s ≡ t)
      → ((s : Text) → In s (hashed py (bodies py (xs ++ (raw ∷ [])))) → py.sha256 s ≢ genesis)
      → ((t : Text) → In t (hashed py (bodies py (ys ++ (raw' ∷ [])))) → py.sha256 t ≢ genesis)
      → stored py raw ≡ some (body, digest)
      → stored py raw' ≡ some (body', digest)
      → verify py (some (xs ++ (raw ∷ []))) ≡ intact records
      → verify py (some (ys ++ (raw' ∷ []))) ≡ intact records'
      → bodies py (xs ++ (raw ∷ [])) ≡ bodies py (ys ++ (raw' ∷ []))
  unfolding verify
  bodies-sealed xs ys raw raw' body body' digest records records' apart fresh fresh' s s' h h' =
      sealed-injective _ _ apart fresh fresh' (
        sym (verify_from-sealed py xs raw body digest genesis 0 1 records [] s refl h)
        ∙ verify_from-sealed py ys raw' body' digest genesis 0 1 records' [] s' refl h')
