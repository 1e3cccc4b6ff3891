-- ===== src/Audit/Bodies.antt =====
-- What a line of the log stores, and how `verify` sees it.
use omarchy_hardware.Common.{
  ℕ, ◌≡◌, refl, sym, ◌&&◌, Option, none, some, List, [], ◌∷◌, ◌++◌, ◌⊎◌, arith, if◌then◌else◌,
  Bool-cases, inl, inr,
}
use omarchy_hardware.Common.Text.{Text, codes, text_eq, text_eq_iff}
use omarchy_hardware.Common.Dict.{Dict, lookup, remove}
use omarchy_hardware.Common.Unicode.{strip}
use omarchy_hardware.Audit.Json.{Value, Loaded, object, no_object, no_json, Python}
use omarchy_hardware.Audit.Verify.{
  genesis, Checked, blank, follows, breaks, Reason, text_of, is_text, line_hash, check_record,
  check_loaded, check_text, check_decoded, check_line,
}

module _ {V : Type 0} (py : Python V) where
  -- The body and the hash of a line, whatever stands before it: `none` for a line that has none.
  abbrev stored_hash : Text → Option Text → Option (Text × Text)
  stored_hash body none = none
  stored_hash body (some digest) = some (body, digest)

  abbrev stored_loaded : Loaded V → Option (Text × Text)
  stored_loaded (object d) =
      stored_hash (py.dumps (remove (codes "hash") d)) (text_of (lookup (codes "hash") d))
  stored_loaded no_object = none
  stored_loaded no_json = none

  abbrev stored_text : Text → Option (Text × Text)
  stored_text stripped = if text_eq stripped [] then none else stored_loaded (py.loads stripped)

  abbrev stored_decoded : Option Text → Option (Text × Text)
  stored_decoded none = none
  stored_decoded (some raw) = stored_text (strip py.unicode raw)

  abbrev pub stored : List ℕ → Option (Text × Text)
  stored raw = stored_decoded (py.decode raw)

  abbrev pub pushed : Option (Text × Text) → List Text → List Text
  pushed none bodies = bodies
  pushed (some (body, digest)) bodies = body ∷ bodies

  -- The bodies of the records, the newest first.
  abbrev pub bodies_onto : List Text → List (List ℕ) → List Text
  bodies_onto bodies [] = bodies
  bodies_onto bodies (raw ∷ lines) = bodies_onto (pushed (stored raw) bodies) lines

  abbrev pub bodies : List (List ℕ) → List Text
  bodies lines = bodies_onto [] lines

  -- The head of the chain over bodies.
  abbrev pub sealed : List Text → Text
  sealed [] = genesis
  sealed (body ∷ bodies) = py.sha256 (sealed bodies ++ (10 ∷ body))

  -- The texts that are hashed for them.
  abbrev pub hashed : List Text → List Text
  hashed [] = []
  hashed (body ∷ bodies) = (sealed bodies ++ (10 ∷ body)) ∷ hashed bodies

  -- How a check agrees with what the line stores.
  pub data Seen (previous : Text) : Checked → Option (Text × Text) → Type 0 where
    seen_blank : Seen previous blank none
    seen_record :
        (body : Text)
        → Seen previous
            (follows (line_hash py previous body))
            (some (body, line_hash py previous body))
    seen_break : {reason : Reason} {o : Option (Text × Text)} → Seen previous (breaks reason) o

  check_record-Seen :
      (previous : Text) (d : Dict (Value V)) (digest : Option Text)
      → Seen previous (check_record py previous d digest) (stored_hash (py.dumps d) digest)
  unfolding check_record
  check_record-Seen previous d none = seen_break
  check_record-Seen previous d (some digest) =
      elim (Bool-cases (
        is_text (lookup (codes "prev") d) previous
        && text_eq (line_hash py previous (py.dumps d)) digest)) [
          | inl e ↦
              let same : digest ≡ line_hash py previous (py.dumps d) =
                sym ((text_eq_iff (line_hash py previous (py.dumps d)) digest).0 (ground arith)) in
              rw (e, same) (seen_record (py.dumps d))
          | inr e ↦ rw e seen_break
        ]

  check_loaded-Seen :
      (previous : Text) (l : Loaded V)
      → Seen previous (check_loaded py previous l) (stored_loaded l)
  unfolding check_loaded
  check_loaded-Seen previous (object d) = check_record-Seen previous (remove (codes "hash") d) _
  check_loaded-Seen previous no_object = seen_break
  check_loaded-Seen previous no_json = seen_break

  check_text-Seen : (previous s : Text) → Seen previous (check_text py previous s) (stored_text s)
  unfolding check_text
  check_text-Seen previous s = elim (Bool-cases (text_eq s [])) [
    | inl e ↦ rw e seen_blank
    | inr e ↦ rw e (check_loaded-Seen previous (py.loads s))
  ]

  check_decoded-Seen :
      (previous : Text) (o : Option Text)
      → Seen previous (check_decoded py previous o) (stored_decoded o)
  unfolding check_decoded
  check_decoded-Seen previous none = seen_break
  check_decoded-Seen previous (some raw) = check_text-Seen previous (strip py.unicode raw)

  pub check_line-Seen :
      (previous : Text) (raw : List ℕ) → Seen previous (check_line py previous raw) (stored raw)
  unfolding check_line
  check_line-Seen previous raw = check_decoded-Seen previous (py.decode raw)

  -- The three ways in which a check and a line agree.
  pub Seen-cases :
      {previous : Text} {k : Checked} {o : Option (Text × Text)}
      → Seen previous k o
      → ((k ≡ blank) × (o ≡ none))
        ⊎ (((body : Text) × (k ≡ follows (line_hash py previous body))
              × (o ≡ some (body, line_hash py previous body)))
            ⊎ ((reason : Reason) × (k ≡ breaks reason)))
  Seen-cases seen_blank = inl (refl, refl)
  Seen-cases (seen_record body) = inr (inl (body, refl, refl))
  Seen-cases (seen_break {reason = reason}) = inr (inr (reason, refl))
