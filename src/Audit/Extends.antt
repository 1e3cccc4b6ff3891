-- ===== src/Audit/Extends.antt =====
-- A log that only `record` has written: `verify` finds it intact, and `_read_head` finds its head.
use omarchy_hardware.Common.{
  ℕ, ◌+◌, ◌≡◌, refl, ap, ◌∙◌, length, true, none, some, List, [], ◌∷◌, ◌++◌, arith,
}
use omarchy_hardware.Common.Text.{Text, codes, text_eq_refl}
use omarchy_hardware.Common.Dict.{Dict, lookup}
use omarchy_hardware.Audit.Json.{
  Value, text, object, Python, put, is_dict, Laws, lookup-put, remove-put, put-is_dict,
}
use omarchy_hardware.Audit.Verify.{
  genesis, intact, follows, text_of, is_text, line_hash, check_record, check_loaded, check_text,
  check_decoded, check_line, verify_from, hash_or, head_after, head_of_lines, text_or_genesis,
  read_head,
}

module _ {V : Type 0} (py : Python V) where
  -- The line of a record that follows `previous`, and its hash.
  pub data Written (previous : Text) : List ℕ → Text → Type 0 where
    written :
        (body : Dict (Value V))
        → is_dict body ≡ true
        → lookup (codes "prev") body ≡ some (text previous)
        → lookup (codes "hash") body ≡ none
        → Written previous
            (py.encode
              (py.dumps (put (codes "hash") (text (line_hash py previous (py.dumps body))) body)))
            (line_hash py previous (py.dumps body))

  -- Lines that lead from one hash to another.
  pub data Follows : Text → List (List ℕ) → Text → Type 0 where
    at_end : {head : Text} → Follows head [] head
    one_more :
        {previous digest head : Text} {raw : List ℕ} {lines : List (List ℕ)}
        → Written previous raw digest
        → Follows digest lines head
        → Follows previous (raw ∷ lines) head

  pub Follows-append :
      {previous head digest : Text} {lines : List (List ℕ)} {raw : List ℕ}
      → Follows previous lines head
      → Written head raw digest
      → Follows previous (lines ++ (raw ∷ [])) digest
  Follows-append at_end w = one_more w at_end
  Follows-append (one_more v f) w = one_more v (Follows-append f w)

  module _ (laws : Laws py) where
    line_loads :
        (previous digest : Text) (body : Dict (Value V))
        → is_dict body ≡ true
        → check_line py previous (py.encode (py.dumps (put (codes "hash") (text digest) body)))
          ≡ check_loaded py previous (object (put (codes "hash") (text digest) body))
    unfolding check_line check_decoded check_text
    line_loads previous digest body h =
        let d = put (codes "hash") (text digest) body in
        rw
          (
            laws.decode-dumps d,
            laws.strip-dumps d,
            laws.dumps-given d,
            laws.loads-dumps d (put-is_dict (codes "hash") (text digest) body h),
          )
          refl

    record_follows :
        (previous : Text) (body : Dict (Value V))
        → lookup (codes "prev") body ≡ some (text previous)
        → lookup (codes "hash") body ≡ none
        → check_loaded py previous
            (object (put (codes "hash") (text (line_hash py previous (py.dumps body))) body))
          ≡ follows (line_hash py previous (py.dumps body))
    unfolding check_loaded check_record text_of is_text
    record_follows previous body p h =
        let digest = line_hash py previous (py.dumps body) in
        rw
          (
            lookup-put (codes "hash") (codes "hash") (text digest) body,
            text_eq_refl (codes "hash"),
            remove-put (codes "hash") (text digest) body h,
            p,
            text_eq_refl previous,
            text_eq_refl digest,
          )
          refl

    pub check_line-Written :
        {previous digest : Text} {raw : List ℕ}
        → Written previous raw digest
        → check_line py previous raw ≡ follows digest
    check_line-Written {previous = previous} (written body d p h) =
        line_loads previous _ body d ∙ record_follows previous body p h

    pub verify_from-Follows :
        {previous head : Text} {lines : List (List ℕ)} (count number : ℕ)
        → Follows previous lines head
        → verify_from py previous count number lines ≡ intact (count + length lines)
    unfolding verify_from
    verify_from-Follows count number at_end = ap intact (omega arith)
    verify_from-Follows count number (one_more {lines = lines} w f) =
        rw (verify_from, check_line-Written w)
          (verify_from-Follows (count + 1) (number + 1) f ∙ ap intact (omega arith))

    loaded_hash :
        (head : Value V) (digest : Text) (body : Dict (Value V))
        → hash_or py head (object (put (codes "hash") (text digest) body)) ≡ text digest
    unfolding hash_or
    loaded_hash head digest body =
        rw
          (
            hash_or,
            lookup-put (codes "hash") (codes "hash") (text digest) body,
            text_eq_refl (codes "hash"),
          )
          refl

    written_head :
        (head : Value V) (digest : Text) (body : Dict (Value V))
        → is_dict body ≡ true
        → head_after py head (py.dumps (put (codes "hash") (text digest) body) ∷ []) ≡ text digest
    unfolding head_after
    written_head head digest body h =
        let d = put (codes "hash") (text digest) body in
        rw
          (
            laws.strip-dumps d,
            laws.dumps-given d,
            laws.loads-dumps d (put-is_dict (codes "hash") (text digest) body h),
          )
          (loaded_hash head digest body)

    head_of_lines-Follows :
        {previous head : Text} {lines : List (List ℕ)}
        → Follows previous lines head
        → head_of_lines py (text previous) lines ≡ some (text head)
    unfolding head_of_lines
    head_of_lines-Follows at_end = refl
    head_of_lines-Follows {previous = previous} (one_more (written body h p k) f) =
        let digest = line_hash py previous (py.dumps body) in
        let d = put (codes "hash") (text digest) body in
        rw
          (
            head_of_lines,
            laws.decode-dumps d,
            laws.split-dumps d,
            written_head (text previous) digest body h,
          )
          (head_of_lines-Follows f)

    pub read_head-Follows :
        {head : Text} {lines : List (List ℕ)}
        → Follows genesis lines head
        → read_head py (some lines) ≡ some head
    unfolding read_head text_or_genesis
    read_head-Follows f = rw (read_head, head_of_lines-Follows f) refl
