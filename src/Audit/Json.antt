-- ===== src/Audit/Json.antt =====
-- JSON objects as mcp/omarchy_hardware/audit.py uses them. A dictionary is the list of its items in
-- the order of the keys: `dumps` sorts them, and nothing else looks at the order.
use omarchy_hardware.Common.{
  ℕ, ◌≡◌, refl, ◌==◌, ltb, Bool, true, false, ◌&&◌, Option, none, some, List, [], ◌∷◌, arith,
  if◌then◌else◌,
}
use omarchy_hardware.Common.Text.{Text, text_eq, text_eq_iff, split}
use omarchy_hardware.Common.Dict.{Dict, lookup, remove}
use omarchy_hardware.Common.Unicode.{Unicode, strip}

-- A value: a text, or one of the others, which are a parameter.
pub data Value (V : Type 0) : Type 0 where
  text : Text → Value V
  other : V → Value V

-- What `json.loads` comes to.
pub data Loaded (V : Type 0) : Type 0 where
  object : Dict (Value V) → Loaded V
  no_object : Loaded V
  no_json : Loaded V

-- What the log uses of Python: `json.dumps` of a sorted dictionary, `json.loads`, the hexadecimal
-- SHA-256 of a text, the codec, and the character tables.
pub record Python (V : Type 0) : Type 0 where
  pub dumps : Dict (Value V) → Text
  pub loads : Text → Loaded V
  pub sha256 : Text → Text
  pub encode : Text → List ℕ
  pub decode : List ℕ → Option Text
  pub unicode : Unicode

-- The order of texts by their code points.
unfoldable pub text_lt : Text → Text → Bool
text_lt [] [] = false
text_lt [] (b ∷ t) = true
text_lt (a ∷ s) [] = false
text_lt (a ∷ s) (b ∷ t) = let rest = text_lt s t in if a == b then rest else ltb a b

module _ {V : Type 0} where
  -- `d[k] = v`
  unfoldable pub put : Text → V → Dict V → Dict V
  put k v [] = (k, v) ∷ []
  put k v ((j, w) ∷ d) =
      let rest = put k v d in
      if text_eq j k then (j, v) ∷ d else if text_lt k j then (k, v) ∷ (j, w) ∷ d else (j, w) ∷ rest

  -- The keys are in order, each once.
  unfoldable pub is_dict : Dict V → Bool
  is_dict [] = true
  is_dict ((k, v) ∷ []) = true
  is_dict ((k, v) ∷ (j, w) ∷ d) = text_lt k j && is_dict ((j, w) ∷ d)

  -- `{**d, **e}`
  unfoldable pub merge : Dict V → Dict V → Dict V
  unfolding put
  merge d [] = d
  merge d ((k, v) ∷ e) = merge (put k v d) e

  pub lookup-put :
      (k j : Text) (v : V) (d : Dict V)
      → lookup j (put k v d) ≡ (if text_eq k j then some v else lookup j d)
  unfolding lookup put
  lookup-put k j v [] = refl
  lookup-put k j v ((i, w) ∷ d) =
      ground (arith, text_eq_iff k j, text_eq_iff i k, text_eq_iff i j, lookup-put k j v d)

  pub remove-absent : (k : Text) (d : Dict V) → lookup k d ≡ none → remove k d ≡ d
  unfolding lookup remove
  remove-absent k [] h = refl
  remove-absent k ((j, w) ∷ d) h = ground (arith, remove-absent k d)

  pub remove-put : (k : Text) (v : V) (d : Dict V) → lookup k d ≡ none → remove k (put k v d) ≡ d
  unfolding lookup remove put
  remove-put k v [] h = ground (arith, text_eq_iff k k)
  remove-put k v ((j, w) ∷ d) h =
      ground (arith, text_eq_iff k k, remove-put k v d, remove-absent k d)

text_lt-total : (s t : Text) → text_eq s t ≡ false → text_lt t s ≡ false → text_lt s t ≡ true
unfolding text_eq text_lt
text_lt-total [] [] e h = cc
text_lt-total [] (b ∷ t) e h = refl
text_lt-total (a ∷ s) [] e h = cc
text_lt-total (a ∷ s) (b ∷ t) e h = ground (arith, text_lt-total s t)

module _ {V : Type 0} where
  pub put-is_dict : (k : Text) (v : V) (d : Dict V) → is_dict d ≡ true → is_dict (put k v d) ≡ true
  unfolding put is_dict
  put-is_dict k v [] h = refl
  put-is_dict k v ((j, w) ∷ []) h = ground (arith, text_lt-total j k)
  put-is_dict k v ((j, w) ∷ (i, u) ∷ d) h =
      ground (arith, text_lt-total j k, put-is_dict k v ((i, u) ∷ d))

  pub merge-is_dict : (d e : Dict V) → is_dict d ≡ true → is_dict (merge d e) ≡ true
  unfolding merge
  merge-is_dict d [] h = h
  merge-is_dict d ((k, v) ∷ e) h = merge-is_dict (put k v d) e (put-is_dict k v d h)

  -- A key that the second dictionary does not have keeps its value.
  pub lookup-merge :
      (j : Text) (d e : Dict V) → lookup j e ≡ none → lookup j (merge d e) ≡ lookup j d
  unfolding merge lookup
  lookup-merge j d [] h = refl
  lookup-merge j d ((k, v) ∷ e) h = ground (arith, lookup-merge j (put k v d) e, lookup-put k j v d)

-- What JSON, the codec and the hash promise of the objects that are written.
pub record Laws {V : Type 0} (py : Python V) : Type 0 where
  pub loads-dumps : (d : Dict (Value V)) → is_dict d ≡ true → py.loads (py.dumps d) ≡ object d
  pub strip-dumps : (d : Dict (Value V)) → strip py.unicode (py.dumps d) ≡ py.dumps d
  pub split-dumps : (d : Dict (Value V)) → split 13 (py.dumps d) ≡ py.dumps d ∷ []
  pub decode-dumps : (d : Dict (Value V)) → py.decode (py.encode (py.dumps d)) ≡ some (py.dumps d)
  pub dumps-given : (d : Dict (Value V)) → text_eq (py.dumps d) [] ≡ false
