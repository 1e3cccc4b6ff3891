-- ===== src/Mqtt/Topic/Covers.antt =====
-- `filter_covers` against `topic_matches`.
use omarchy_hardware.Common.{
  ℕ, ◌≡◌, ◌≢◌, refl, true, false, List, [], ◌∷◌, arith, Bool-cases, any, inl, inr, ◌==◌, ==_iff,
}
use mathlib.Core.Path.{subst}
use omarchy_hardware.Common.Text.{Text, codes, text_eq, text_eq_iff, starts_with, split, cons_head}
use omarchy_hardware.Mqtt.Topic.{
  hash, plus, levels, hidden, match_levels, topic_matches, cover_levels, filter_covers,
}

cover_levels_sound :
    (ls rs ts : List Text)
    → cover_levels ls rs ≡ true
    → match_levels rs ts ≡ true
    → match_levels ls ts ≡ true
unfolding cover_levels match_levels
cover_levels_sound [] [] ts c m = m
cover_levels_sound [] (w ∷ ws) ts c m = cc
cover_levels_sound (l ∷ ls) [] [] c m = c
cover_levels_sound (l ∷ ls) [] (t ∷ ts) c m = cc
cover_levels_sound (l ∷ ls) (w ∷ ws) [] c m = ground arith
cover_levels_sound (l ∷ ls) (w ∷ ws) (t ∷ ts) c m =
    ground (arith, cover_levels_sound ls ws ts, text_eq_iff w l, text_eq_iff w t, text_eq_iff l t)

-- A first level that begins with neither wildcard matches no level that begins otherwise.
match_cons_head :
    (c d : ℕ) (ls ts : List Text)
    → c ≢ b'#'
    → c ≢ b'+'
    → c ≢ d
    → match_levels (cons_head c ls) (cons_head d ts) ≡ false
unfolding match_levels cons_head text_eq
match_cons_head c d [] [] p q r = ground arith
match_cons_head c d [] (t ∷ ts) p q r = ground arith
match_cons_head c d (l ∷ ls) [] p q r = ground arith
match_cons_head c d (l ∷ ls) (t ∷ ts) p q r = ground arith

match_empty_head : (d : ℕ) (ls ts : List Text) → match_levels ([] ∷ ls) (cons_head d ts) ≡ false
unfolding match_levels cons_head text_eq
match_empty_head d ls [] = refl
match_empty_head d ls (t ∷ ts) = refl

-- A filter that begins with neither wildcard nor `$` matches no topic that begins with `$`.
match_dollar :
    (r t : Text)
    → starts_with r (codes "$") ≡ false
    → starts_with r plus ≡ false
    → starts_with r hash ≡ false
    → match_levels (levels r) (levels (b'$' ∷ t)) ≡ false
unfolding starts_with split
match_dollar [] t p q s = match_empty_head b'$' [] (levels t)
match_dollar (c ∷ r) t p q s = elim (Bool-cases (c == b'/')) [
  | inl e ↦ rw e (match_empty_head b'$' (levels r) (levels t))
  | inr e ↦
      rw e
        (match_cons_head c b'$' (levels r) (levels t) (ground arith) (ground arith) (ground arith))
]

hidden_mono_dollar :
    (a r t : Text)
    → hidden a r ≡ false
    → hidden r (b'$' ∷ t) ≡ false
    → match_levels (levels r) (levels (b'$' ∷ t)) ≡ true
    → hidden a (b'$' ∷ t) ≡ false
unfolding hidden starts_with
hidden_mono_dollar a r t p q m = ground (arith, match_dollar r t)

hidden_mono :
    (a r t : Text)
    → hidden a r ≡ false
    → hidden r t ≡ false
    → match_levels (levels r) (levels t) ≡ true
    → hidden a t ≡ false
hidden_mono a r [] p q m = unfold hidden starts_with in refl
hidden_mono a r (c ∷ t) p q m = elim (Bool-cases (c == b'$')) [
  | inl e ↦
      let e' : c ≡ b'$' = (==_iff c b'$').0 e in
      rw e' (
        hidden_mono_dollar a r t p (rw e' at q)
          (subst (λ x. match_levels (levels r) (levels (x ∷ t)) ≡ true) e' m))
  | inr e ↦ unfold hidden starts_with in ground arith
]

-- Every topic that the requested filter matches is matched by any filter that covers it.
pub filter_covers_sound :
    (allowed requested topic : Text)
    → filter_covers allowed requested ≡ true
    → topic_matches requested topic ≡ true
    → topic_matches allowed topic ≡ true
unfolding filter_covers topic_matches
filter_covers_sound a r t c m =
    ground (arith, hidden_mono a r t, cover_levels_sound (levels a) (levels r) (levels t))

-- On levels with no `#`, covering is matching.
cover_levels-eq-match_levels :
    (ls ws : List Text)
    → any (λ w. text_eq w hash) ws ≡ false
    → cover_levels ls ws ≡ match_levels ls ws
unfolding cover_levels match_levels
cover_levels-eq-match_levels [] [] h = refl
cover_levels-eq-match_levels [] (w ∷ ws) h = refl
cover_levels-eq-match_levels (l ∷ ls) [] h = refl
cover_levels-eq-match_levels (l ∷ ls) (w ∷ ws) h =
    ground (arith, cover_levels-eq-match_levels ls ws, text_eq_iff w l, text_eq_iff l w)

-- When no level of the requested filter is the multi-level wildcard, it is covered exactly
-- when it is matched as a topic.
pub filter_covers_exact :
    (allowed requested : Text)
    → any (λ w. text_eq w hash) (levels requested) ≡ false
    → filter_covers allowed requested ≡ topic_matches allowed requested
unfolding filter_covers topic_matches
filter_covers_exact a r h = rw (cover_levels-eq-match_levels (levels a) (levels r) h)
