-- ===== src/Mqtt/Topic/Matches.antt =====
-- `topic_matches` against the matching rules of MQTT 3.1.1, section 4.7, as a relation.
use omarchy_hardware.Common.{
  ◌≡◌, refl, ◌↔◌, inl, inr, true, false, List, [], ◌∷◌, arith, Bool-cases,
}
use omarchy_hardware.Common.Text.{Text, text_eq, text_eq_iff}
use omarchy_hardware.Mqtt.Topic.{hash, plus, levels, hidden, match_levels, topic_matches}

-- A filter's levels match a topic's levels: `#` takes the rest, `+` takes one level.
pub data Matches : List Text → List Text → Type 0 where
  done : Matches [] []
  rest : {l : Text} {ls ts : List Text} → l ≡ hash → Matches (l ∷ ls) ts
  one : {l t : Text} {ls ts : List Text} → l ≡ plus → Matches ls ts → Matches (l ∷ ls) (t ∷ ts)
  same : {l t : Text} {ls ts : List Text} → l ≡ t → Matches ls ts → Matches (l ∷ ls) (t ∷ ts)

match_levels→Matches : (ls ts : List Text) → match_levels ls ts ≡ true → Matches ls ts
unfolding match_levels
match_levels→Matches [] [] h = done
match_levels→Matches [] (t ∷ ts) h = cc
match_levels→Matches (l ∷ ls) [] h = rest ((text_eq_iff l hash).0 h)
match_levels→Matches (l ∷ ls) (t ∷ ts) h = elim (Bool-cases (text_eq l hash)) [
  | inl e ↦ rest ((text_eq_iff l hash).0 e)
  | inr e ↦ elim (Bool-cases (text_eq l plus)) [
    | inl p ↦ one ((text_eq_iff l plus).0 p) (match_levels→Matches ls ts (ground arith))
    | inr p ↦ same ((text_eq_iff l t).0 (ground arith)) (match_levels→Matches ls ts (ground arith))
  ]
]

Matches→match_levels : {ls ts : List Text} → Matches ls ts → match_levels ls ts ≡ true
unfolding match_levels
Matches→match_levels done = refl
Matches→match_levels (rest {ts = []} e) = (text_eq_iff _ hash).1 e
Matches→match_levels (rest {l} {ts = t ∷ ts} e) = ground (arith, text_eq_iff l hash)
Matches→match_levels (one {l} {t} {ls} {ts} e m) =
    ground (arith, text_eq_iff l plus, Matches→match_levels m)
Matches→match_levels (same {l} {t} {ls} {ts} e m) =
    ground (arith, text_eq_iff l t, Matches→match_levels m)

-- A filter matches a topic exactly when the dollar rule does not hide the topic and the two
-- stand, level by level, in the matching relation of MQTT 4.7.
pub topic_matches_iff :
    (topic_filter topic : Text)
    → (topic_matches topic_filter topic ≡ true)
      ↔ ((hidden topic_filter topic ≡ false) × Matches (levels topic_filter) (levels topic))
unfolding topic_matches
topic_matches_iff f t = (
  λ h. (ground arith, match_levels→Matches (levels f) (levels t) (ground arith)),
  λ p. ground (arith, p.0, Matches→match_levels p.1),
)
