-- ===== src/Mqtt/Topic.antt =====
-- `topic_matches` and `filter_covers` of mcp/omarchy_hardware/mqtt_lite.py. A loop over the levels
-- of a filter carries the levels of the topic that its index has not reached.
pub mod Matches
pub mod Covers
use omarchy_hardware.Common.{◌==◌, Bool, true, false, not, ◌&&◌, ◌||◌, List, [], ◌∷◌, if◌then◌else◌}
use omarchy_hardware.Common.Text.{Text, codes, text_eq, starts_with, split}

abbrev pub hash : Text
hash = codes "#"

abbrev pub plus : Text
plus = codes "+"

abbrev pub levels : Text → List Text
levels = split b'/'

-- `topic.startswith("$") and topic_filter[:1] in ("+", "#")`
unfoldable pub hidden : Text → Text → Bool
unfolding starts_with
hidden topic_filter topic =
    starts_with topic (codes "$")
    && (starts_with topic_filter plus || starts_with topic_filter hash)

unfoldable pub match_levels : List Text → List Text → Bool
match_levels [] [] = true
match_levels [] (t ∷ ts) = false
match_levels (l ∷ ls) [] = text_eq l hash
match_levels (l ∷ ls) (t ∷ ts) =
    if text_eq l hash
    then true
    else if not (text_eq l plus) && not (text_eq l t)
    then false
    else match_levels ls ts

unfoldable pub topic_matches : Text → Text → Bool
unfolding match_levels hidden
topic_matches topic_filter topic =
    if hidden topic_filter topic then false else match_levels (levels topic_filter) (levels topic)

unfoldable pub cover_levels : List Text → List Text → Bool
cover_levels [] [] = true
cover_levels [] (w ∷ ws) = false
cover_levels (l ∷ ls) [] = text_eq l hash
cover_levels (l ∷ ls) (w ∷ ws) =
    let rest = cover_levels ls ws in
    if text_eq l hash
    then true
    else if text_eq w hash
    then false
    else if text_eq l plus
    then rest
    else if not (text_eq w l)
    then false
    else rest

unfoldable pub filter_covers : Text → Text → Bool
unfolding cover_levels hidden
filter_covers allowed requested =
    if hidden allowed requested then false else cover_levels (levels allowed) (levels requested)
