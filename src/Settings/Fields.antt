-- ===== src/Settings/Fields.antt =====
-- The fields of a table: what mcp/omarchy_hardware/config.py takes for a host, a token, a path, a
-- name, a flag, a number or a topic filter.
use omarchy_hardware.Common.{
  ℕ, ◌-◌, ◌==◌, leb, ltb, all, any, length, Bool, true, false, not, ◌&&◌, ◌||◌, Option, none, some,
  List, [], ◌∷◌, if◌then◌else◌,
}
use omarchy_hardware.Common.Text.{Text, codes, text_eq, starts_with, contains, split}
use omarchy_hardware.Common.Unicode.{Unicode}
use omarchy_hardware.Policy.Ming.{Net}
use omarchy_hardware.Settings.Toml.{
  Value, text, int, bool, array, no_items, item, Table, items, get, or_default,
}
use omarchy_hardware.Settings.Outcome.{Outcome, ok, config_error, ◌>>=◌, ◌>>◌, require, each}

-- The port of a URL, which `urlparse` reads when it is asked for it.
pub data UrlPort : Type 0 where
  no_port : UrlPort
  port : ℕ → UrlPort
  bad_port : UrlPort

-- A URL, as `urlparse` takes it apart.
pub record Url : Type 0 where
  pub scheme : Text
  pub username : Option Text
  pub password : Option Text
  pub hostname : Option Text
  pub url_port : UrlPort
  pub path : Text
  pub query : Text
  pub fragment : Text
  pub params : Text

-- What the loader uses of Python: the character tables, the value of a digit, `urlparse` (`none` for
-- a `ValueError`), and the address test.
pub record Python : Type 0 where
  pub unicode : Unicode
  pub is_printable : ℕ → Bool
  pub digit_value : ℕ → ℕ
  pub parse_url : Text → Option Url
  pub net : Net

abbrev pub is_empty {ℓ} : {A : Type ℓ} → List A → Bool
is_empty [] = true
is_empty (x ∷ xs) = false

-- `char.isspace() or not char.isprintable()` of some character.
unfoldable pub is_unplain : Python → Text → Bool
is_unplain py s = any (λ c. py.unicode.is_space c || not (py.is_printable c)) s

-- `any(char in value for char in extra_chars)`
unfoldable pub has_any : Text → Text → Bool
has_any extra s = any (λ c. any (λ d. c == d) s) extra

unfoldable pub valid_host : Python → Text → Bool
unfolding is_unplain
valid_host py host =
    not (is_empty host)
    && (not (starts_with host (codes "-") || has_any (codes "/") host) && not (is_unplain py host))

-- `_valid_host`, of a value: the host, if it is a valid one.
unfoldable pub host_of : Python → Option Value → Outcome Text
host_of py (some (text host)) = do require (valid_host py host); ok host
host_of py _ = config_error

-- `len(set(tokens)) == len(tokens)`
unfoldable pub all_different : List Text → Bool
all_different [] = true
all_different (t ∷ ts) = let rest = all_different ts in not (contains ts t) && rest

unfoldable pub is_token : Python → ℕ → Text → Text → Bool
is_token py max_length extra value =
    not (is_empty value)
    && (not (is_unplain py value) && (leb (length value) max_length && not (has_any extra value)))

unfoldable pub token : Python → ℕ → Text → Value → Outcome Text
token py max_length extra (text value) = do require (is_token py max_length extra value); ok value
token py max_length extra _ = config_error

unfoldable pub unique_tokens : Python → ℕ → Text → Option Value → Outcome (List Text)
unfolding token
unique_tokens py max_length extra (some (array (item v vs))) = do
  tokens ← each (token py max_length extra) (items (item v vs))
  require (all_different tokens)
  ok tokens
unique_tokens py max_length extra _ = config_error

unfoldable pub optional_tokens : Python → ℕ → Text → Option Value → Outcome (List Text)
optional_tokens py max_length extra none = ok []
optional_tokens py max_length extra (some (array no_items)) = ok []
optional_tokens py max_length extra (some v) = unique_tokens py max_length extra (some v)

unfoldable pub path_of : Option Value → Outcome (Option Text)
path_of none = ok none
path_of (some (text value)) = do
  require (not (is_empty value) && not (has_any (0 ∷ 10 ∷ 13 ∷ []) value))
  ok (some value)
path_of _ = config_error

unfoldable pub optional_path : Text → Table → Outcome (Option Text)
unfolding path_of
optional_path key raw = path_of (get key raw)

unfoldable pub name_of : Python → ℕ → Option Value → Outcome (Option Text)
name_of py max_length none = ok none
name_of py max_length (some (text value)) = do
  require (not (is_empty value) && leb (length value) max_length)
  require (not (is_unplain py value))
  ok (some value)
name_of py max_length _ = config_error

-- `_optional_name`, at its default length.
unfoldable pub optional_name : Python → Text → Table → Outcome (Option Text)
unfolding name_of
optional_name py key raw = name_of py 128 (get key raw)

unfoldable pub flag_of : Value → Outcome Bool
flag_of (bool b) = ok b
flag_of _ = config_error

unfoldable pub flag : Text → Bool → Table → Outcome Bool
unfolding flag_of
flag key default raw = flag_of (or_default (bool default) (get key raw))

unfoldable pub int_in : ℕ → ℕ → Value → Outcome ℕ
int_in low high (int n) = do require (leb low n && leb n high); ok n
int_in low high _ = config_error

unfoldable pub bounded_int : Text → ℕ → ℕ → ℕ → Table → Outcome ℕ
unfolding int_in
bounded_int key default low high raw = int_in low high (or_default (int default) (get key raw))

-- `[a-z0-9]`, and `[a-z0-9_-]`
unfoldable pub is_lower_digit : ℕ → Bool
is_lower_digit c = (leb b'a' c && leb c b'z') || (leb b'0' c && leb c b'9')

-- The rest of a match up to `$`, which also holds before a line feed at the end: at most `most`
-- characters of the class, from `seen` on.
unfoldable pub class_to_end : (ℕ → Bool) → ℕ → ℕ → Text → Bool
class_to_end class least most [] = leb least 0
class_to_end class least most (c ∷ s) =
    if class c && ltb 0 most
    then class_to_end class (least - 1) (most - 1) s
    else leb least 0 && text_eq (c ∷ s) (10 ∷ [])

unfoldable pub ming_name_pattern : Text → Bool
unfolding class_to_end is_lower_digit
ming_name_pattern [] = false
ming_name_pattern (c ∷ s) =
    is_lower_digit c && class_to_end (λ d. is_lower_digit d || (d == b'_' || d == b'-')) 0 31 s

unfoldable pub ming_node_id_pattern : Text → Bool
unfolding class_to_end
ming_node_id_pattern s =
    class_to_end
      (λ c.
        (leb b'A' c && leb c b'Z')
        || ((leb b'a' c && leb c b'z')
            || ((leb b'0' c && leb c b'9') || (c == b'.' || (c == b'_' || c == b'-')))))
      1 64 s

unfoldable pub ming_name_of : Option Value → Outcome Text
ming_name_of (some (text name)) = do require (ming_name_pattern name); ok name
ming_name_of _ = config_error

unfoldable pub ming_name : Table → Outcome Text
unfolding ming_name_of
ming_name raw = ming_name_of (get (codes "name") raw)

unfoldable pub has_char : ℕ → Text → Bool
has_char c s = any (λ d. d == c) s

-- `valid_topic_filter`, of the levels.
unfoldable pub valid_levels : List Text → Bool
valid_levels [] = true
valid_levels (level ∷ rest) =
    let others = valid_levels rest in
    if has_char b'#' level && (not (text_eq level (codes "#")) || not (is_empty rest))
    then false
    else if has_char b'+' level && not (text_eq level (codes "+"))
    then false
    else others

unfoldable pub valid_topic_filter : Text → Bool
unfolding valid_levels
valid_topic_filter value = valid_levels (split b'/' value)

abbrev pub max_topic_length : ℕ
max_topic_length = 128

unfoldable pub topic_filters : Python → Option Value → Outcome (List Text)
topic_filters py values = do
  filters ← optional_tokens py max_topic_length [] values
  require (all valid_topic_filter filters)
  ok filters

unfoldable pub publish_topics : Python → Option Value → Outcome (List Text)
publish_topics py values = do
  topics ← optional_tokens py max_topic_length (codes "+#") values
  require (not (any (λ topic. starts_with topic (codes "$")) topics))
  ok topics
