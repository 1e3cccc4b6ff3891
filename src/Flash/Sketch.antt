-- ===== src/Flash/Sketch.antt =====
-- `check_fqbn` and `resolve_sketch_dir` of mcp/omarchy_hardware/flash.py.
use omarchy_hardware.Common.{
  ℕ, ◌==◌, leb, all, Bool, true, false, not, ◌&&◌, ◌||◌, Option, none, some, List, [], ◌∷◌,
  if◌then◌else◌,
}
use omarchy_hardware.Common.Text.{Text, split, text_eq}
use omarchy_hardware.Errors.{unknown_board, tool_missing, sketch_not_allowed}
use omarchy_hardware.Flash.Steps.{Except, ok, raised, tool}

abbrev within : ℕ → ℕ → ℕ → Bool
within low high c = leb low c && leb c high

-- `[A-Za-z0-9_.-]`
abbrev pub is_fqbn_char : ℕ → Bool
is_fqbn_char c =
    within b'A' b'Z' c
    || within b'a' b'z' c
    || within b'0' b'9' c
    || c == b'_'
    || c == b'.'
    || c == b'-'

-- `[A-Za-z0-9_.=,-]`
abbrev pub is_option_char : ℕ → Bool
is_option_char c = is_fqbn_char c || c == b'=' || c == b','

-- One character of the class at least.
unfoldable pub some_of : (ℕ → Bool) → Text → Bool
some_of is_in [] = false
some_of is_in (c ∷ s) = all is_in (c ∷ s)

-- What the `$` of the pattern lets stand: a line feed at the end.
unfoldable pub without_line_feed : Text → Text
without_line_feed [] = []
without_line_feed (c ∷ []) = if c == b'\n' then [] else c ∷ []
without_line_feed (c ∷ d ∷ s) = c ∷ without_line_feed (d ∷ s)

unfoldable pub fqbn_parts : List Text → Bool
unfolding some_of
fqbn_parts (a ∷ b ∷ c ∷ []) =
    some_of is_fqbn_char a && some_of is_fqbn_char b && some_of is_fqbn_char c
fqbn_parts (a ∷ b ∷ c ∷ d ∷ []) =
    some_of is_fqbn_char a
    && some_of is_fqbn_char b
    && some_of is_fqbn_char c
    && some_of is_option_char d
fqbn_parts _ = false

-- `FQBN_PATTERN.match`
unfoldable pub fqbn_pattern : Text → Bool
unfolding fqbn_parts without_line_feed
fqbn_pattern fqbn = fqbn_parts (split b':' (without_line_feed fqbn))

unfoldable pub check_fqbn : Text → Except Text
unfolding fqbn_pattern
check_fqbn fqbn = if fqbn_pattern fqbn then ok fqbn else raised (tool unknown_board)

-- What is used of the file system: `Path(...).expanduser().resolve()`, the parts of the path that
-- results, whether it is a directory, and whether `Path(...).expanduser()` is a symbolic link.
pub record Paths : Type 0 where
  pub resolve : Text → Text
  pub parts : Text → List Text
  pub is_dir : Text → Bool
  pub is_symlink : Text → Bool

-- `path.relative_to(root)` has a value: the parts of the root come first.
unfoldable pub is_relative : List Text → List Text → Bool
is_relative parts [] = true
is_relative [] (r ∷ root) = false
is_relative (p ∷ parts) (r ∷ root) = text_eq p r && is_relative parts root

-- The loop over the roots.
unfoldable pub under_a_root : Paths → Text → List Text → Except Text
unfolding is_relative
under_a_root paths path [] = raised (tool sketch_not_allowed)
under_a_root paths path (root ∷ roots) =
    let later = under_a_root paths path roots in
    if is_relative (paths.parts path) (paths.parts (paths.resolve root)) then ok path else later

abbrev allowed_roots : Option (List Text) → List Text
allowed_roots none = []
allowed_roots (some roots) = roots

unfoldable pub resolve_sketch_dir : Paths → Text → Option (List Text) → Except Text
unfolding under_a_root
resolve_sketch_dir paths sketch_dir roots =
    let path = paths.resolve sketch_dir in
    if not (paths.is_dir path)
    then raised (tool tool_missing)
    else under_a_root paths path (allowed_roots roots)
