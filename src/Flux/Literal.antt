-- ===== src/Flux/Literal.antt =====
-- `flux_string` of mcp/omarchy_hardware/ming.py, and how a literal is read back.
use omarchy_hardware.Common.{ℕ, ◌==◌, ◌&&◌, [], ◌∷◌, ◌++◌, if◌then◌else◌}
use omarchy_hardware.Common.Text.{Text}

-- `s.replace(c, t)` for one character.
unfoldable pub replace_char : ℕ → Text → Text → Text
replace_char c t [] = []
replace_char c t (a ∷ s) = let rest = replace_char c t s in if a == c then t ++ rest else a ∷ rest

-- `s.replace("${", "\\${")`
unfoldable pub escape_dollar : Text → Text
escape_dollar [] = []
escape_dollar (a ∷ []) = a ∷ []
escape_dollar (a ∷ b ∷ s) =
    let apart = escape_dollar s in
    let rest = escape_dollar (b ∷ s) in
    if a == b'$' && b == b'{' then b'\\' ∷ a ∷ b ∷ apart else a ∷ rest

unfoldable pub escaped : Text → Text
unfolding replace_char escape_dollar
escaped value =
    escape_dollar
      (replace_char b'"' (b'\\' ∷ b'"' ∷ []) (replace_char b'\\' (b'\\' ∷ b'\\' ∷ []) value))

unfoldable pub flux_string : Text → Text
unfolding escaped
flux_string value = b'"' ∷ (escaped value ++ (b'"' ∷ []))
