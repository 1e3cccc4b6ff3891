-- ===== src/Flash/Token.antt =====
-- `mint_token` and `verify_token` of mcp/omarchy_hardware/flash.py, on a clock in ticks.
use omarchy_hardware.Common.{
  ℕ, ◌+◌, ◌*◌, ◌/◌, ◌==◌, ltb, Option, none, some, List, [], ◌∷◌, ◌++◌, if◌then◌else◌,
}
use omarchy_hardware.Common.Text.{Text, text_eq}
use omarchy_hardware.Errors.{Result, ok, err, invalid_token}

-- What a token is for.
pub record Upload : Type 0 where
  pub sketch_dir : Text
  pub fqbn : Text
  pub serial : Text
  pub artifact_path : Text
  pub artifact_digest : Text

-- What the tokens use of Python: the JSON bytes of the payload, HMAC-SHA-256 under the secret of the
-- process, base 64 without and with its padding, and the decimal text of a number. `decode64` is
-- `none` for what raises `binascii.Error`, `parse_int` for what `int` refuses and for a negative
-- number, which no token of this process has.
pub record Python : Type 0 where
  pub ticks_per_second : ℕ
  pub payload : Upload → (expiry : ℕ) → List ℕ
  pub hmac : List ℕ → List ℕ
  pub encode64 : List ℕ → Text
  pub decode64 : Text → Option (List ℕ)
  pub decimal : ℕ → Text
  pub parse_int : Text → Option ℕ

abbrev pub token_ttl_seconds : ℕ
token_ttl_seconds = 300

unfoldable pub mint_token : Python → Upload → (now : ℕ) → Text
mint_token py upload now =
    let expiry = now / py.ticks_per_second + token_ttl_seconds in
    py.encode64 (py.hmac (py.payload upload expiry)) ++ (b'.' ∷ py.decimal expiry)

-- `token.rsplit(".", 1)`: what stands before and after the last dot.
unfoldable pub split_last : Text → Option (Text × Text)
split_last [] = none
split_last (c ∷ s) = elim (split_last s) [
  | some (before, after) ↦ some (c ∷ before, after)
  | none ↦ if c == b'.' then some ([], s) else none
]

-- What a check of a token comes to: its result, or `binascii.Error`, which is not caught.
pub data Verified : Type 0 where
  checked : Result (Unit {0}) → Verified
  binascii_error : Verified

unfoldable pub compare_digest : List ℕ → Option (List ℕ) → Verified
compare_digest expected none = binascii_error
compare_digest expected (some provided) =
    checked (if text_eq expected provided then ok tt else err invalid_token)

unfoldable pub check_signature : Python → Upload → (now : ℕ) → Text → Option ℕ → Verified
unfolding compare_digest
check_signature py upload now signature none = checked (err invalid_token)
check_signature py upload now signature (some expiry) =
    if ltb (expiry * py.ticks_per_second) now
    then checked (err invalid_token)
    else compare_digest (py.hmac (py.payload upload expiry)) (py.decode64 signature)

unfoldable pub check_parts : Python → Upload → (now : ℕ) → Option (Text × Text) → Verified
unfolding check_signature
check_parts py upload now none = checked (err invalid_token)
check_parts py upload now (some (signature, expiry_text)) =
    check_signature py upload now signature (py.parse_int expiry_text)

unfoldable pub verify_token : Python → Text → Upload → (now : ℕ) → Verified
unfolding check_parts split_last
verify_token py token upload now = check_parts py upload now (split_last token)
