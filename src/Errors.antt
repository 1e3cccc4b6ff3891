-- ===== src/Errors.antt =====
-- mcp/omarchy_hardware/errors.py: the codes of `ToolError`. The message and the hint, which are
-- text for the user, are left out.
use mathlib.Core.Path.{◌≡◌, refl}

pub data ErrorCode : Type 0 where
  permission_denied_uucp port_not_allowed port_not_found port_busy session_not_found : ErrorCode
  baud_mismatch serial_error unknown_adapter sketch_not_allowed write_too_large : ErrorCode
  rate_limited tool_missing host_not_allowed pin_not_allowed ssh_failed : ErrorCode
  flash_disabled flash_unconfirmed unconfirmed invalid_token unknown_board : ErrorCode
  board_mismatch audit_log_failed artifact_invalid config_error unsupported_operation : ErrorCode
  insecure_transport invalid_argument service_unreachable service_error : ErrorCode
  profile_not_found journal_unavailable : ErrorCode

-- A value, or the code of the `ToolError` that was raised.
pub data Result {ℓ} (A : Type ℓ) : Type ℓ where
  ok : A → Result A
  err : ErrorCode → Result A

module _ {ℓ κ} {A : Type ℓ} {B : Type κ} where
  infixl 5 ◌>>=◌
  -- What follows a call that may raise.
  abbrev pub ◌>>=◌ : Result A → (A → Result B) → Result B
  (err code) >>= next = err code
  (ok value) >>= next = next value

  infixl 5 ◌>>◌
  abbrev pub ◌>>◌ : Result A → Result B → Result B
  (err code) >> next = err code
  (ok value) >> next = next

-- Inversion of a success.
pub >>=-ok :
    {A B : Type 0} (m : Result A) (f : A → Result B) (b : B)
    → (m >>= f) ≡ ok b
    → (a : A) × (m ≡ ok a) × (f a ≡ ok b)
>>=-ok (ok a) f b h = (a, refl, h)
>>=-ok (err e) f b h = cc

pub >>-ok :
    {B : Type 0} (m : Result (Unit {0})) (k : Result B) (b : B)
    → (m >> k) ≡ ok b
    → (m ≡ ok tt) × (k ≡ ok b)
>>-ok (ok a) k b h = (refl, h)
>>-ok (err e) k b h = cc
