-- ===== src/Settings/Outcome.antt =====
-- What loading the settings of mcp/omarchy_hardware/config.py comes to.
use mathlib.Core.Path.{subst}
use omarchy_hardware.Common.{◌≡◌, refl, Bool, true, false, List, [], ◌∷◌}

-- A value, a `ConfigError`, or Python's `TypeError`.
pub data Outcome {ℓ} (A : Type ℓ) : Type ℓ where
  ok : A → Outcome A
  config_error : Outcome A
  type_error : Outcome A

module _ {ℓ κ} {A : Type ℓ} {B : Type κ} where
  infixl 5 ◌>>=◌
  abbrev pub ◌>>=◌ : Outcome A → (A → Outcome B) → Outcome B
  config_error >>= next = config_error
  type_error >>= next = type_error
  (ok value) >>= next = next value

  infixl 5 ◌>>◌
  abbrev pub ◌>>◌ : Outcome A → Outcome B → Outcome B
  config_error >> next = config_error
  type_error >> next = type_error
  (ok value) >> next = next

-- `if not test: raise ConfigError(...)`
abbrev pub require : Bool → Outcome (Unit {0})
require true = ok tt
require false = config_error

-- A loop that builds a list, and stops at the first error.
unfoldable pub each : {A B : Type 0} → (A → Outcome B) → List A → Outcome (List B)
each f [] = ok []
each f (x ∷ xs) = do y ← f x; ys ← each f xs; ok (y ∷ ys)

-- Inversion of a success.
pub >>=-ok :
    {A B : Type 0} (m : Outcome A) (f : A → Outcome B) {b : B}
    → (m >>= f) ≡ ok b
    → (a : A) × (m ≡ ok a) × (f a ≡ ok b)
>>=-ok (ok a) f h = (a, refl, h)
>>=-ok config_error f h = cc
>>=-ok type_error f h = cc

pub require-ok :
    {B : Type 0} (test : Bool) (k : Outcome B) {b : B}
    → (require test >> k) ≡ ok b
    → (test ≡ true) × (k ≡ ok b)
require-ok true k h = (refl, h)
require-ok false k h = cc

-- What a success ensures of its value.
pub data Ensures {A : Type 0} (P : A → Type 0) : Outcome A → Type 0 where
  holds : {a : A} → P a → Ensures P (ok a)
  refused : Ensures P config_error
  mistyped : Ensures P type_error

module _ {A B : Type 0} {P : B → Type 0} where
  pub then_ensured :
      {Q : A → Type 0} {m : Outcome A} {f : A → Outcome B}
      → Ensures Q m
      → ((a : A) → Q a → Ensures P (f a))
      → Ensures P (m >>= f)
  then_ensured (holds q) k = k _ q
  then_ensured refused k = refused
  then_ensured mistyped k = mistyped

  pub then_any :
      (m : Outcome A) {f : A → Outcome B} → ((a : A) → Ensures P (f a)) → Ensures P (m >>= f)
  then_any (ok a) k = k a
  then_any config_error k = refused
  then_any type_error k = mistyped

pub then_next :
    {A B : Type 0} {P : B → Type 0} (m : Outcome A) {k : Outcome B}
    → (A → Ensures P k)
    → Ensures P (m >> k)
then_next (ok a) k = k a
then_next config_error k = refused
then_next type_error k = mistyped

pub then_next_ensured :
    {A B : Type 0} {P : B → Type 0} {Q : A → Type 0} {m : Outcome A} {k : Outcome B}
    → Ensures Q m
    → ((a : A) → Q a → Ensures P k)
    → Ensures P (m >> k)
then_next_ensured (holds q) k = k _ q
then_next_ensured refused k = refused
then_next_ensured mistyped k = mistyped

pub then_required :
    {B : Type 0} {P : B → Type 0} (test : Bool) {k : Outcome B}
    → (test ≡ true → Ensures P k)
    → Ensures P (require test >> k)
then_required true h = h refl
then_required false h = refused

pub Ensures-ok :
    {A : Type 0} {P : A → Type 0} {m : Outcome A} {a : A} → Ensures P m → m ≡ ok a → P a
Ensures-ok {P = P} (holds p) e = subst P (cc) p
Ensures-ok refused e = cc
Ensures-ok mistyped e = cc

pub require-Ensures :
    {P : Unit {0} → Type 0} (test : Bool) → (test ≡ true → P tt) → Ensures P (require test)
require-Ensures true h = holds (h refl)
require-Ensures false h = refused
