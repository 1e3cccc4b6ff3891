-- ===== src/Gpio/Lawful/Ensures.antt =====
-- What a call leaves of the backends that are kept and of the log, and what holds of its result.
use omarchy_hardware.Common.{◌≡◌, refl, Bool, true, false, List, ◌∷◌}
use omarchy_hardware.Common.Text.{Text}
use omarchy_hardware.Common.Dict.{Dict}
use omarchy_hardware.Errors.{ErrorCode, Result}
use omarchy_hardware.Gpio.Remote.{
  Event, Outcome, ok, err, unexpected, Session, M, then_do, ◌>>=◌, pure, raise, choose, lift, gets,
  emit,
}

abbrev pub Body : Type 1
Body = Dict Text → List Event → Type 0

-- `B` holds of the session afterwards, and `Q` of the result if there is one.
pub data After {A : Type 0} (B : Body) (Q : A → Type 0) : Outcome A × Session → Type 0 where
  gives : {a : A} {s : Session} → B s.backends s.log → Q a → After B Q (ok a, s)
  fails : {e : ErrorCode} {s : Session} → B s.backends s.log → After B Q (err e, s)
  breaks : {s : Session} → B s.backends s.log → After B Q (unexpected, s)

pub record Ensures {A : Type 0} (B C : Body) (Q : A → Type 0) (m : M A) : Type 0 where
  pub at : (s : Session) → B s.backends s.log → After C Q (m s)

abbrev pub Any : {A : Type 0} → A → Type 0
Any a = Unit {0}

pub Ensures-emit :
    {B C : Body} (e : Event)
    → ((d : Dict Text) (l : List Event) → B d l → C d (e ∷ l))
    → Ensures B C Any (emit e)
Ensures-emit e h = record { at = λ s b. gives (h s.backends s.log b) tt }

module _ {A : Type 0} {B : Body} {Q : A → Type 0} where
  pub Ensures-pure : {a : A} → Q a → Ensures B B Q (pure a)
  Ensures-pure q = record { at = λ s b. gives b q }

  pub Ensures-gets :
      (f : Session → A) → ((s : Session) → B s.backends s.log → Q (f s)) → Ensures B B Q (gets f)
  Ensures-gets f h = record { at = λ s b. gives b (h s b) }

  pub Ensures-raise : (e : ErrorCode) → Ensures B B Q (raise e)
  Ensures-raise e = record { at = λ s b. fails b }

  pub Ensures-choose :
      (b : Bool) {m k : M A} → Ensures B B Q m → Ensures B B Q k → Ensures B B Q (choose b m k)
  Ensures-choose true t u = record { at = λ s b. t.at s b }
  Ensures-choose false t u = record { at = λ s b. u.at s b }

  pub Ensures-lift : (r : Result A) → ((a : A) → r ≡ Result.ok a → Q a) → Ensures B B Q (lift r)
  Ensures-lift (Result.ok a) h = record { at = λ s b. gives b (h a refl) }
  Ensures-lift (Result.err e) h = record { at = λ s b. fails b }

module _ {A A' : Type 0} {B C : Body} {Q : A → Type 0} {R : A' → Type 0} where
  pub then_do-After :
      (f : A → M A') {p : Outcome A × Session}
      → After B Q p
      → ((a : A) → Q a → Ensures B C R (f a))
      → ((d : Dict Text) (l : List Event) → B d l → C d l)
      → After C R (then_do f p)
  then_do-After f (gives {a} {s} b q) t w = (t a q).at s b
  then_do-After f (fails {e} {s} b) t w = fails (w s.backends s.log b)
  then_do-After f (breaks {s} b) t w = breaks (w s.backends s.log b)

  -- What follows may end in a weaker state.
  pub Ensures-into :
      {D : Body} {m : M A} (f : A → M A')
      → Ensures D B Q m
      → ((a : A) → Q a → Ensures B C R (f a))
      → ((d : Dict Text) (l : List Event) → B d l → C d l)
      → Ensures D C R (m >>= f)
  Ensures-into f t u w = record { at = λ s b. then_do-After f (t.at s b) u w }

module _ {A A' : Type 0} {B : Body} {Q : A → Type 0} {R : A' → Type 0} where
  pub Ensures-bind :
      {m : M A} (f : A → M A')
      → Ensures B B Q m
      → ((a : A) → Q a → Ensures B B R (f a))
      → Ensures B B R (m >>= f)
  Ensures-bind f t u = Ensures-into f t u (λ d l b. b)
