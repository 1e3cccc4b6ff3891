-- ===== src/Gpio/Lawful/Tools.antt =====
-- The tools keep the log lawful.
use omarchy_hardware.Common.{
  ℕ, ◌≡◌, sym, ◌∙◌, ◌==◌, any, any→In, In, Bool, Bool-cases, Option, none, some, List, [], ◌∷◌, inl,
  inr, ==_iff,
}
use mathlib.Core.Path.{subst}
use omarchy_hardware.Common.Text.{Text}
use omarchy_hardware.Config.{Config}
use omarchy_hardware.Errors.{Result, unconfirmed, pin_not_allowed, ErrorCode}
use omarchy_hardware.Policy.{check_host, check_pin}
use omarchy_hardware.Gpio.Remote.{Operation, Outcome, Session, M, ◌>>=◌, ◌>>◌, lift}
use omarchy_hardware.Gpio.Pins.{Python, set_mode, write_pin}
use omarchy_hardware.Gpio.Tools.{
  resolve_host, charge_pin, audited, gpio_list_pins, gpio_read_pin, cleared, gpio_set_mode,
  gpio_write_pin, Call, listing, reading, setting, writing, after_call, Moment, at_moment,
  run_calls,
}
use omarchy_hardware.Gpio.Lawful.{IsKnown, Lawful}
use omarchy_hardware.Gpio.Lawful.Ensures.{
  After, gives, fails, breaks, Ensures, Any, Ensures-pure, Ensures-raise, Ensures-choose,
  Ensures-lift, Ensures-bind,
}
use omarchy_hardware.Gpio.Lawful.Pins.{listed_host-In, list_pins-Ensures, read_pin-Ensures}
use omarchy_hardware.Gpio.Lawful.Audited.{
  Sound, Within, Sound-Tolerant, Allowed, set_mode-Ensures, write_pin-Ensures, audited-Ensures,
  charge_pin-Ensures,
}

resolve_host-In :
    (config : Config) (host : Option Text) (target : Text)
    → resolve_host config host config.pi_hosts ≡ Result.ok target
    → In target config.pi_hosts
unfolding resolve_host check_host
resolve_host-In config (some host) target h =
    let (same, i) = listed_host-In config.pi_hosts host target h in
    subst (λ x. In x config.pi_hosts) (sym same) i
resolve_host-In config none target h = go config.pi_hosts h
  where
    go : (hosts : List Text) → resolve_host config none hosts ≡ Result.ok target → In target hosts
    go [] e = cc
    go (x ∷ []) e = let same : x ≡ target = cc in inl (sym same)
    go (x ∷ y ∷ hosts) e = cc

check_pin-In :
    (bcm pin : ℕ) (config : Config)
    → check_pin bcm config ≡ Result.ok pin
    → In pin config.pi_allowed_pins
unfolding check_pin
check_pin-In bcm pin config h = elim (Bool-cases (any (λ p. p == bcm) config.pi_allowed_pins)) [
  | inl there ↦
      let (p, i, e) = any→In (λ p. p == bcm) config.pi_allowed_pins there in
      let one : Result.ok bcm ≡ Result.ok pin = rw there at h in
      let same : p ≡ pin = (==_iff p bcm).0 e ∙ ok-injective bcm pin one in
      subst (λ q. In q config.pi_allowed_pins) same i
  | inr missing ↦
      let no : Result.err pin_not_allowed ≡ Result.ok pin = rw missing at h in absurd (clash no)
]
  where
    clash : {A : Type 0} {e : ErrorCode} {a : A} → Result.err e ≡ Result.ok a → ⊥
    clash e = cc

    ok-injective : (a b : ℕ) → Result.ok a ≡ Result.ok b → a ≡ b
    ok-injective a b e = cc

module _ (py : Python) (config : Config) where
  host-Ensures :
      (host : Option Text)
      → Ensures
          (Sound config)
          (Sound config)
          (λ target. In target config.pi_hosts)
          (lift (resolve_host config host config.pi_hosts))
  host-Ensures host =
      Ensures-lift (resolve_host config host config.pi_hosts) (resolve_host-In config host)

  pin-Ensures :
      (bcm : ℕ)
      → Ensures
          (Sound config)
          (Sound config)
          (λ pin. In pin config.pi_allowed_pins)
          (lift (check_pin bcm config))
  pin-Ensures bcm = Ensures-lift (check_pin bcm config) λ pin. check_pin-In bcm pin config

  cleared-Ensures :
      (confirm : Bool) (bcm : ℕ) (host : Option Text) (valid : Bool)
      → Ensures
          (Sound config)
          (Sound config)
          (Allowed config)
          (cleared py config confirm bcm host valid)
  cleared-Ensures confirm bcm host valid =
      Ensures-bind _
        (Ensures-choose {Q = Any} confirm (Ensures-pure tt) (Ensures-raise unconfirmed))
        λ _ _. Ensures-bind _ (host-Ensures host) λ target i.
          Ensures-bind _ (pin-Ensures bcm) λ pin j.
            Ensures-choose valid (Ensures-pure (record { on_host = i; on_pin = j }))
              (Ensures-raise pin_not_allowed)

  changes :
      {A : Type 0} (confirm : Bool) (bcm : ℕ) (host : Option Text) (valid : Bool)
      (operation : Operation → M A)
      → ((op : Operation)
          → Allowed config op
          → Ensures (Within config op) (Within config op) Any (operation op))
      → Ensures (Sound config) (Sound config) Any (
          cleared py config confirm bcm host valid >>= λ op.
          charge_pin config op >> audited op (operation op))
  changes confirm bcm host valid operation t =
      Ensures-bind _ (cleared-Ensures confirm bcm host valid) λ op allowed.
        Ensures-bind _ (charge_pin-Ensures config op)
          λ _ _. audited-Ensures config op (operation op) (t op allowed)

  left :
      {A : Type 0} (m : M A) (s : Session)
      → Ensures (Sound config) (Sound config) Any m
      → Sound config s.backends s.log
      → Sound config (m s).1.backends (m s).1.log
  left {A = A} m s t b = go (t.at s b)
    where
      go :
          {p : Outcome A × Session} → After (Sound config) Any p → Sound config p.1.backends p.1.log
      go (gives b q) = b
      go (fails b) = b
      go (breaks b) = b

  after_call-Sound :
      (call : Call) (s : Session)
      → Sound config s.backends s.log
      → Sound config (after_call py config call s).backends (after_call py config call s).log
  unfolding after_call gpio_list_pins gpio_read_pin gpio_set_mode gpio_write_pin
  after_call-Sound (listing host) s b =
      left (gpio_list_pins py config host) s
        (Ensures-bind _ (host-Ensures host)
          λ target _. list_pins-Ensures (Sound-Tolerant config) py target)
        b
  after_call-Sound (reading bcm host) s b =
      left (gpio_read_pin py config bcm host) s
        (Ensures-bind _ (host-Ensures host) λ target _.
          Ensures-bind _ (pin-Ensures bcm)
            λ pin _. read_pin-Ensures (Sound-Tolerant config) py target pin)
        b
  after_call-Sound (setting bcm mode host confirm) s b =
      left (gpio_set_mode py config bcm mode host confirm) s
        (changes confirm bcm host _ (λ op. set_mode py config op.host op.bcm mode)
          λ op allowed. set_mode-Ensures config op allowed py mode)
        b
  after_call-Sound (writing bcm level host confirm) s b =
      left (gpio_write_pin py config bcm level host confirm) s
        (changes confirm bcm host _ (λ op. write_pin py config op.host op.bcm level)
          λ op allowed. write_pin-Ensures config op allowed py level)
        b

-- If the backends that are kept are the two known programs and the log of events is lawful,
-- the log is lawful after any calls of the four GPIO tools, whatever the hosts, the clock and
-- the audit log answer: every command goes to a configured host, and is a probe, a read, or a
-- change of an allowed pin by one of the two programs, where the latest record in the audit
-- log is the one that opens this change.
pub run_calls-Lawful :
    (py : Python) (config : Config) (calls : List (Moment × Call)) (s : Session)
    → IsKnown s.backends
    → Lawful config s.log
    → Lawful config (run_calls py config calls s).log
unfolding run_calls
run_calls-Lawful py config [] s k l = l
run_calls-Lawful py config ((m, call) ∷ calls) s k l =
    let (k', l') = after_call-Sound py config call (at_moment m s) (k, l) in
    run_calls-Lawful py config calls (after_call py config call (at_moment m s)) k' l'
