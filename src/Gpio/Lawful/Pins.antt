-- ===== src/Gpio/Lawful/Pins.antt =====
-- The operations of gpio_ssh.py keep what tolerates the commands that change nothing.
use mathlib.Core.Path.{subst}
use omarchy_hardware.Common.{
  ℕ, ◌≡◌, refl, sym, ◌==◌, not, ◌&&◌, In, Bool, true, false, Bool-cases, Option, none, some, List,
  [], ◌∷◌, inl, inr, if◌then◌else◌,
}
use omarchy_hardware.Common.Text.{Text, codes, contains, contains→In}
use omarchy_hardware.Common.Dict.{Dict, lookup, insert}
use omarchy_hardware.Config.{Config}
use omarchy_hardware.Errors.{Result, host_not_allowed, ssh_failed, tool_missing}
use omarchy_hardware.Policy.{check_host, listed_host}
use omarchy_hardware.Gpio.Remote.{
  Event, sent, Answer, replied, timed_out, no_client, Found, Session, M, ◌>>=◌, ◌>>◌, pure, raise,
  choose, gets, emit, answered, Completed, completed, run, ssh_error_status, probe_tool, keep_found,
  probed, cached, probe_tools, detect_backend,
}
use omarchy_hardware.Gpio.Pins.{Pin, Python, succeeded, list_pins, only_pin, read_pin}
use omarchy_hardware.Gpio.Lawful.{
  IsBackend, pinctrl, raspi_gpio, IsKnown, IsRead, probes, lists, reads, IsKnown-lookup,
}
use omarchy_hardware.Gpio.Lawful.Ensures.{
  Body, gives, Ensures, Any, Ensures-pure, Ensures-raise, Ensures-choose, Ensures-lift,
  Ensures-emit, Ensures-gets, Ensures-bind,
}

pub record Tolerant (config : Config) (B : Body) : Type 0 where
  pub known : {d : Dict Text} {l : List Event} → B d l → IsKnown d
  pub read :
      {d : Dict Text} {l : List Event} {host : Text} {words : List Text}
      → B d l
      → In host config.pi_hosts
      → IsRead words
      → B d (sent host words ∷ l)
  pub found :
      {d : Dict Text} {l : List Event} (host : Text) {backend : Text}
      → B d l
      → IsBackend backend
      → B (insert host backend d) l

pub listed_host-In :
    (hosts : List Text) (host host' : Text)
    → listed_host hosts host ≡ Result.ok host'
    → (host' ≡ host) × In host hosts
unfolding listed_host
listed_host-In [] host host' e = cc
listed_host-In (x ∷ xs) host host' e = elim (Bool-cases (contains (x ∷ xs) host)) [
  | inl listed ↦
      let one : Result.ok host ≡ Result.ok host' = rw listed at e in
      (cc, contains→In (x ∷ xs) host listed)
  | inr unlisted ↦ let no : Result.err host_not_allowed ≡ Result.ok host' = rw unlisted at e in cc
]

check_host-In :
    (host host' : Text) (config : Config)
    → check_host host config none ≡ Result.ok host'
    → (host' ≡ host) × In host config.pi_hosts
unfolding check_host
check_host-In host host' config h = listed_host-In config.pi_hosts host host' h

module _ {B : Body} where
  Ensures-completed : (a : Answer) → Ensures B B Any (completed a)
  Ensures-completed (replied status stdout) = Ensures-pure tt
  Ensures-completed timed_out = Ensures-raise ssh_failed
  Ensures-completed no_client = Ensures-raise tool_missing

  Ensures-answered : Ensures B B Any answered
  Ensures-answered = record { at = λ s b. gives b tt }

  -- One command, when it may be sent.
  pub run-Ensures :
      (config : Config) (host : Text) (words : List Text)
      → ((d : Dict Text) (l : List Event)
          → B d l
          → In host config.pi_hosts
          → B d (sent host words ∷ l))
      → Ensures B B Any (run config host words)
  unfolding run
  run-Ensures config host words h =
      Ensures-bind (λ host. emit (sent host words) >> (answered >>= completed))
        (Ensures-lift {Q = λ host'. (host' ≡ host) × In host config.pi_hosts}
          (check_host host config none) (λ host'. check_host-In host host' config))
        λ host' e.
          subst (λ x. Ensures B B Any (emit (sent x words) >> (answered >>= completed))) (sym e.0)
            (Ensures-bind (λ _. answered >>= completed)
              (Ensures-emit (sent host words) λ d l b. h d l b e.1)
              λ _ _. Ensures-bind completed Ensures-answered λ a _. Ensures-completed a)

module _ {config : Config} {B : Body} (tol : Tolerant config B) where
  read-Ensures :
      (host : Text) (words : List Text) → IsRead words → Ensures B B Any (run config host words)
  read-Ensures host words r = run-Ensures config host words λ d l b i. tol.read b i r

  probe_tool-Ensures :
      (is_blank : Text → Bool) (host name : Text)
      → Ensures B B Any (probe_tool config is_blank host name)
  unfolding probe_tool
  probe_tool-Ensures is_blank host name =
      Ensures-bind
        (λ (result : Completed).
          choose (result.status == ssh_error_status) (raise ssh_failed)
            (pure (result.status == 0 && not (is_blank result.stdout))))
        (read-Ensures host _ (probes name))
        λ result _.
          Ensures-choose (result.status == ssh_error_status) (Ensures-raise ssh_failed)
            (Ensures-pure tt)

  keep_found-Ensures : (host : Text) (found : Found) → Ensures B B Any (keep_found host found)
  keep_found-Ensures host found = record {
    at = λ s b. gives (kept found.pinctrl found.raspi_gpio s b) tt;
  }
    where
      kept :
          (p r : Bool) (s : Session)
          → B s.backends s.log
          → B
              (if p
                then insert host (codes "pinctrl") s.backends
                else if r
                then insert host (codes "raspi-gpio") s.backends
                else s.backends)
              s.log
      kept true r s b = tol.found host b pinctrl
      kept false true s b = tol.found host b raspi_gpio
      kept false false s b = b

  probed-Ensures :
      (is_blank : Text → Bool) (host : Text) → Ensures B B Any (probed config is_blank host)
  probed-Ensures is_blank host =
      Ensures-bind _ (probe_tool-Ensures is_blank host (codes "pinctrl")) λ p _.
        Ensures-bind _ (probe_tool-Ensures is_blank host (codes "raspi-gpio")) λ r _.
          Ensures-bind _ (probe_tool-Ensures is_blank host (codes "vcgencmd"))
            λ v _. keep_found-Ensures host (record { pinctrl = p; raspi_gpio = r; vcgencmd = v })

  cached-Ensures :
      {A : Type 0} {Q : A → Type 0} (o : Option A) (m : M A)
      → ((a : A) → o ≡ some a → Q a)
      → Ensures B B Q m
      → Ensures B B Q (cached o m)
  cached-Ensures none m h t = t
  cached-Ensures (some a) m h t = Ensures-pure (h a refl)

  probe_tools-Ensures :
      (is_blank : Text → Bool) (host : Text) → Ensures B B Any (probe_tools config is_blank host)
  unfolding probe_tools
  probe_tools-Ensures is_blank host =
      Ensures-bind (λ found. cached found (probed config is_blank host))
        (Ensures-gets {Q = Any} (λ s. lookup host s.tools) (λ s b. tt))
        λ found _.
          cached-Ensures found (probed config is_blank host) (λ a e. tt)
            (probed-Ensures is_blank host)

  -- The backend that is kept for a host, if there is one.
  kept-Ensures :
      (host : Text) (m : M Text)
      → Ensures B B IsBackend m
      → Ensures B B IsBackend
          (gets (λ (s : Session). lookup host s.backends) >>= λ backend. cached backend m)
  kept-Ensures host m t =
      Ensures-bind {Q = λ o. (backend : Text) → o ≡ some backend → IsBackend backend}
        (λ backend. cached backend m)
        (record {
          at = λ s b. gives b λ backend e. IsKnown-lookup host backend s.backends (tol.known b) e;
        })
        λ backend h. cached-Ensures backend m h t

  pub detect_backend-Ensures :
      (is_blank : Text → Bool) (host : Text)
      → Ensures B B IsBackend (detect_backend config is_blank host)
  unfolding detect_backend
  detect_backend-Ensures is_blank host =
      Ensures-choose (contains config.jetson_hosts host) (Ensures-raise host_not_allowed) (
        kept-Ensures host _ (
          Ensures-bind _ (probe_tools-Ensures is_blank host)
            λ _ _. kept-Ensures host (raise tool_missing) (Ensures-raise tool_missing)))

  pub succeeded-Ensures : (result : Completed) → Ensures B B Any (succeeded result)
  succeeded-Ensures result =
      Ensures-choose (result.status == 0) (Ensures-pure tt) (Ensures-raise ssh_failed)

  pub list_pins-Ensures : (py : Python) (host : Text) → Ensures B B Any (list_pins py config host)
  unfolding list_pins
  list_pins-Ensures py host = Ensures-bind _ (detect_backend-Ensures py.is_blank host) λ backend k.
      Ensures-bind _ (read-Ensures host _ (lists k))
        λ result _. Ensures-bind _ (succeeded-Ensures result) λ stdout _. Ensures-pure tt

  only_pin-Ensures : (py : Python) (pins : List Pin) → Ensures B B Any (only_pin py config pins)
  only_pin-Ensures py [] = Ensures-raise ssh_failed
  only_pin-Ensures py (p ∷ []) = Ensures-pure tt
  only_pin-Ensures py (p ∷ q ∷ ps) = Ensures-raise ssh_failed

  pub read_pin-Ensures :
      (py : Python) (host : Text) (bcm : ℕ) → Ensures B B Any (read_pin py config host bcm)
  unfolding read_pin
  read_pin-Ensures py host bcm =
      Ensures-bind _ (detect_backend-Ensures py.is_blank host) λ backend k.
        Ensures-bind _ (read-Ensures host _ (reads bcm k))
          λ result _. Ensures-bind _ (succeeded-Ensures result) λ stdout _. only_pin-Ensures py _
