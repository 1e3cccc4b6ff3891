-- ===== src/Gpio/Pins.antt =====
-- `list_pins`, `read_pin`, `set_mode` and `write_pin` of mcp/omarchy_hardware/gpio_ssh.py.
use omarchy_hardware.Common.{
  ℕ, ◌==◌, not, ◌||◌, keep, Bool, Option, none, some, List, [], ◌∷◌, if◌then◌else◌,
}
use omarchy_hardware.Common.Text.{Text, codes}
use omarchy_hardware.Common.Dict.{Dict, lookup}
use omarchy_hardware.Config.{Config}
use omarchy_hardware.Errors.{pin_not_allowed, ssh_failed}
use omarchy_hardware.Gpio.Remote.{M, ◌>>=◌, pure, raise, choose, Completed, run, detect_backend}
use omarchy_hardware.Settings.Urls.{decimal}

-- A line of `pinctrl` or `raspi-gpio`.
pub record Pin : Type 0 where
  pub bcm : ℕ
  pub mode : Text
  pub pull : Option Text
  pub drive : Option Text
  pub level : ℕ
  pub name : Option Text

-- What is used of Python: whether a text is white space only, and `_parse_pins`, the regular
-- expressions for the output of the two programs.
pub record Python : Type 0 where
  pub is_blank : Text → Bool
  pub parse_pins : (backend : Text) → Text → List Pin

-- `if result.returncode != 0: raise _fail(host, result)`
abbrev pub succeeded : Completed → M Text
succeeded result = choose (result.status == 0) (pure result.stdout) (raise ssh_failed)

module _ (py : Python) (config : Config) where
  unfoldable pub list_pins : Text → M (List Pin)
  unfolding run
  list_pins host = detect_backend config py.is_blank host >>= λ backend.
      run config host (backend ∷ codes "get" ∷ []) >>= λ result.
      succeeded result >>= λ stdout. pure (py.parse_pins backend stdout)

  abbrev pub only_pin : List Pin → M Pin
  only_pin (pin ∷ []) = pure pin
  only_pin _ = raise ssh_failed

  unfoldable pub read_pin : Text → ℕ → M Pin
  unfolding run
  read_pin host bcm = detect_backend config py.is_blank host >>= λ backend.
      run config host (backend ∷ codes "get" ∷ decimal bcm ∷ []) >>= λ result.
      succeeded result >>= λ stdout.
      only_pin (keep (λ pin. pin.bcm == bcm) (py.parse_pins backend stdout))

-- `MODES`
abbrev pub modes : Dict (List Text)
modes =
    (codes "in", codes "ip" ∷ [])
    ∷ (codes "out", codes "op" ∷ [])
    ∷ (codes "pull_up", codes "ip" ∷ codes "pu" ∷ [])
    ∷ (codes "pull_down", codes "ip" ∷ codes "pd" ∷ [])
    ∷ (codes "none", codes "ip" ∷ codes "pn" ∷ [])
    ∷ []

abbrev pub set_words : Text → ℕ → List Text → List Text
set_words backend bcm flags = backend ∷ codes "set" ∷ decimal bcm ∷ flags

abbrev pub level_flags : ℕ → List Text
level_flags level = codes "op" ∷ (if level == 0 then codes "dl" else codes "dh") ∷ []

pub record Wrote : Type 0 where
  pub previous_level : ℕ
  pub pin : Pin

module _ (py : Python) (config : Config) where
  abbrev pub set_flags : Text → ℕ → Option (List Text) → M Pin
  set_flags host bcm none = raise pin_not_allowed
  set_flags host bcm (some flags) = detect_backend config py.is_blank host >>= λ backend.
      run config host (set_words backend bcm flags) >>= λ result.
      succeeded result >>= λ _. read_pin py config host bcm

  unfoldable pub set_mode : Text → ℕ → Text → M Pin
  unfolding run read_pin
  set_mode host bcm mode = set_flags host bcm (lookup mode modes)

  unfoldable pub write_pin : Text → ℕ → ℕ → M Wrote
  unfolding run read_pin
  write_pin host bcm level = choose (not (level == 0 || level == 1)) (raise pin_not_allowed) (
      detect_backend config py.is_blank host >>= λ backend.
      read_pin py config host bcm >>= λ previous.
      run config host (set_words backend bcm (level_flags level)) >>= λ result.
      succeeded result >>= λ _. read_pin py config host bcm >>= λ pin.
      pure (record { previous_level = previous.level; pin = pin }))
