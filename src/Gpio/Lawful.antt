-- ===== src/Gpio/Lawful.antt =====
-- What the GPIO tools may send to a host, and when.
pub mod Ensures
pub mod Pins
pub mod Audited
pub mod Tools
use omarchy_hardware.Common.{
  ℕ, ◌≡◌, refl, sym, ap, ◌∙◌, ◌==◌, ◌||◌, is_some, any, any→In, In, Bool, true, false, Bool-cases,
  Option, none, some, List, [], ◌∷◌, ◌++◌, inl, inr, arith, if◌then◌else◌,
}
use omarchy_hardware.Common.Text.{Text, codes, text_eq, contains, contains→In}
use omarchy_hardware.Common.Dict.{Dict, lookup, insert}
use omarchy_hardware.Config.{Config}
use omarchy_hardware.Settings.Urls.{decimal}
use omarchy_hardware.Gpio.Remote.{Operation, Event, sent, started, ended}
use omarchy_hardware.Gpio.Pins.{set_words}

pub data IsBackend : Text → Type 0 where
  pinctrl : IsBackend (codes "pinctrl")
  raspi_gpio : IsBackend (codes "raspi-gpio")

-- Every backend that is kept is one of the two programs.
pub data IsKnown : Dict Text → Type 0 where
  nothing : IsKnown []
  known :
      {host backend : Text} {d : Dict Text}
      → IsBackend backend
      → IsKnown d
      → IsKnown ((host, backend) ∷ d)

-- The commands that change nothing.
pub data IsRead : List Text → Type 0 where
  probes : (name : Text) → IsRead (codes "command" ∷ codes "-v" ∷ name ∷ [])
  lists : {backend : Text} → IsBackend backend → IsRead (backend ∷ codes "get" ∷ [])
  reads :
      {backend : Text} (bcm : ℕ)
      → IsBackend backend
      → IsRead (backend ∷ codes "get" ∷ decimal bcm ∷ [])

-- The latest record, in a log with the latest event first, is the one that opens this operation.
pub data Started (op : Operation) : List Event → Type 0 where
  now : {log : List Event} → Started op (started op ∷ log)
  before :
      {host : Text} {words : List Text} {log : List Event}
      → Started op log
      → Started op (sent host words ∷ log)

-- Every command goes to a configured host; one that changes a pin changes a pin of the allowlist, by
-- one of the two programs, and the latest record is the one that opens this change.
pub data Lawful (config : Config) : List Event → Type 0 where
  quiet : Lawful config []
  read :
      {host : Text} {words : List Text} {log : List Event}
      → In host config.pi_hosts
      → IsRead words
      → Lawful config log
      → Lawful config (sent host words ∷ log)
  write :
      {op : Operation} {backend : Text} {flags : List Text} {log : List Event}
      → In op.host config.pi_hosts
      → In op.bcm config.pi_allowed_pins
      → IsBackend backend
      → Started op log
      → Lawful config log
      → Lawful config (sent op.host (set_words backend op.bcm flags) ∷ log)
  begun : {op : Operation} {log : List Event} → Lawful config log → Lawful config (started op ∷ log)
  over : {op : Operation} {log : List Event} → Lawful config log → Lawful config (ended op ∷ log)

pub IsKnown-lookup :
    (host backend : Text) (d : Dict Text)
    → IsKnown d
    → lookup host d ≡ some backend
    → IsBackend backend
unfolding lookup
IsKnown-lookup host backend [] nothing e = cc
IsKnown-lookup host backend ((h, b) ∷ d) (known k ks) e = elim (Bool-cases (text_eq h host)) [
  | inl same ↦
      let found : some b ≡ some backend = rw same at e in let eq : b ≡ backend = cc in rw (← eq) k
  | inr other ↦ IsKnown-lookup host backend d ks (rw other at e)
]

pub IsKnown-insert :
    (host backend : Text) (d : Dict Text)
    → IsBackend backend
    → IsKnown d
    → IsKnown (insert host backend d)
unfolding insert
IsKnown-insert host backend [] b nothing = known b nothing
IsKnown-insert host backend ((h, c) ∷ d) b (known k ks) = elim (Bool-cases (text_eq h host)) [
  | inl same ↦ rw same (known b ks)
  | inr other ↦ rw other (known k (IsKnown-insert host backend d b ks))
]
