-- ===== src/Gpio/Tests.antt =====
-- The theorem about the GPIO tools on two calls.
use omarchy_hardware.Common.{◌≡◌, refl, true, none, List, [], ◌∷◌}
use omarchy_hardware.Common.Text.{Text, codes, text_eq, contains}
use omarchy_hardware.Common.Dict.{lookup, insert}
use omarchy_hardware.Config.{Config}
use omarchy_hardware.Policy.{check_host, check_pin, listed_host}
use omarchy_hardware.Settings.Urls.{decimal, digits}
use omarchy_hardware.Policy.Budget.{charge, events_of, recent, total, minute_budget}
use omarchy_hardware.Settings.Load.{default_config}
use omarchy_hardware.Gpio.Remote.{
  Session, Answer, replied, Event, sent, started, ended, run, probe_tool, probe_tools,
  detect_backend,
}
use omarchy_hardware.Gpio.Pins.{Python, read_pin, write_pin}
use omarchy_hardware.Gpio.Tools.{
  Call, writing, Moment, run_calls, after_call, resolve_host, charge_pin, audited, gpio_write_pin,
  operation_of,
}
use omarchy_hardware.Gpio.Lawful.{nothing, quiet, Lawful}
use omarchy_hardware.Gpio.Lawful.Tools.{run_calls-Lawful}

-- A Raspberry Pi that tells of one pin only.
abbrev python : Python
python = record {
  is_blank = λ t. text_eq t [];
  parse_pins = λ backend t.
      record { bcm = 17; mode = codes "op"; pull = none; drive = none; level = 1; name = none }
      ∷ [];
}

abbrev config : Config
config = record default_config { pi_hosts = codes "pi@lab" ∷ []; pi_allowed_pins = 17 ∷ 27 ∷ [] }

abbrev idle : Session
idle = record {
  backends = [];
  tools = [];
  budget = none;
  now = 0;
  answers = [];
  records = [];
  log = [];
}

abbrev good : Text → Answer
good t = replied 0 t

abbrev calls : List (Moment × Call)
calls =
    (
      record {
        at = 1000;
        answers =
            good (codes "/usr/bin/pinctrl")
            ∷ replied 1 []
            ∷ replied 1 []
            ∷ good []
            ∷ good []
            ∷ good []
            ∷ [];
        records = [];
      },
      writing 17 1 none true,
    )
    ∷ (record { at = 2000; answers = []; records = [] }, writing 4 1 none true)
    ∷ []

run_calls-Lawful_example : Lawful config (run_calls python config calls idle).log
run_calls-Lawful_example = run_calls-Lawful python config calls idle nothing quiet

abbrev pi : List Text → Event
pi words = sent (codes "pi@lab") words

-- The first call drives the pin; the second one is for a pin that is not allowed, and sends nothing.
logged :
    (run_calls python config calls idle).log
    ≡ ended (operation_of (codes "pi@lab") 17)
      ∷ pi (codes "pinctrl" ∷ codes "get" ∷ codes "17" ∷ [])
      ∷ pi (codes "pinctrl" ∷ codes "set" ∷ codes "17" ∷ codes "op" ∷ codes "dh" ∷ [])
      ∷ pi (codes "pinctrl" ∷ codes "get" ∷ codes "17" ∷ [])
      ∷ pi (codes "command" ∷ codes "-v" ∷ codes "vcgencmd" ∷ [])
      ∷ pi (codes "command" ∷ codes "-v" ∷ codes "raspi-gpio" ∷ [])
      ∷ pi (codes "command" ∷ codes "-v" ∷ codes "pinctrl" ∷ [])
      ∷ started (operation_of (codes "pi@lab") 17)
      ∷ []
unfolding run_calls after_call gpio_write_pin resolve_host check_host listed_host check_pin
    charge_pin charge events_of recent total minute_budget audited write_pin read_pin detect_backend
    probe_tools probe_tool run lookup insert contains text_eq decimal digits
logged = refl
