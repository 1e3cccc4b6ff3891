-- ===== src/Gpio/Remote.antt =====
-- Commands over ssh: `_run`, `probe_tools` and `detect_backend` of mcp/omarchy_hardware/gpio_ssh.py.
use omarchy_hardware.Common.{
  ℕ, ◌==◌, not, ◌&&◌, Bool, Option, none, some, List, [], ◌∷◌, if◌then◌else◌,
}
use omarchy_hardware.Common.Text.{Text, codes, contains}
use omarchy_hardware.Common.Dict.{Dict, lookup, insert}
use omarchy_hardware.Config.{Config}
use omarchy_hardware.Errors.{ErrorCode, Result, host_not_allowed, ssh_failed, tool_missing}
use omarchy_hardware.Policy.{check_host}
use omarchy_hardware.Policy.Budget.{RollingBudget}

-- The host of an operation that changes a pin, and the pin.
pub record Operation : Type 0 where
  pub host : Text
  pub bcm : ℕ

-- The command that ssh is given for a host, by its words; the record that was written before an
-- operation, and the one after it.
pub data Event : Type 0 where
  sent : (host : Text) (words : List Text) → Event
  started ended : Operation → Event

-- How a run of ssh ends: its status and what it printed, the timeout, no ssh client. Any status but
-- 0 and 255 stands for the others, the negative ones included.
pub data Answer : Type 0 where
  replied : (status : ℕ) (stdout : Text) → Answer
  timed_out no_client : Answer

-- What a write to the audit log ends with: it is written, an `OSError`, another exception.
pub data Recorded : Type 0 where
  written os_error unreadable : Recorded

pub data Outcome (A : Type 0) : Type 0 where
  ok : A → Outcome A
  err : ErrorCode → Outcome A
  unexpected : Outcome A

pub record Found : Type 0 where
  pub pinctrl : Bool
  pub raspi_gpio : Bool
  pub vcgencmd : Bool

-- What the module and the server keep between calls, the answers of the environment that are still
-- to come, and what has happened, the latest first.
pub record Session : Type 0 where
  pub backends : Dict Text
  pub tools : Dict Found
  pub budget : Option RollingBudget
  pub now : ℕ
  pub answers : List Answer
  pub records : List Recorded
  pub log : List Event

abbrev pub M : Type 0 → Type 0
M A = Session → Outcome A × Session

abbrev pub then_do : {A B : Type 0} → (A → M B) → Outcome A × Session → Outcome B × Session
then_do f (ok a, s) = f a s
then_do f (err e, s) = (err e, s)
then_do f (unexpected, s) = (unexpected, s)

infixl 5 ◌>>=◌ ◌>>◌
abbrev pub ◌>>=◌ : {A B : Type 0} → M A → (A → M B) → M B
◌>>=◌ m f s = then_do f (m s)

abbrev pub ◌>>◌ : {B : Type 0} → M (Unit {0}) → M B → M B
m >> k = m >>= λ _. k

abbrev pub pure : {A : Type 0} → A → M A
pure a s = (ok a, s)

abbrev pub raise : {A : Type 0} → ErrorCode → M A
raise e s = (err e, s)

abbrev pub choose : {A : Type 0} → Bool → M A → M A → M A
choose b m k s = if b then m s else k s

abbrev pub of_result : {A : Type 0} → Result A → Outcome A
of_result (Result.ok a) = ok a
of_result (Result.err e) = err e

abbrev pub lift : {A : Type 0} → Result A → M A
lift r s = (of_result r, s)

abbrev pub gets : {A : Type 0} → (Session → A) → M A
gets f s = (ok (f s), s)

abbrev pub emit : Event → M (Unit {0})
emit event s = (ok tt, record s { log = event ∷ s.log })

-- What ssh ends with; without an answer left it times out.
abbrev pub next_answer : List Answer → Answer
next_answer [] = timed_out
next_answer (answer ∷ answers) = answer

abbrev pub later_answers : List Answer → List Answer
later_answers [] = []
later_answers (answer ∷ answers) = answers

abbrev pub answered : M Answer
answered s = (ok (next_answer s.answers), record s { answers = later_answers s.answers })

-- The status and the output of a command.
pub record Completed : Type 0 where
  pub status : ℕ
  pub stdout : Text

abbrev pub completed : Answer → M Completed
completed (replied status stdout) = pure (record { status = status; stdout = stdout })
completed timed_out = raise ssh_failed
completed no_client = raise tool_missing

-- `_run`, for the hosts of `[pi]`.
unfoldable pub run : Config → Text → List Text → M Completed
run config host words = lift (check_host host config none) >>= λ host.
    emit (sent host words) >> (answered >>= completed)

abbrev pub ssh_error_status : ℕ
ssh_error_status = 255

-- `bool(result.stdout.strip())` for the output of `command -v`, by the test of white space.
unfoldable pub probe_tool : Config → (is_blank : Text → Bool) → Text → Text → M Bool
unfolding run
probe_tool config is_blank host name =
    run config host (codes "command" ∷ codes "-v" ∷ name ∷ []) >>= λ result.
    choose (result.status == ssh_error_status) (raise ssh_failed)
      (pure (result.status == 0 && not (is_blank result.stdout)))

-- The end of `probe_tools`: what was found is kept, and with it the backend if there is one.
abbrev pub with_backend : Text → Found → Dict Text → Dict Text
with_backend host found backends =
    if found.pinctrl
    then insert host (codes "pinctrl") backends
    else if found.raspi_gpio
    then insert host (codes "raspi-gpio") backends
    else backends

abbrev pub keep_found : Text → Found → M Found
keep_found host found s = (
  ok found,
  record s { tools = insert host found s.tools; backends = with_backend host found s.backends },
)

abbrev pub probed : Config → (Text → Bool) → Text → M Found
probed config is_blank host = probe_tool config is_blank host (codes "pinctrl") >>= λ pinctrl.
    probe_tool config is_blank host (codes "raspi-gpio") >>= λ raspi_gpio.
    probe_tool config is_blank host (codes "vcgencmd") >>= λ vcgencmd.
    keep_found host (record { pinctrl = pinctrl; raspi_gpio = raspi_gpio; vcgencmd = vcgencmd })

-- A value that is in the cache, or the call that finds it.
abbrev pub cached : {A : Type 0} → Option A → M A → M A
cached none m = m
cached (some a) m = pure a

unfoldable pub probe_tools : Config → (Text → Bool) → Text → M Found
unfolding probe_tool
probe_tools config is_blank host =
    gets (λ s. lookup host s.tools) >>= λ found. cached found (probed config is_blank host)

unfoldable pub detect_backend : Config → (Text → Bool) → Text → M Text
unfolding probe_tools
detect_backend config is_blank host =
    choose (contains config.jetson_hosts host) (raise host_not_allowed) (
      gets (λ s. lookup host s.backends) >>= λ backend. cached backend (
        probe_tools config is_blank host >>= λ _.
        gets (λ s. lookup host s.backends) >>= λ backend. cached backend (raise tool_missing)))
