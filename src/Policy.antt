-- ===== src/Policy.antt =====
-- mcp/omarchy_hardware/policy.py: what every privileged parameter passes through.
mod Tests
pub mod Ports
pub mod Weintek
pub mod Ming
pub mod Budget
use omarchy_hardware.Common.{ℕ, ◌==◌, any, Option, none, some, List, [], ◌∷◌, if◌then◌else◌}
use omarchy_hardware.Common.Text.{Text, contains}
use omarchy_hardware.Config.{Config}
use omarchy_hardware.Errors.{Result, ok, err, host_not_allowed, pin_not_allowed}

-- `config.pi_hosts if hosts is None else hosts`
allowed_hosts : Option (List Text) → Config → List Text
allowed_hosts none config = config.pi_hosts
allowed_hosts (some hosts) config = hosts

unfoldable pub listed_host : List Text → Text → Result Text
listed_host [] host = err host_not_allowed
listed_host (h ∷ hs) host = if contains (h ∷ hs) host then ok host else err host_not_allowed

unfoldable pub check_host : Text → Config → Option (List Text) → Result Text
unfolding allowed_hosts listed_host
check_host host config hosts = listed_host (allowed_hosts hosts config) host

-- `check_pin`, on the integers that are not negative.
unfoldable pub check_pin : ℕ → Config → Result ℕ
check_pin bcm config =
    if any (λ pin. pin == bcm) config.pi_allowed_pins then ok bcm else err pin_not_allowed
