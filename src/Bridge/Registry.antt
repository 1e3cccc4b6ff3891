-- ===== src/Bridge/Registry.antt =====
-- `Registry` of mcp/omarchy_hardware/bridge.py. What runs under the lock is one step.
pub mod OnePerPort
use omarchy_hardware.Common.{
  ℕ, leb, length, Bool, true, false, not, ◌&&◌, any, Option, none, some, List, [], ◌∷◌, ◌++◌,
  if◌then◌else◌,
}
use omarchy_hardware.Common.Text.{Text, text_eq}
use omarchy_hardware.Common.Dict.{Dict, lookup, insert, remove}
use omarchy_hardware.Errors.{Result, ok, err, port_busy, rate_limited, session_not_found}

abbrev pub max_bridges : ℕ
max_bridges = 4

-- A bridge, as the registry sees it. `running` holds from the reservation until the thread ends.
pub record Entry : Type 0 where
  pub port : Text
  pub running : Bool

-- `{key: b for key, b in self._bridges.items() if b.running}`
unfoldable pub active : Dict Entry → Dict Entry
active [] = []
active ((id, e) ∷ bridges) = let rest = active bridges in if e.running then (id, e) ∷ rest else rest

unfoldable pub takes_port : Text → Dict Entry → Bool
takes_port port bridges = any (λ b. text_eq b.1.port port) bridges

-- The part of `add` under the lock.
unfoldable pub reserve : Text → Text → Dict Entry → Result (Unit {0}) × Dict Entry
unfolding active takes_port
reserve id port bridges =
    if takes_port port (active bridges)
    then (err port_busy, bridges)
    else if leb max_bridges (length (active bridges))
    then (err rate_limited, bridges)
    else (ok tt, insert id (record { port = port; running = true }) (active bridges))

-- `before_start` that raises takes the reservation back.
unfoldable pub cancel : Text → Dict Entry → Dict Entry
cancel id bridges = remove id bridges

-- The thread of a bridge ends.
unfoldable pub finish : Text → Dict Entry → Dict Entry
finish id [] = []
finish id ((j, e) ∷ bridges) =
    (j, record e { running = if text_eq j id then false else e.running }) ∷ finish id bridges

unfoldable pub get : Text → Dict Entry → Result Entry
get id bridges = elim (lookup id bridges) [ none ↦ err session_not_found | some e ↦ ok e ]

unfoldable pub by_port : Text → Dict Entry → Option Entry
by_port port [] = none
by_port port ((id, e) ∷ bridges) =
    if e.running && text_eq e.port port then some e else by_port port bridges
