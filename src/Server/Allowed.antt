-- ===== src/Server/Allowed.antt =====
-- What the tools hand to a device was allowed, and announced in the audit log.
use omarchy_hardware.Common.{
  ℕ, ◌≤◌, ◌≡◌, refl, Bool, true, false, ◌||◌, leb, leb→le, Option, none, some, List, length,
}
use mathlib.Core.Path.{subst}
use omarchy_hardware.Common.Text.{Text}
use omarchy_hardware.Common.Dict.{Dict}
use omarchy_hardware.Config.{Config}
use omarchy_hardware.Errors.{ErrorCode, Result}
use omarchy_hardware.Serial.Manager.{Handle, get}
use omarchy_hardware.Bridge.Registry.{Entry, by_port}
use omarchy_hardware.Gpio.Remote.{Outcome, ok, err, unexpected, of_result}
use omarchy_hardware.Server.{
  Python, World, Moment, ◌>>=◌, require, config_of, unless_running, require_unbridged,
  is_recognised, require_serial_write_target, payload_of, encoded, Request, Writing, check_write,
  check_exec,
}

>>=-ok :
    {A B : Type 0} (m : Outcome A) (f : A → Outcome B) (b : B)
    → (m >>= f) ≡ ok b
    → (a : A) × (m ≡ ok a) × (f a ≡ ok b)
>>=-ok (ok a) f b h = (a, refl, h)
>>=-ok (err e) f b h = cc
>>=-ok unexpected f b h = cc

config_of-ok : (o : Option Config) (config : Config) → config_of o ≡ ok config → o ≡ some config
config_of-ok none config h = cc
config_of-ok (some c) config h = cc

ok-injective : {A : Type 0} (a b : A) → Outcome.ok a ≡ ok b → a ≡ b
ok-injective a b h = cc

require-ok : (test : Bool) (e : ErrorCode) → require test e ≡ ok tt → test ≡ true
require-ok true e h = refl
require-ok false e h = cc

of_result-ok : {A : Type 0} (r : Result A) (a : A) → of_result r ≡ ok a → r ≡ Result.ok a
of_result-ok (Result.ok b) a h = cc
of_result-ok (Result.err e) a h = cc

unless_running-ok : (running : Option Entry) → unless_running running ≡ ok tt → running ≡ none
unless_running-ok none h = refl
unless_running-ok (some e) h = cc

-- The write is allowed: the call is confirmed, the configuration loads, the session is open on the
-- port, no running bridge has the port, its board is known unless the configuration that is loaded
-- last lets others pass too, and the payload is what was asked for and short enough by the
-- configuration that is loaded first.
pub record Allows (m : Moment) (sessions : Dict Handle) (bridges : Dict Entry) (session_id : Text)
    (confirm : Bool) (loaded : Option Config) (asked : Outcome (List ℕ)) (x : Writing)
    : Type 0 where
  pub is_confirmed : confirm ≡ true
  pub is_loaded : loaded ≡ some x.config
  pub sizing : Config
  pub is_first : m.config ≡ some sizing
  pub session : Handle
  pub is_registered : get session_id sessions ≡ Result.ok session
  pub is_there : session.port ≡ x.port
  pub is_unbridged : by_port x.port bridges ≡ none
  pub is_target : (is_recognised x.port m.boards || x.config.allow_unknown_serial) ≡ true
  pub is_asked : asked ≡ ok x.payload
  pub is_short : length x.payload ≤ sizing.max_write_bytes

pub check_write-Allows :
    (py : Python) (m : Moment) (w : World) (r : Request) (x : Writing)
    → check_write py m w r ≡ ok x
    → Allows m w.sessions w.bridges r.session_id r.confirm m.config (payload_of py r) x
unfolding check_write require_unbridged require_serial_write_target
check_write-Allows py m w r x h =
    let (_, confirmed, h1) = >>=-ok (require r.confirm _) _ x h in
    let (config, loaded, h2) = >>=-ok (config_of m.config) _ x h1 in
    let (session, there, h3) = >>=-ok (of_result (get r.session_id w.sessions)) _ x h2 in
    let (_, free, h4) = >>=-ok (require_unbridged session.port w.bridges) _ x h3 in
    let (_, known, h5) = >>=-ok (require_serial_write_target session.port m.boards config) _ x h4 in
    let (payload, asked, h6) = >>=-ok (payload_of py r) _ x h5 in
    let (_, short, h7) = >>=-ok (require (leb (length payload) config.max_write_bytes) _) _ x h6 in
    subst (Allows m w.sessions w.bridges r.session_id r.confirm m.config (payload_of py r))
      (ok-injective _ x h7)
      (record {
        is_confirmed = require-ok r.confirm _ confirmed;
        is_loaded = config_of-ok m.config config loaded;
        sizing = config;
        is_first = config_of-ok m.config config loaded;
        session = session;
        is_registered = of_result-ok (get r.session_id w.sessions) session there;
        is_there = refl;
        is_unbridged = unless_running-ok (by_port session.port w.bridges) free;
        is_target = require-ok _ _ known;
        is_asked = asked;
        is_short = leb→le _ _ (require-ok _ _ short);
      })

pub check_exec-Allows :
    (py : Python) (m : Moment) (w : World) (session_id code : Text) (confirm : Bool) (x : Writing)
    → check_exec py m w session_id code confirm ≡ ok x
    → Allows m w.sessions w.bridges session_id confirm m.config_again (encoded (py.encode code)) x
unfolding check_exec require_unbridged require_serial_write_target
check_exec-Allows py m w session_id code confirm x h =
    let (_, confirmed, h1) = >>=-ok (require confirm _) _ x h in
    let (config, loaded, h2) = >>=-ok (config_of m.config) _ x h1 in
    let (payload, asked, h3) = >>=-ok (encoded (py.encode code)) _ x h2 in
    let (_, short, h4) = >>=-ok (require (leb (length payload) config.max_write_bytes) _) _ x h3 in
    let (again, reloaded, h5) = >>=-ok (config_of m.config_again) _ x h4 in
    let (session, there, h6) = >>=-ok (of_result (get session_id w.sessions)) _ x h5 in
    let (_, known, h7) = >>=-ok (require_serial_write_target session.port m.boards again) _ x h6 in
    let (_, free, h8) = >>=-ok (require_unbridged session.port w.bridges) _ x h7 in
    subst
      (Allows m w.sessions w.bridges session_id confirm m.config_again (encoded (py.encode code)))
      (ok-injective _ x h8)
      (record {
        is_confirmed = require-ok confirm _ confirmed;
        is_loaded = config_of-ok m.config_again again reloaded;
        sizing = config;
        is_first = config_of-ok m.config config loaded;
        session = session;
        is_registered = of_result-ok (get session_id w.sessions) session there;
        is_there = refl;
        is_unbridged = unless_running-ok (by_port session.port w.bridges) free;
        is_target = require-ok _ _ known;
        is_asked = asked;
        is_short = leb→le _ _ (require-ok _ _ short);
      })
