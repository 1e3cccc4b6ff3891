-- ===== src/Serial/Manager.antt =====
-- `SessionManager` of mcp/omarchy_hardware/serial_session.py. What runs under the lock is one step;
-- `open` has two, with the closing of a stale session and the opening of the port between them.
pub mod Registered
use omarchy_hardware.Common.{
  ℕ, ◌==◌, Bool, true, false, not, ◌&&◌, Option, none, some, List, [], ◌∷◌, if◌then◌else◌,
}
use omarchy_hardware.Common.Text.{Text, text_eq}
use omarchy_hardware.Common.Dict.{Dict, lookup, insert, remove}
use omarchy_hardware.Errors.{Result, ok, err, ◌>>=◌, baud_mismatch, session_not_found}

-- A session, as the manager sees it: `session_id` tells one object from another.
pub record Handle : Type 0 where
  pub session_id : Text
  pub port : Text
  pub baud : ℕ
  pub is_open : Bool

-- How `open` goes on: with a session that is there, or by a new one in place of a stale one.
pub data Opening : Type 0 where
  reuse : Handle → Opening
  replace : Option Handle → Opening

unfoldable pub begin_with : ℕ → Option Handle → Result Opening
begin_with baud none = ok (replace none)
begin_with baud (some existing) =
    if existing.is_open
    then (if not (existing.baud == baud) then err baud_mismatch else ok (reuse existing))
    else ok (replace (some existing))

unfoldable pub begin_open : Text → ℕ → Dict Handle → Result Opening
unfolding begin_with
begin_open port baud sessions = begin_with baud (lookup port sessions)

-- `a is b`
unfoldable pub same_session : Option Handle → Handle → Bool
same_session none session = false
same_session (some a) session = text_eq a.session_id session.session_id

-- The session that `open` returns when another one was opened in between.
unfoldable pub prefer : Option Handle → Option Handle → Handle → Option Handle
prefer none stale created = none
prefer (some current) stale created =
    if not (same_session stale current) && current.is_open then some current else none

unfoldable pub settle : Text → Handle → Option Handle → Dict Handle → Handle × Dict Handle
settle port created (some current) sessions = (current, sessions)
settle port created none sessions = (created, insert port created sessions)

-- The second part: the session that is returned; `created` is closed when it is another one.
unfoldable pub finish_open : Text → Option Handle → Handle → Dict Handle → Handle × Dict Handle
unfolding same_session prefer settle
finish_open port stale created sessions =
    settle port created (prefer (lookup port sessions) stale created) sessions

unfoldable pub get : Text → Dict Handle → Result Handle
get session_id [] = err session_not_found
get session_id ((port, session) ∷ sessions) =
    let rest = get session_id sessions in
    if text_eq session.session_id session_id then ok session else rest

-- The end of `close`, after the session is closed.
unfoldable pub forget : Handle → Dict Handle → Dict Handle
unfolding same_session
forget session sessions =
    if same_session (lookup session.port sessions) session
    then remove session.port sessions
    else sessions

-- `close`: the registry in which the session is looked up, and the one that is there once it is
-- closed.
unfoldable pub close : Text → (before after : Dict Handle) → Result (Dict Handle)
unfolding get forget
close session_id before after = do session ← get session_id before; ok (forget session after)

-- `by_port`
abbrev pub by_port : Text → Dict Handle → Option Handle
by_port port sessions = lookup port sessions

-- `close_port`, with whether there was a session.
unfoldable pub close_found : Text → Option Handle → Dict Handle → Bool × Dict Handle
close_found port none sessions = (false, sessions)
close_found port (some session) sessions = (true, remove port sessions)

unfoldable pub close_port : Text → Dict Handle → Bool × Dict Handle
unfolding close_found
close_port port sessions = close_found port (lookup port sessions) sessions
