-- ===== src/Serial/Manager/Registered.antt =====
-- The manager keeps the session that a caller got.
use omarchy_hardware.Common.{◌≡◌, ◌≢◌, inl, inr, refl, Bool-cases, true, Option, none, some, arith}
use omarchy_hardware.Common.Text.{Text, text_eq, text_eq_iff, text_eq_refl}
use omarchy_hardware.Common.Dict.{Dict, lookup, lookup-insert, lookup-remove}
use omarchy_hardware.Serial.Manager.{Handle, same_session, prefer, settle, finish_open, forget}

prefer-lookup :
    (found stale : Option Handle) (created current : Handle)
    → prefer found stale created ≡ some current
    → found ≡ some current
unfolding prefer
prefer-lookup none stale created current h = cc
prefer-lookup (some c) stale created current h = ground arith

settle-keeps :
    (port : Text) (created : Handle) (chosen : Option Handle) (sessions : Dict Handle)
    → ((current : Handle) → chosen ≡ some current → lookup port sessions ≡ some current)
    → (lookup port (settle port created chosen sessions).1
        ≡ some (settle port created chosen sessions).0)
      × ((other : Text)
          → other ≢ port
          → lookup other (settle port created chosen sessions).1 ≡ lookup other sessions)
unfolding settle
settle-keeps port created (some current) sessions h = (h current refl, λ other differ. refl)
settle-keeps port created none sessions h = (
  ground (arith, lookup-insert port port created sessions, text_eq_refl port),
  λ other differ.
      ground (arith, lookup-insert port other created sessions, text_eq_iff port other, differ),
)

-- After the second part of open, whichever session was there by then, the port is registered
-- with the session that open returns, and the registration of another port is as it was.
pub finish_open-registers :
    (port other : Text) (stale : Option Handle) (created : Handle) (sessions : Dict Handle)
    → other ≢ port
    → (lookup port (finish_open port stale created sessions).1
        ≡ some (finish_open port stale created sessions).0)
      × (lookup other (finish_open port stale created sessions).1 ≡ lookup other sessions)
unfolding finish_open
finish_open-registers port other stale created sessions differ =
    let (registered, others) =
      settle-keeps port created (prefer (lookup port sessions) stale created) sessions
        (λ current h. prefer-lookup (lookup port sessions) stale created current h) in
    (registered, others other differ)

same_session-id : (a b : Handle) → same_session (some a) b ≡ true → a.session_id ≡ b.session_id
unfolding same_session
same_session-id a b h = (text_eq_iff a.session_id b.session_id).0 h

-- A session that is registered at a port and has another session id than the closed one is
-- still registered there after the end of close.
pub forget-keeps :
    (closed session : Handle) (port : Text) (sessions : Dict Handle)
    → lookup port sessions ≡ some session
    → session.session_id ≢ closed.session_id
    → lookup port (forget closed sessions) ≡ some session
unfolding forget
forget-keeps closed session port sessions h differ =
    elim (Bool-cases (same_session (lookup closed.port sessions) closed)) [
      | inr e ↦ rw e h
      | inl e ↦ elim (Bool-cases (text_eq closed.port port)) [
        | inl p ↦
            let here : closed.port ≡ port = (text_eq_iff closed.port port).0 p in
            absurd (differ (same_session-id session closed (rw (here, h) at e)))
        | inr p ↦ rw e (ground (arith, lookup-remove closed.port port sessions, p, h))
      ]
    ]
