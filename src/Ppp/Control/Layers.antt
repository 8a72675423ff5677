-- ===== src/Ppp/Control/Layers.antt =====
-- How the four machines of modules/pico_dev_ppp.c stand on one another.
use fd_picotcp.Prelude.{ℕ, Option, none, some, Bool, true, false, ◌≡◌, arith, sym, subst}
use fd_picotcp.Ppp.Types.{
  Control, Ppp, LcpState, LcpEvent, AuthState, AuthEvent, ModemState, ModemEvent, IpcpState,
  IpcpEvent,
}
use fd_picotcp.Ppp.Engine.{Event, modem, lcp, auth, ipcp, depth, evaluate}
use fd_picotcp.Ppp.Control.{settle}
use fd_picotcp.Ppp.Control.Refine.{Ready, Follows, evaluate-Follows}
use fd_picotcp.Ppp.Control.Depth.{at, Rests, needs_request, settle-Rests}

abbrev pub is_connected : ModemState → Bool
is_connected ModemState.connected = true
is_connected _ = false

abbrev pub past_starting : LcpState → Bool
past_starting LcpState.initial = false
past_starting LcpState.starting = false
past_starting _ = true

abbrev pub is_lcp_opened : LcpState → Bool
is_lcp_opened LcpState.opened = true
is_lcp_opened _ = false

abbrev pub auth_active : AuthState → Bool
auth_active AuthState.initial = false
auth_active _ = true

abbrev pub ipcp_active : IpcpState → Bool
ipcp_active IpcpState.initial = false
ipcp_active _ = true

-- The link control protocol is past its first two states exactly while the modem is connected, and
-- authentication runs only while it is open.
pub record IsLayered (c : Control) : Type 0 where
  pub linked : is_connected c.modem_state ≡ past_starting c.lcp_state
  pub opened : auth_active c.auth_state ≡ true → is_lcp_opened c.lcp_state ≡ true

-- IP control runs only while authentication does.
abbrev pub IsStacked : Control → Type 0
IsStacked c = ipcp_active c.ipcp_state ≡ true → auth_active c.auth_state ≡ true

-- The events that packets, modem answers, the clock and the user raise; the others are raised by
-- handlers alone.
abbrev pub is_external : Event → Bool
is_external (modem e) = true
is_external (lcp LcpEvent.up) = false
is_external (lcp LcpEvent.down) = false
is_external (lcp e) = true
is_external (auth AuthEvent.up_none) = false
is_external (auth AuthEvent.up_pap) = false
is_external (auth AuthEvent.up_chap) = false
is_external (auth AuthEvent.down) = false
is_external (auth e) = true
is_external (ipcp IpcpEvent.up) = false
is_external (ipcp IpcpEvent.down) = false
is_external (ipcp e) = true

abbrev pub Holds : (Control → Type 0) → Option Control → Type 0
Holds P none = Unit {0}
Holds P (some c) = P c

pub settle-IsLayered :
    (ready : Bool) (p : ℕ) (e : Event) (m : ModemState) (l : LcpState) (a : AuthState)
    (i : IpcpState)
    → is_external e ≡ true
    → IsLayered (at m l a i)
    → Holds IsLayered (settle depth ready p e (at m l a i))
unfolding settle
settle-IsLayered ready p (modem ModemEvent.start) m l a i x v = ground arith
settle-IsLayered ready p (modem _) m l a i x v = ground arith
settle-IsLayered ready p (lcp LcpEvent.up) m LcpState.initial a i x v = ground arith
settle-IsLayered ready p (lcp _) m _ a i x v = ground arith
settle-IsLayered ready p (auth AuthEvent.up_none) m l AuthState.initial i x v = ground arith
settle-IsLayered ready p (auth _) m l _ i x v = ground arith
settle-IsLayered ready p (ipcp IpcpEvent.up) m l a IpcpState.initial x v = ground arith
settle-IsLayered ready p (ipcp _) m l a _ x v = ground arith

abbrev pub is_auth_timeout : Event → Bool
is_auth_timeout (auth AuthEvent.to) = true
is_auth_timeout _ = false

settle-IsStacked :
    (ready : Bool) (p : ℕ) (e : Event) (m : ModemState) (l : LcpState) (a : AuthState)
    (i : IpcpState)
    → is_external e ≡ true
    → is_auth_timeout e ≡ false
    → IsLayered (at m l a i)
    → IsStacked (at m l a i)
    → Holds IsStacked (settle depth ready p e (at m l a i))
unfolding settle
settle-IsStacked ready p (modem ModemEvent.start) m l a i x y v w = ground arith
settle-IsStacked ready p (modem _) m l a i x y v w = ground arith
settle-IsStacked ready p (lcp LcpEvent.up) m LcpState.initial a i x y v w = ground arith
settle-IsStacked ready p (lcp _) m _ a i x y v w = ground arith
settle-IsStacked ready p (auth AuthEvent.up_none) m l AuthState.initial i x y v w = ground arith
settle-IsStacked ready p (auth _) m l _ i x y v w = ground arith
settle-IsStacked ready p (ipcp IpcpEvent.up) m l a IpcpState.initial x y v w = ground arith
settle-IsStacked ready p (ipcp _) m l a _ x y v w = ground arith

lands :
    (P : Control → Type 0) (s : Ppp) (r : Option Ppp) (o : Option Control)
    → Follows s r o
    → Rests o
    → Holds P o
    → (t : Ppp) × (r ≡ some t) × P t.control
lands P s r none f h k = absurd h
lands P s r (some c) (t, e, ec, _) h k = (t, e, subst P (sym ec) k)

-- Every event from outside leads from layered states to layered states: the link control protocol is
-- past its first two states exactly while the modem is connected, and authentication is active only
-- while it is open. The call comes back. If the event's handlers may use the last request, there has to
-- be one, and the scan of its options has to end.
pub evaluate-IsLayered :
    (e : Event) (s : Ppp)
    → (needs_request e ≡ true → Ready s.request)
    → is_external e ≡ true
    → IsLayered s.control
    → (t : Ppp) × (evaluate depth e s ≡ some t) × IsLayered t.control
evaluate-IsLayered e s ready x v =
    lands IsLayered s _ _ (evaluate-Follows depth (needs_request e) e s ready)
      (settle-Rests s.config.auth e s.modem_state s.lcp_state s.auth_state s.ipcp_state)
      (settle-IsLayered (needs_request e) s.config.auth e s.modem_state s.lcp_state s.auth_state
        s.ipcp_state x v)

-- An event that packets, modem answers, the clock or the user raise, but for the timeout of
-- authentication, comes back and leaves IP control below authentication, in states that are layered
-- and have it so: IP control is past its first state only while authentication is. If the event is one
-- whose handlers may use the last request (a request, an acknowledgement, a rejection, a terminate or
-- echo request of the link, a challenge, a good IP request), there has to be such a request, and the
-- scan of its options has to end.
pub evaluate-IsStacked :
    (e : Event) (s : Ppp)
    → (needs_request e ≡ true → Ready s.request)
    → is_external e ≡ true
    → is_auth_timeout e ≡ false
    → IsLayered s.control
    → IsStacked s.control
    → (t : Ppp) × (evaluate depth e s ≡ some t) × IsStacked t.control
evaluate-IsStacked e s ready x y v w =
    lands IsStacked s _ _ (evaluate-Follows depth (needs_request e) e s ready)
      (settle-Rests s.config.auth e s.modem_state s.lcp_state s.auth_state s.ipcp_state)
      (settle-IsStacked (needs_request e) s.config.auth e s.modem_state s.lcp_state s.auth_state
        s.ipcp_state x y v w)
