-- ===== src/Ppp/Session/Stale.antt =====
-- A session that outlives its link in modules/pico_dev_ppp.c.
use fd_picotcp.Prelude.{ℕ, ◌≡◌, refl, ap, Option, none, some, ◌>>=◌, false, if◌then◌else◌}
use fd_picotcp.Ppp.Types.{
  Ppp, Control, LcpEvent, AuthEvent, LcpState, AuthState, IpcpState, ModemState,
}
use fd_picotcp.Ppp.Engine.{Event, lcp, auth, evaluate, depth}
use fd_picotcp.Ppp.Wire.{is_opened}
use fd_picotcp.Ppp.Device.{pico_ppp_link_state}
use fd_picotcp.Ppp.Control.{settle}
use fd_picotcp.Ppp.Control.Refine.{Follows, evaluate-Follows}
use fd_picotcp.Ppp.Control.Depth.{at}

-- The device comes back in the states `c`.
abbrev pub ComesTo : Option Ppp → Control → Type 0
ComesTo r c = (t : Ppp) × (r ≡ some t) × (t.control ≡ c)

from_settled :
    (s : Ppp) (r : Option Ppp) (o : Option Control) (d : Control)
    → Follows s r o
    → o ≡ some d
    → ComesTo r d
from_settled s r none d f x = cc
from_settled s r (some k) d (t, e, e', _) x = (t, e, rw e' cc)

comes :
    (e : Event) (s : Ppp) (c d : Control)
    → s.control ≡ c
    → ((p : ℕ) → settle depth false p e c ≡ some d)
    → ComesTo (evaluate depth e s) d
comes e s c d same h =
    from_settled s _ _ d (evaluate-Follows depth false e s (λ x. cc)) (rw same (h s.config.auth))

timed_out :
    (p : ℕ)
    → settle depth false p
        (auth AuthEvent.to)
        (at ModemState.connected LcpState.opened AuthState.starting IpcpState.opened)
      ≡ some (at ModemState.connected LcpState.opened AuthState.initial IpcpState.opened)
unfolding settle
timed_out p = refl

closed_down :
    (p : ℕ)
    → settle depth false p
        (lcp LcpEvent.close)
        (at ModemState.connected LcpState.opened AuthState.initial IpcpState.opened)
      ≡ some (at ModemState.connected LcpState.closing AuthState.initial IpcpState.opened)
unfolding settle
closed_down p = refl

-- Where authentication has fallen back to its start while IP control is open, its timeout
-- followed by a close leaves IP control open above a closing link: the device still reports its
-- link as up.
pub stale_session :
    (s : Ppp)
    → s.control ≡ at ModemState.connected LcpState.opened AuthState.starting IpcpState.opened
    → (t : Ppp) × ((evaluate depth (auth AuthEvent.to) s >>= λ u.
          evaluate depth (lcp LcpEvent.close) u)
        ≡ some t)
      × (t.control ≡ at ModemState.connected LcpState.closing AuthState.initial IpcpState.opened)
      × (pico_ppp_link_state t ≡ 1)
unfolding pico_ppp_link_state
stale_session s h =
    let (u, e, c) = comes (auth AuthEvent.to) s _ _ h timed_out in
    let (t, e', c') = comes (lcp LcpEvent.close) u _ _ c closed_down in
    (t, rw (e, e'), c', ap (λ (k : Control). if is_opened k.ipcp_state then 1 else 0) c')
