-- ===== src/Ppp/Control/Depth.antt =====
-- How deep the calls of the `evaluate_..._state` functions nest (modules/pico_dev_ppp.c).
use fd_picotcp.Prelude.{ℕ, Option, none, some, Bool, true, false, ◌≡◌, arith}
use fd_picotcp.Ppp.Types.{
  Control, Ppp, LcpState, LcpEvent, AuthState, AuthEvent, ModemState, ModemEvent, IpcpState,
  IpcpEvent,
}
use fd_picotcp.Ppp.Engine.{Event, modem, lcp, auth, ipcp, depth, evaluate}
use fd_picotcp.Ppp.Control.{settle}
use fd_picotcp.Ppp.Control.Refine.{Ready, Same, Follows, evaluate-Follows}

abbrev pub at : ModemState → LcpState → AuthState → IpcpState → Control
at m l a i = record { modem_state = m; lcp_state = l; auth_state = a; ipcp_state = i }

abbrev pub Rests : Option Control → Type 0
Rests none = ⊥
Rests (some c) = Unit {0}

-- The events whose handlers may use the last request, in one state or another.
abbrev pub needs_request : Event → Bool
needs_request (lcp LcpEvent.rcr_pos) = true
needs_request (lcp LcpEvent.rcr_neg) = true
needs_request (lcp LcpEvent.rca) = true
needs_request (lcp LcpEvent.rcn) = true
needs_request (lcp LcpEvent.rtr) = true
needs_request (lcp LcpEvent.rxr) = true
needs_request (auth AuthEvent.rac) = true
needs_request (ipcp IpcpEvent.rcr_pos) = true
needs_request _ = false

pub settle-Rests :
    (p : ℕ) (e : Event) (m : ModemState) (l : LcpState) (a : AuthState) (i : IpcpState)
    → Rests (settle depth (needs_request e) p e (at m l a i))
unfolding settle
settle-Rests p (modem ModemEvent.start) m l a i = ground arith
settle-Rests p (modem _) m l a i = ground arith
settle-Rests p (lcp LcpEvent.up) m LcpState.initial a i = ground arith
settle-Rests p (lcp _) m _ a i = ground arith
settle-Rests p (auth AuthEvent.up_none) m l AuthState.initial i = ground arith
settle-Rests p (auth _) m l _ i = ground arith
settle-Rests p (ipcp IpcpEvent.up) m l a IpcpState.initial = ground arith
settle-Rests p (ipcp _) m l a _ = ground arith

Follows-Rests :
    (s : Ppp) (r : Option Ppp) (o : Option Control)
    → Follows s r o
    → Rests o
    → (t : Ppp) × (r ≡ some t) × Same s t
Follows-Rests s r none f h = absurd h
Follows-Rests s r (some c) (t, e, _, same) h = (t, e, same)

-- An event always comes back within six nested calls, in every combination of the four states,
-- provided that, if its handlers may use the last request, there is one and the scan of its
-- options ends. It leaves the request, the configuration, the addresses and the received packets
-- as they were.
pub evaluate_returns :
    (e : Event) (s : Ppp)
    → (needs_request e ≡ true → Ready s.request)
    → (t : Ppp) × (evaluate depth e s ≡ some t) × Same s t
evaluate_returns e s h =
    Follows-Rests s _ _ (evaluate-Follows depth (needs_request e) e s h)
      (settle-Rests s.config.auth e s.modem_state s.lcp_state s.auth_state s.ipcp_state)
