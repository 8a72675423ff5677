-- ===== src/Ppp/Control.antt =====
-- The four state machines of modules/pico_dev_ppp.c with everything but their states left out. They
-- stand on the driver's own tables, and serve the proofs about its states.
pub mod Refine
pub mod Depth
pub mod Layers
pub mod Agree
use fd_picotcp.Prelude.{
  ℕ, zero, suc, List, [], ◌∷◌, Option, none, some, ◌>>=◌, Bool, true, false, if◌then◌else◌,
}
use fd_picotcp.Ppp.Types.{Control, LcpEvent, AuthEvent, ModemEvent, IpcpEvent}
use fd_picotcp.Ppp.Handlers.{Handler}
use fd_picotcp.Ppp.Engine.{Event, modem, lcp, auth, ipcp, up_event}
use fd_picotcp.Ppp.ModemTable.{ppp_modem_fsm}
use fd_picotcp.Ppp.LcpTable.{ppp_lcp_fsm}
use fd_picotcp.Ppp.AuthTable.{ppp_auth_fsm}
use fd_picotcp.Ppp.IpcpTable.{ppp_ipcp_fsm}

-- What a handler is to the state machines: nothing, a use of the last request, or an event.
pub data Effect : Type 0 where
  stays needs_packet : Effect
  raises : Event → Effect

abbrev pub raises? : Option AuthEvent → Effect
raises? none = stays
raises? (some e) = raises (auth e)

unfoldable pub effect : ℕ → Handler → Effect
effect proto Handler.ppp_modem_connected = raises (lcp LcpEvent.up)
effect proto Handler.ppp_modem_disconnected = raises (lcp LcpEvent.down)
effect proto Handler.lcp_this_layer_started = raises (modem ModemEvent.start)
effect proto Handler.lcp_this_layer_finished = raises (modem ModemEvent.stop)
effect proto Handler.lcp_this_layer_up = raises? (up_event proto)
effect proto Handler.lcp_this_layer_down = raises (auth AuthEvent.down)
effect proto Handler.auth = raises (ipcp IpcpEvent.up)
effect proto Handler.deauth = raises (ipcp IpcpEvent.down)
effect proto Handler.auth_abort = raises (lcp LcpEvent.close)
effect proto Handler.lcp_send_terminate_ack = needs_packet
effect proto Handler.lcp_send_configure_ack = needs_packet
effect proto Handler.lcp_send_configure_nack = needs_packet
effect proto Handler.lcp_send_echo_reply = needs_packet
effect proto Handler.auth_rsp = needs_packet
effect proto Handler.ipcp_send_ack = needs_packet
effect proto _ = stays

module _ (k : Event → Control → Option Control) (ready : Bool) (proto : ℕ) where
  unfoldable pub react : Effect → Control → Option Control
  react stays c = some c
  react needs_packet c = if ready then some c else none
  react (raises e) c = k e c

  unfoldable pub react_all : List Handler → Control → Option Control
  unfolding react effect
  react_all [] c = some c
  react_all (h ∷ hs) c = react (effect proto h) c >>= λ c'. react_all hs c'

unfoldable pub move : Event → Control → Control × List Handler
unfolding ppp_modem_fsm ppp_lcp_fsm ppp_auth_fsm ppp_ipcp_fsm
move (modem e) c = let (n, hs) = ppp_modem_fsm c.modem_state e in (record c { modem_state = n }, hs)
move (lcp e) c = let (n, hs) = ppp_lcp_fsm c.lcp_state e in (record c { lcp_state = n }, hs)
move (auth e) c = let (n, hs) = ppp_auth_fsm c.auth_state e in (record c { auth_state = n }, hs)
move (ipcp e) c = let (n, hs) = ppp_ipcp_fsm c.ipcp_state e in (record c { ipcp_state = n }, hs)

-- The states after an event, if no more than `fuel` calls nest and, unless `ready`, none of them
-- uses the last request.
unfoldable pub settle : ℕ → Bool → ℕ → Event → Control → Option Control
unfolding move react_all
settle zero ready proto e c = none
settle (suc fuel) ready proto e c =
    let (c', hs) = move e c in react_all (settle fuel ready proto) ready proto hs c'
