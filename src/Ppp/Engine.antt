-- ===== src/Ppp/Engine.antt =====
-- modules/pico_dev_ppp.c: the handlers and the four `evaluate_..._state` functions, which call one
-- another. The calls nest as deep as `fuel` at most, and `Ppp/Control/Depth` shows how deep they go.
-- `none` is a call that does not come back: a null pointer is read, or `lcp_send_configure_nack`
-- meets an option at which it loops, or the fuel is used up.
use fd_picotcp.Prelude.{
  ℕ, zero, suc, List, [], ◌∷◌, Option, none, some, ◌>>=◌, Bool, true, false, ◌==◌, if◌then◌else◌,
}
use fd_picotcp.Ppp.Types.{
  Io, Ppp, LcpState, LcpEvent, AuthEvent, ModemEvent, IpcpEvent, timer_on_lcpreq, timer_on_lcpterm,
}
use fd_picotcp.Ppp.Lcp.{
  lcp_timer_start, lcp_zero_restart_count, lcp_timer_stop, lcp_send_configure_request,
  lcp_send_terminate_request, lcp_send_configure_ack, lcp_send_terminate_ack, lcp_send_echo_reply,
  lcp_send_configure_nack,
}
use fd_picotcp.Ppp.Modem.{
  ppp_modem_send_reset, ppp_modem_send_echo, ppp_modem_send_creg, ppp_modem_send_cgreg,
  ppp_modem_send_cgdcont, ppp_modem_send_cgatt, ppp_modem_send_dial, send_hang_up,
}
use fd_picotcp.Ppp.Auth.{auth_req, auth_rsp, auth_start_timer, stop_auth_timer}
use fd_picotcp.Ppp.Ipcp.{ipcp_send_ack, ipcp_send_req, ipcp_bring_up, ipcp_start_timer}
use fd_picotcp.Ppp.Handlers.{Handler}
use fd_picotcp.Ppp.ModemTable.{ppp_modem_fsm}
use fd_picotcp.Ppp.LcpTable.{ppp_lcp_fsm}
use fd_picotcp.Ppp.AuthTable.{ppp_auth_fsm}
use fd_picotcp.Ppp.IpcpTable.{ppp_ipcp_fsm}

pub data Event : Type 0 where
  modem : ModemEvent → Event
  lcp : LcpEvent → Event
  auth : AuthEvent → Event
  ipcp : IpcpEvent → Event

-- Which event `lcp_this_layer_up` raises: for no protocol, PAP, CHAP, and none for another.
abbrev pub up_event : ℕ → Option AuthEvent
up_event proto =
    if proto == 0x0000
    then some AuthEvent.up_none
    else (if proto == 0xc023
        then some AuthEvent.up_pap
        else (if proto == 0xc223 then some AuthEvent.up_chap else none))

abbrev keep : Ppp → Io → Option Ppp
keep s io = some (record s { io = io })

abbrev keep? : Ppp → Option Io → Option Ppp
keep? s r = r >>= λ io. keep s io

module _ (k : Event → Ppp → Option Ppp) where
  unfoldable pub lcp_this_layer_up : Ppp → Option Ppp
  lcp_this_layer_up s = elim (up_event s.config.auth) [ none ↦ some s | some e ↦ k (auth e) s ]

  -- One handler of a row, on a device whose state fields are set already; `k` is the call of an
  -- `evaluate_..._state` function.
  unfoldable pub run_handler : Handler → Ppp → Option Ppp
  unfolding lcp_this_layer_up
  run_handler Handler.ppp_modem_send_reset s = keep s (ppp_modem_send_reset s)
  run_handler Handler.ppp_modem_send_echo s = keep s (ppp_modem_send_echo s)
  run_handler Handler.ppp_modem_send_creg s = keep s (ppp_modem_send_creg s)
  run_handler Handler.ppp_modem_send_cgreg s = keep s (ppp_modem_send_cgreg s)
  run_handler Handler.ppp_modem_send_cgdcont s = keep s (ppp_modem_send_cgdcont s)
  run_handler Handler.ppp_modem_send_cgatt s = keep s (ppp_modem_send_cgatt s)
  run_handler Handler.ppp_modem_send_dial s = keep s (ppp_modem_send_dial s)
  run_handler Handler.ppp_modem_connected s = k (lcp LcpEvent.up) s
  run_handler Handler.ppp_modem_disconnected s =
      k (lcp LcpEvent.down) (record s { io = send_hang_up s })
  run_handler Handler.lcp_this_layer_started s = k (modem ModemEvent.start) s
  run_handler Handler.lcp_this_layer_finished s = k (modem ModemEvent.stop) s
  run_handler Handler.lcp_this_layer_up s = lcp_this_layer_up s
  run_handler Handler.lcp_this_layer_down s = k (auth AuthEvent.down) s
  run_handler Handler.lcp_send_configure_request s = keep s (lcp_send_configure_request s)
  run_handler Handler.lcp_send_terminate_request s = keep s (lcp_send_terminate_request s)
  run_handler Handler.lcp_send_terminate_ack s = keep? s (lcp_send_terminate_ack s)
  run_handler Handler.lcp_send_configure_ack s = keep? s (lcp_send_configure_ack s)
  run_handler Handler.lcp_send_configure_nack s = keep? s (lcp_send_configure_nack s)
  run_handler Handler.lcp_send_echo_reply s = keep? s (lcp_send_echo_reply s)
  run_handler Handler.lcp_send_code_reject s = some s
  run_handler Handler.lcp_initialize_restart_count s = keep s (lcp_timer_start timer_on_lcpreq s.io)
  run_handler Handler.lcp_zero_restart_count s = keep s (lcp_zero_restart_count s.io)
  run_handler Handler.auth s =
      k (ipcp IpcpEvent.up) (record s { io = record s.io { ipcp_allowed_fields = 0xffff } })
  run_handler Handler.deauth s = k (ipcp IpcpEvent.down) s
  run_handler Handler.auth_abort s = k (lcp LcpEvent.close) (record s { io = stop_auth_timer s.io })
  run_handler Handler.auth_req s = keep s (auth_req s)
  run_handler Handler.auth_rsp s = keep? s (auth_rsp s)
  run_handler Handler.auth_start_timer s = keep s (auth_start_timer s.io)
  run_handler Handler.ipcp_send_req s = keep s (ipcp_send_req s)
  run_handler Handler.ipcp_send_ack s = keep? s (ipcp_send_ack s)
  run_handler Handler.ipcp_send_nack s = some s
  run_handler Handler.ipcp_start_timer s = keep s (ipcp_start_timer s.io)
  run_handler Handler.ipcp_bring_up s = keep s (ipcp_bring_up s)
  run_handler Handler.ipcp_bring_down s = some s

  unfoldable pub run_handlers : List Handler → Ppp → Option Ppp
  run_handlers [] s = some s
  run_handlers (h ∷ hs) s = run_handler h s >>= λ s'. run_handlers hs s'

abbrev has_handler : List Handler → Bool
has_handler [] = false
has_handler (h ∷ hs) = true

-- The restart timer is stopped on the way into a state that has no handler for its timeout.
unfoldable pub stop_restart_timer : LcpState → Io → Io
unfolding lcp_timer_stop ppp_lcp_fsm
stop_restart_timer l io =
    if has_handler (ppp_lcp_fsm l LcpEvent.to_pos).1
    then io
    else lcp_timer_stop timer_on_lcpterm (lcp_timer_stop timer_on_lcpreq io)

-- The state after a row's `next_state` has been stored, and the row's handlers.
unfoldable pub enter : Event → Ppp → Ppp × List Handler
unfolding stop_restart_timer ppp_modem_fsm ppp_auth_fsm ppp_ipcp_fsm
enter (modem e) s =
    let (n, hs) = ppp_modem_fsm s.modem_state e in
    (record s { control = record s.control { modem_state = n } }, hs)
enter (lcp e) s =
    let (n, hs) = ppp_lcp_fsm s.lcp_state e in
    (record s { control = record s.control { lcp_state = n }; io = stop_restart_timer n s.io }, hs)
enter (auth e) s =
    let (n, hs) = ppp_auth_fsm s.auth_state e in
    (record s { control = record s.control { auth_state = n } }, hs)
enter (ipcp e) s =
    let (n, hs) = ppp_ipcp_fsm s.ipcp_state e in
    (record s { control = record s.control { ipcp_state = n } }, hs)

-- `evaluate_modem_state`, `evaluate_lcp_state`, `evaluate_auth_state`, `evaluate_ipcp_state`: one
-- function on the events of all four.
unfoldable pub evaluate : ℕ → Event → Ppp → Option Ppp
unfolding enter
evaluate zero e s = none
evaluate (suc fuel) e s = let (s', hs) = enter e s in run_handlers (evaluate fuel) hs s'

-- Calls nest six deep at most.
abbrev pub depth : ℕ
depth = 6
