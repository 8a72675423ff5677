-- ===== src/Ppp/LcpTable.antt =====
-- modules/pico_dev_ppp.c: the transition table of the link control protocol. A row gives the next state and
-- the handlers; a null pointer in the source follows the last one.
use fd_picotcp.Prelude.{List, [], ◌∷◌}
use fd_picotcp.Ppp.Types.{LcpState, LcpEvent}
use fd_picotcp.Ppp.Handlers.{
  Handler, lcp_this_layer_started, lcp_send_configure_request, lcp_this_layer_finished,
  lcp_send_terminate_ack, lcp_send_code_reject, lcp_send_configure_ack, lcp_send_configure_nack,
  lcp_send_terminate_request, lcp_initialize_restart_count, lcp_this_layer_up, lcp_this_layer_down,
  lcp_zero_restart_count, lcp_send_echo_reply,
}

unfoldable pub ppp_lcp_fsm : LcpState → LcpEvent → LcpState × List Handler
ppp_lcp_fsm LcpState.initial LcpEvent.up = (LcpState.closed, [])
ppp_lcp_fsm LcpState.initial LcpEvent.down = (LcpState.initial, [])
ppp_lcp_fsm LcpState.initial LcpEvent.open_event = (LcpState.starting, lcp_this_layer_started ∷ [])
ppp_lcp_fsm LcpState.initial LcpEvent.close = (LcpState.initial, [])
ppp_lcp_fsm LcpState.initial LcpEvent.to_pos = (LcpState.initial, [])
ppp_lcp_fsm LcpState.initial LcpEvent.to_neg = (LcpState.initial, [])
ppp_lcp_fsm LcpState.initial LcpEvent.rcr_pos = (LcpState.initial, [])
ppp_lcp_fsm LcpState.initial LcpEvent.rcr_neg = (LcpState.initial, [])
ppp_lcp_fsm LcpState.initial LcpEvent.rca = (LcpState.initial, [])
ppp_lcp_fsm LcpState.initial LcpEvent.rcn = (LcpState.initial, [])
ppp_lcp_fsm LcpState.initial LcpEvent.rtr = (LcpState.initial, [])
ppp_lcp_fsm LcpState.initial LcpEvent.rta = (LcpState.initial, [])
ppp_lcp_fsm LcpState.initial LcpEvent.ruc = (LcpState.initial, [])
ppp_lcp_fsm LcpState.initial LcpEvent.rxj_pos = (LcpState.initial, [])
ppp_lcp_fsm LcpState.initial LcpEvent.rxj_neg = (LcpState.initial, [])
ppp_lcp_fsm LcpState.initial LcpEvent.rxr = (LcpState.initial, [])
ppp_lcp_fsm LcpState.starting LcpEvent.up = (LcpState.req_sent, lcp_send_configure_request ∷ [])
ppp_lcp_fsm LcpState.starting LcpEvent.down = (LcpState.starting, [])
ppp_lcp_fsm LcpState.starting LcpEvent.open_event = (LcpState.starting, [])
ppp_lcp_fsm LcpState.starting LcpEvent.close = (LcpState.initial, lcp_this_layer_finished ∷ [])
ppp_lcp_fsm LcpState.starting LcpEvent.to_pos = (LcpState.starting, [])
ppp_lcp_fsm LcpState.starting LcpEvent.to_neg = (LcpState.starting, [])
ppp_lcp_fsm LcpState.starting LcpEvent.rcr_pos = (LcpState.starting, [])
ppp_lcp_fsm LcpState.starting LcpEvent.rcr_neg = (LcpState.starting, [])
ppp_lcp_fsm LcpState.starting LcpEvent.rca = (LcpState.starting, [])
ppp_lcp_fsm LcpState.starting LcpEvent.rcn = (LcpState.starting, [])
ppp_lcp_fsm LcpState.starting LcpEvent.rtr = (LcpState.starting, [])
ppp_lcp_fsm LcpState.starting LcpEvent.rta = (LcpState.starting, [])
ppp_lcp_fsm LcpState.starting LcpEvent.ruc = (LcpState.starting, [])
ppp_lcp_fsm LcpState.starting LcpEvent.rxj_pos = (LcpState.starting, [])
ppp_lcp_fsm LcpState.starting LcpEvent.rxj_neg = (LcpState.starting, [])
ppp_lcp_fsm LcpState.starting LcpEvent.rxr = (LcpState.starting, [])
ppp_lcp_fsm LcpState.closed LcpEvent.up = (LcpState.closed, [])
ppp_lcp_fsm LcpState.closed LcpEvent.down = (LcpState.initial, [])
ppp_lcp_fsm LcpState.closed LcpEvent.open_event =
    (LcpState.req_sent, lcp_send_configure_request ∷ [])
ppp_lcp_fsm LcpState.closed LcpEvent.close = (LcpState.closed, [])
ppp_lcp_fsm LcpState.closed LcpEvent.to_pos = (LcpState.closed, [])
ppp_lcp_fsm LcpState.closed LcpEvent.to_neg = (LcpState.closed, [])
ppp_lcp_fsm LcpState.closed LcpEvent.rcr_pos = (LcpState.closed, lcp_send_terminate_ack ∷ [])
ppp_lcp_fsm LcpState.closed LcpEvent.rcr_neg = (LcpState.closed, lcp_send_terminate_ack ∷ [])
ppp_lcp_fsm LcpState.closed LcpEvent.rca = (LcpState.closed, lcp_send_terminate_ack ∷ [])
ppp_lcp_fsm LcpState.closed LcpEvent.rcn = (LcpState.closed, lcp_send_terminate_ack ∷ [])
ppp_lcp_fsm LcpState.closed LcpEvent.rtr = (LcpState.closed, lcp_send_terminate_ack ∷ [])
ppp_lcp_fsm LcpState.closed LcpEvent.rta = (LcpState.closed, [])
ppp_lcp_fsm LcpState.closed LcpEvent.ruc = (LcpState.closed, lcp_send_code_reject ∷ [])
ppp_lcp_fsm LcpState.closed LcpEvent.rxj_pos = (LcpState.closed, [])
ppp_lcp_fsm LcpState.closed LcpEvent.rxj_neg = (LcpState.closed, lcp_this_layer_finished ∷ [])
ppp_lcp_fsm LcpState.closed LcpEvent.rxr = (LcpState.closed, [])
ppp_lcp_fsm LcpState.stopped LcpEvent.up = (LcpState.stopped, [])
ppp_lcp_fsm LcpState.stopped LcpEvent.down = (LcpState.starting, lcp_this_layer_started ∷ [])
ppp_lcp_fsm LcpState.stopped LcpEvent.open_event = (LcpState.stopped, [])
ppp_lcp_fsm LcpState.stopped LcpEvent.close = (LcpState.closed, [])
ppp_lcp_fsm LcpState.stopped LcpEvent.to_pos = (LcpState.stopped, [])
ppp_lcp_fsm LcpState.stopped LcpEvent.to_neg = (LcpState.stopped, [])
ppp_lcp_fsm LcpState.stopped LcpEvent.rcr_pos =
    (LcpState.ack_sent, lcp_send_configure_request ∷ lcp_send_configure_ack ∷ [])
ppp_lcp_fsm LcpState.stopped LcpEvent.rcr_neg =
    (LcpState.req_sent, lcp_send_configure_request ∷ lcp_send_configure_nack ∷ [])
ppp_lcp_fsm LcpState.stopped LcpEvent.rca = (LcpState.stopped, lcp_send_terminate_ack ∷ [])
ppp_lcp_fsm LcpState.stopped LcpEvent.rcn = (LcpState.stopped, lcp_send_terminate_ack ∷ [])
ppp_lcp_fsm LcpState.stopped LcpEvent.rtr = (LcpState.stopped, lcp_send_terminate_ack ∷ [])
ppp_lcp_fsm LcpState.stopped LcpEvent.rta = (LcpState.stopped, [])
ppp_lcp_fsm LcpState.stopped LcpEvent.ruc = (LcpState.stopped, lcp_send_code_reject ∷ [])
ppp_lcp_fsm LcpState.stopped LcpEvent.rxj_pos = (LcpState.stopped, [])
ppp_lcp_fsm LcpState.stopped LcpEvent.rxj_neg = (LcpState.stopped, lcp_this_layer_finished ∷ [])
ppp_lcp_fsm LcpState.stopped LcpEvent.rxr = (LcpState.stopped, [])
ppp_lcp_fsm LcpState.closing LcpEvent.up = (LcpState.closing, [])
ppp_lcp_fsm LcpState.closing LcpEvent.down = (LcpState.initial, [])
ppp_lcp_fsm LcpState.closing LcpEvent.open_event = (LcpState.stopping, [])
ppp_lcp_fsm LcpState.closing LcpEvent.close = (LcpState.closing, [])
ppp_lcp_fsm LcpState.closing LcpEvent.to_pos = (LcpState.closing, lcp_send_terminate_request ∷ [])
ppp_lcp_fsm LcpState.closing LcpEvent.to_neg = (LcpState.closed, lcp_this_layer_finished ∷ [])
ppp_lcp_fsm LcpState.closing LcpEvent.rcr_pos = (LcpState.closing, [])
ppp_lcp_fsm LcpState.closing LcpEvent.rcr_neg = (LcpState.closing, [])
ppp_lcp_fsm LcpState.closing LcpEvent.rca = (LcpState.closing, [])
ppp_lcp_fsm LcpState.closing LcpEvent.rcn = (LcpState.closing, [])
ppp_lcp_fsm LcpState.closing LcpEvent.rtr = (LcpState.closing, lcp_send_terminate_ack ∷ [])
ppp_lcp_fsm LcpState.closing LcpEvent.rta = (LcpState.closed, lcp_this_layer_finished ∷ [])
ppp_lcp_fsm LcpState.closing LcpEvent.ruc = (LcpState.closing, lcp_send_code_reject ∷ [])
ppp_lcp_fsm LcpState.closing LcpEvent.rxj_pos = (LcpState.closing, [])
ppp_lcp_fsm LcpState.closing LcpEvent.rxj_neg = (LcpState.closed, lcp_this_layer_finished ∷ [])
ppp_lcp_fsm LcpState.closing LcpEvent.rxr = (LcpState.closing, [])
ppp_lcp_fsm LcpState.stopping LcpEvent.up = (LcpState.stopping, [])
ppp_lcp_fsm LcpState.stopping LcpEvent.down = (LcpState.starting, [])
ppp_lcp_fsm LcpState.stopping LcpEvent.open_event = (LcpState.stopping, [])
ppp_lcp_fsm LcpState.stopping LcpEvent.close = (LcpState.closing, [])
ppp_lcp_fsm LcpState.stopping LcpEvent.to_pos = (LcpState.stopping, lcp_send_terminate_request ∷ [])
ppp_lcp_fsm LcpState.stopping LcpEvent.to_neg = (LcpState.stopped, lcp_this_layer_finished ∷ [])
ppp_lcp_fsm LcpState.stopping LcpEvent.rcr_pos = (LcpState.stopping, [])
ppp_lcp_fsm LcpState.stopping LcpEvent.rcr_neg = (LcpState.stopping, [])
ppp_lcp_fsm LcpState.stopping LcpEvent.rca = (LcpState.stopping, [])
ppp_lcp_fsm LcpState.stopping LcpEvent.rcn = (LcpState.stopping, [])
ppp_lcp_fsm LcpState.stopping LcpEvent.rtr = (LcpState.stopping, lcp_send_terminate_ack ∷ [])
ppp_lcp_fsm LcpState.stopping LcpEvent.rta = (LcpState.stopped, lcp_this_layer_finished ∷ [])
ppp_lcp_fsm LcpState.stopping LcpEvent.ruc = (LcpState.stopping, lcp_send_code_reject ∷ [])
ppp_lcp_fsm LcpState.stopping LcpEvent.rxj_pos = (LcpState.stopping, [])
ppp_lcp_fsm LcpState.stopping LcpEvent.rxj_neg = (LcpState.stopped, lcp_this_layer_finished ∷ [])
ppp_lcp_fsm LcpState.stopping LcpEvent.rxr = (LcpState.stopping, [])
ppp_lcp_fsm LcpState.req_sent LcpEvent.up = (LcpState.req_sent, [])
ppp_lcp_fsm LcpState.req_sent LcpEvent.down = (LcpState.starting, [])
ppp_lcp_fsm LcpState.req_sent LcpEvent.open_event = (LcpState.req_sent, [])
ppp_lcp_fsm LcpState.req_sent LcpEvent.close = (LcpState.closing, lcp_send_terminate_request ∷ [])
ppp_lcp_fsm LcpState.req_sent LcpEvent.to_pos = (LcpState.req_sent, lcp_send_configure_request ∷ [])
ppp_lcp_fsm LcpState.req_sent LcpEvent.to_neg = (LcpState.stopped, lcp_this_layer_finished ∷ [])
ppp_lcp_fsm LcpState.req_sent LcpEvent.rcr_pos = (LcpState.ack_sent, lcp_send_configure_ack ∷ [])
ppp_lcp_fsm LcpState.req_sent LcpEvent.rcr_neg = (LcpState.req_sent, lcp_send_configure_nack ∷ [])
ppp_lcp_fsm LcpState.req_sent LcpEvent.rca = (LcpState.ack_rcvd, lcp_initialize_restart_count ∷ [])
ppp_lcp_fsm LcpState.req_sent LcpEvent.rcn = (LcpState.req_sent, lcp_send_configure_request ∷ [])
ppp_lcp_fsm LcpState.req_sent LcpEvent.rtr = (LcpState.req_sent, lcp_send_terminate_ack ∷ [])
ppp_lcp_fsm LcpState.req_sent LcpEvent.rta = (LcpState.req_sent, [])
ppp_lcp_fsm LcpState.req_sent LcpEvent.ruc = (LcpState.req_sent, lcp_send_code_reject ∷ [])
ppp_lcp_fsm LcpState.req_sent LcpEvent.rxj_pos = (LcpState.req_sent, [])
ppp_lcp_fsm LcpState.req_sent LcpEvent.rxj_neg = (LcpState.stopped, lcp_this_layer_finished ∷ [])
ppp_lcp_fsm LcpState.req_sent LcpEvent.rxr = (LcpState.req_sent, [])
ppp_lcp_fsm LcpState.ack_rcvd LcpEvent.up = (LcpState.ack_rcvd, [])
ppp_lcp_fsm LcpState.ack_rcvd LcpEvent.down = (LcpState.starting, [])
ppp_lcp_fsm LcpState.ack_rcvd LcpEvent.open_event = (LcpState.ack_rcvd, [])
ppp_lcp_fsm LcpState.ack_rcvd LcpEvent.close = (LcpState.closing, lcp_send_terminate_request ∷ [])
ppp_lcp_fsm LcpState.ack_rcvd LcpEvent.to_pos = (LcpState.req_sent, lcp_send_configure_request ∷ [])
ppp_lcp_fsm LcpState.ack_rcvd LcpEvent.to_neg = (LcpState.stopped, lcp_this_layer_finished ∷ [])
ppp_lcp_fsm LcpState.ack_rcvd LcpEvent.rcr_pos =
    (LcpState.opened, lcp_send_configure_ack ∷ lcp_this_layer_up ∷ [])
ppp_lcp_fsm LcpState.ack_rcvd LcpEvent.rcr_neg = (LcpState.ack_rcvd, lcp_send_configure_nack ∷ [])
ppp_lcp_fsm LcpState.ack_rcvd LcpEvent.rca = (LcpState.req_sent, lcp_send_configure_request ∷ [])
ppp_lcp_fsm LcpState.ack_rcvd LcpEvent.rcn = (LcpState.req_sent, lcp_send_configure_request ∷ [])
ppp_lcp_fsm LcpState.ack_rcvd LcpEvent.rtr = (LcpState.req_sent, lcp_send_terminate_ack ∷ [])
ppp_lcp_fsm LcpState.ack_rcvd LcpEvent.rta = (LcpState.req_sent, [])
ppp_lcp_fsm LcpState.ack_rcvd LcpEvent.ruc = (LcpState.ack_rcvd, lcp_send_code_reject ∷ [])
ppp_lcp_fsm LcpState.ack_rcvd LcpEvent.rxj_pos = (LcpState.req_sent, [])
ppp_lcp_fsm LcpState.ack_rcvd LcpEvent.rxj_neg = (LcpState.stopped, lcp_this_layer_finished ∷ [])
ppp_lcp_fsm LcpState.ack_rcvd LcpEvent.rxr = (LcpState.ack_rcvd, [])
ppp_lcp_fsm LcpState.ack_sent LcpEvent.up = (LcpState.ack_sent, [])
ppp_lcp_fsm LcpState.ack_sent LcpEvent.down = (LcpState.starting, [])
ppp_lcp_fsm LcpState.ack_sent LcpEvent.open_event = (LcpState.ack_sent, [])
ppp_lcp_fsm LcpState.ack_sent LcpEvent.close = (LcpState.closing, lcp_send_terminate_request ∷ [])
ppp_lcp_fsm LcpState.ack_sent LcpEvent.to_pos = (LcpState.ack_sent, lcp_send_configure_request ∷ [])
ppp_lcp_fsm LcpState.ack_sent LcpEvent.to_neg = (LcpState.stopped, lcp_this_layer_finished ∷ [])
ppp_lcp_fsm LcpState.ack_sent LcpEvent.rcr_pos = (LcpState.ack_sent, lcp_send_configure_ack ∷ [])
ppp_lcp_fsm LcpState.ack_sent LcpEvent.rcr_neg = (LcpState.req_sent, lcp_send_configure_nack ∷ [])
ppp_lcp_fsm LcpState.ack_sent LcpEvent.rca = (LcpState.opened, lcp_this_layer_up ∷ [])
ppp_lcp_fsm LcpState.ack_sent LcpEvent.rcn = (LcpState.ack_sent, lcp_send_configure_request ∷ [])
ppp_lcp_fsm LcpState.ack_sent LcpEvent.rtr = (LcpState.req_sent, lcp_send_terminate_ack ∷ [])
ppp_lcp_fsm LcpState.ack_sent LcpEvent.rta = (LcpState.ack_sent, [])
ppp_lcp_fsm LcpState.ack_sent LcpEvent.ruc = (LcpState.ack_sent, lcp_send_code_reject ∷ [])
ppp_lcp_fsm LcpState.ack_sent LcpEvent.rxj_pos = (LcpState.ack_sent, [])
ppp_lcp_fsm LcpState.ack_sent LcpEvent.rxj_neg = (LcpState.stopped, lcp_this_layer_finished ∷ [])
ppp_lcp_fsm LcpState.ack_sent LcpEvent.rxr = (LcpState.ack_sent, [])
ppp_lcp_fsm LcpState.opened LcpEvent.up = (LcpState.opened, [])
ppp_lcp_fsm LcpState.opened LcpEvent.down = (LcpState.starting, lcp_this_layer_down ∷ [])
ppp_lcp_fsm LcpState.opened LcpEvent.open_event = (LcpState.opened, [])
ppp_lcp_fsm LcpState.opened LcpEvent.close =
    (LcpState.closing, lcp_this_layer_down ∷ lcp_send_terminate_request ∷ [])
ppp_lcp_fsm LcpState.opened LcpEvent.to_pos = (LcpState.opened, [])
ppp_lcp_fsm LcpState.opened LcpEvent.to_neg = (LcpState.opened, [])
ppp_lcp_fsm LcpState.opened LcpEvent.rcr_pos = (
  LcpState.ack_sent,
  lcp_this_layer_down ∷ lcp_send_terminate_request ∷ lcp_send_configure_ack ∷ [],
)
ppp_lcp_fsm LcpState.opened LcpEvent.rcr_neg = (
  LcpState.req_sent,
  lcp_this_layer_down ∷ lcp_send_configure_request ∷ lcp_send_configure_nack ∷ [],
)
ppp_lcp_fsm LcpState.opened LcpEvent.rca =
    (LcpState.req_sent, lcp_this_layer_down ∷ lcp_send_terminate_request ∷ [])
ppp_lcp_fsm LcpState.opened LcpEvent.rcn =
    (LcpState.req_sent, lcp_this_layer_down ∷ lcp_send_terminate_request ∷ [])
ppp_lcp_fsm LcpState.opened LcpEvent.rtr =
    (LcpState.stopping, lcp_this_layer_down ∷ lcp_zero_restart_count ∷ lcp_send_terminate_ack ∷ [])
ppp_lcp_fsm LcpState.opened LcpEvent.rta =
    (LcpState.req_sent, lcp_this_layer_down ∷ lcp_send_terminate_request ∷ [])
ppp_lcp_fsm LcpState.opened LcpEvent.ruc = (LcpState.opened, lcp_send_code_reject ∷ [])
ppp_lcp_fsm LcpState.opened LcpEvent.rxj_pos = (LcpState.opened, [])
ppp_lcp_fsm LcpState.opened LcpEvent.rxj_neg =
    (LcpState.stopping, lcp_this_layer_down ∷ lcp_send_terminate_request ∷ [])
ppp_lcp_fsm LcpState.opened LcpEvent.rxr = (LcpState.opened, lcp_send_echo_reply ∷ [])
