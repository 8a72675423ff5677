-- ===== src/Ppp/IpcpTable.antt =====
-- modules/pico_dev_ppp.c: the transition table of IP control.
use fd_picotcp.Prelude.{List, [], ◌∷◌}
use fd_picotcp.Ppp.Types.{IpcpState, IpcpEvent}
use fd_picotcp.Ppp.Handlers.{
  Handler, ipcp_send_req, ipcp_start_timer, ipcp_send_ack, ipcp_send_nack, ipcp_bring_up,
  ipcp_bring_down,
}

unfoldable pub ppp_ipcp_fsm : IpcpState → IpcpEvent → IpcpState × List Handler
ppp_ipcp_fsm IpcpState.initial IpcpEvent.up =
    (IpcpState.req_sent, ipcp_send_req ∷ ipcp_start_timer ∷ [])
ppp_ipcp_fsm IpcpState.initial IpcpEvent.down = (IpcpState.initial, [])
ppp_ipcp_fsm IpcpState.initial IpcpEvent.rcr_pos = (IpcpState.initial, [])
ppp_ipcp_fsm IpcpState.initial IpcpEvent.rcr_neg = (IpcpState.initial, [])
ppp_ipcp_fsm IpcpState.initial IpcpEvent.rca = (IpcpState.initial, [])
ppp_ipcp_fsm IpcpState.initial IpcpEvent.rcn = (IpcpState.initial, [])
ppp_ipcp_fsm IpcpState.initial IpcpEvent.to = (IpcpState.initial, [])
ppp_ipcp_fsm IpcpState.req_sent IpcpEvent.up = (IpcpState.req_sent, [])
ppp_ipcp_fsm IpcpState.req_sent IpcpEvent.down = (IpcpState.initial, [])
ppp_ipcp_fsm IpcpState.req_sent IpcpEvent.rcr_pos = (IpcpState.ack_sent, ipcp_send_ack ∷ [])
ppp_ipcp_fsm IpcpState.req_sent IpcpEvent.rcr_neg = (IpcpState.req_sent, ipcp_send_nack ∷ [])
ppp_ipcp_fsm IpcpState.req_sent IpcpEvent.rca = (IpcpState.ack_rcvd, [])
ppp_ipcp_fsm IpcpState.req_sent IpcpEvent.rcn =
    (IpcpState.req_sent, ipcp_send_req ∷ ipcp_start_timer ∷ [])
ppp_ipcp_fsm IpcpState.req_sent IpcpEvent.to =
    (IpcpState.req_sent, ipcp_send_req ∷ ipcp_start_timer ∷ [])
ppp_ipcp_fsm IpcpState.ack_rcvd IpcpEvent.up = (IpcpState.ack_rcvd, [])
ppp_ipcp_fsm IpcpState.ack_rcvd IpcpEvent.down = (IpcpState.initial, [])
ppp_ipcp_fsm IpcpState.ack_rcvd IpcpEvent.rcr_pos =
    (IpcpState.opened, ipcp_send_ack ∷ ipcp_bring_up ∷ [])
ppp_ipcp_fsm IpcpState.ack_rcvd IpcpEvent.rcr_neg = (IpcpState.ack_rcvd, ipcp_send_nack ∷ [])
ppp_ipcp_fsm IpcpState.ack_rcvd IpcpEvent.rca =
    (IpcpState.req_sent, ipcp_send_req ∷ ipcp_start_timer ∷ [])
ppp_ipcp_fsm IpcpState.ack_rcvd IpcpEvent.rcn =
    (IpcpState.req_sent, ipcp_send_req ∷ ipcp_start_timer ∷ [])
ppp_ipcp_fsm IpcpState.ack_rcvd IpcpEvent.to =
    (IpcpState.ack_rcvd, ipcp_send_req ∷ ipcp_start_timer ∷ [])
ppp_ipcp_fsm IpcpState.ack_sent IpcpEvent.up = (IpcpState.ack_sent, [])
ppp_ipcp_fsm IpcpState.ack_sent IpcpEvent.down = (IpcpState.initial, [])
ppp_ipcp_fsm IpcpState.ack_sent IpcpEvent.rcr_pos = (IpcpState.ack_sent, ipcp_send_ack ∷ [])
ppp_ipcp_fsm IpcpState.ack_sent IpcpEvent.rcr_neg = (IpcpState.req_sent, ipcp_send_nack ∷ [])
ppp_ipcp_fsm IpcpState.ack_sent IpcpEvent.rca = (IpcpState.opened, ipcp_bring_up ∷ [])
ppp_ipcp_fsm IpcpState.ack_sent IpcpEvent.rcn =
    (IpcpState.ack_sent, ipcp_send_req ∷ ipcp_start_timer ∷ [])
ppp_ipcp_fsm IpcpState.ack_sent IpcpEvent.to =
    (IpcpState.ack_sent, ipcp_send_req ∷ ipcp_start_timer ∷ [])
ppp_ipcp_fsm IpcpState.opened IpcpEvent.up = (IpcpState.opened, [])
ppp_ipcp_fsm IpcpState.opened IpcpEvent.down = (IpcpState.initial, ipcp_bring_down ∷ [])
ppp_ipcp_fsm IpcpState.opened IpcpEvent.rcr_pos =
    (IpcpState.ack_sent, ipcp_bring_down ∷ ipcp_send_req ∷ ipcp_send_ack ∷ [])
ppp_ipcp_fsm IpcpState.opened IpcpEvent.rcr_neg =
    (IpcpState.req_sent, ipcp_bring_down ∷ ipcp_send_req ∷ ipcp_send_nack ∷ [])
ppp_ipcp_fsm IpcpState.opened IpcpEvent.rca = (IpcpState.req_sent, ipcp_send_req ∷ [])
ppp_ipcp_fsm IpcpState.opened IpcpEvent.rcn = (IpcpState.req_sent, ipcp_send_req ∷ [])
ppp_ipcp_fsm IpcpState.opened IpcpEvent.to = (IpcpState.opened, [])
