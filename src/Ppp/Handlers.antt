-- ===== src/Ppp/Handlers.antt =====
-- modules/pico_dev_ppp.c: the functions that the tables of the state machines hold, as data.

pub data Handler : Type 0 where
  ppp_modem_send_reset ppp_modem_send_echo ppp_modem_send_creg : Handler
  ppp_modem_send_cgreg ppp_modem_send_cgdcont ppp_modem_send_cgatt : Handler
  ppp_modem_send_dial ppp_modem_connected ppp_modem_disconnected : Handler
  lcp_this_layer_started lcp_send_configure_request lcp_this_layer_finished : Handler
  lcp_send_terminate_ack lcp_send_code_reject lcp_send_configure_ack : Handler
  lcp_send_configure_nack lcp_send_terminate_request lcp_initialize_restart_count : Handler
  lcp_this_layer_up lcp_this_layer_down lcp_zero_restart_count : Handler
  lcp_send_echo_reply auth auth_req : Handler
  auth_start_timer auth_abort deauth : Handler
  auth_rsp ipcp_send_req ipcp_start_timer : Handler
  ipcp_send_ack ipcp_send_nack ipcp_bring_up : Handler
  ipcp_bring_down : Handler
