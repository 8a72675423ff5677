-- ===== src/Ppp/AuthTable.antt =====
-- modules/pico_dev_ppp.c: the transition table of authentication.
use fd_picotcp.Prelude.{List, [], ◌∷◌}
use fd_picotcp.Ppp.Types.{AuthState, AuthEvent}
use fd_picotcp.Ppp.Handlers.{
  Handler, auth, auth_req, auth_start_timer, auth_abort, deauth, auth_rsp,
}

unfoldable pub ppp_auth_fsm : AuthState → AuthEvent → AuthState × List Handler
ppp_auth_fsm AuthState.initial AuthEvent.up_none = (AuthState.authenticated, auth ∷ [])
ppp_auth_fsm AuthState.initial AuthEvent.up_pap =
    (AuthState.req_sent, auth_req ∷ auth_start_timer ∷ [])
ppp_auth_fsm AuthState.initial AuthEvent.up_chap = (AuthState.starting, [])
ppp_auth_fsm AuthState.initial AuthEvent.down = (AuthState.initial, [])
ppp_auth_fsm AuthState.initial AuthEvent.rac = (AuthState.initial, [])
ppp_auth_fsm AuthState.initial AuthEvent.raa = (AuthState.initial, [])
ppp_auth_fsm AuthState.initial AuthEvent.ran = (AuthState.initial, auth_abort ∷ [])
ppp_auth_fsm AuthState.initial AuthEvent.to = (AuthState.initial, [])
ppp_auth_fsm AuthState.starting AuthEvent.up_none = (AuthState.starting, [])
ppp_auth_fsm AuthState.starting AuthEvent.up_pap = (AuthState.starting, [])
ppp_auth_fsm AuthState.starting AuthEvent.up_chap = (AuthState.starting, [])
ppp_auth_fsm AuthState.starting AuthEvent.down = (AuthState.initial, deauth ∷ [])
ppp_auth_fsm AuthState.starting AuthEvent.rac =
    (AuthState.rsp_sent, auth_rsp ∷ auth_start_timer ∷ [])
ppp_auth_fsm AuthState.starting AuthEvent.raa = (AuthState.starting, auth_start_timer ∷ [])
ppp_auth_fsm AuthState.starting AuthEvent.ran = (AuthState.starting, auth_abort ∷ [])
ppp_auth_fsm AuthState.starting AuthEvent.to = (AuthState.initial, auth_req ∷ auth_start_timer ∷ [])
ppp_auth_fsm AuthState.rsp_sent AuthEvent.up_none = (AuthState.rsp_sent, [])
ppp_auth_fsm AuthState.rsp_sent AuthEvent.up_pap = (AuthState.rsp_sent, [])
ppp_auth_fsm AuthState.rsp_sent AuthEvent.up_chap = (AuthState.rsp_sent, [])
ppp_auth_fsm AuthState.rsp_sent AuthEvent.down = (AuthState.initial, deauth ∷ [])
ppp_auth_fsm AuthState.rsp_sent AuthEvent.rac =
    (AuthState.rsp_sent, auth_rsp ∷ auth_start_timer ∷ [])
ppp_auth_fsm AuthState.rsp_sent AuthEvent.raa = (AuthState.authenticated, auth ∷ [])
ppp_auth_fsm AuthState.rsp_sent AuthEvent.ran = (AuthState.starting, auth_abort ∷ [])
ppp_auth_fsm AuthState.rsp_sent AuthEvent.to = (AuthState.starting, auth_start_timer ∷ [])
ppp_auth_fsm AuthState.req_sent AuthEvent.up_none = (AuthState.req_sent, [])
ppp_auth_fsm AuthState.req_sent AuthEvent.up_pap = (AuthState.req_sent, [])
ppp_auth_fsm AuthState.req_sent AuthEvent.up_chap = (AuthState.req_sent, [])
ppp_auth_fsm AuthState.req_sent AuthEvent.down = (AuthState.initial, deauth ∷ [])
ppp_auth_fsm AuthState.req_sent AuthEvent.rac = (AuthState.req_sent, [])
ppp_auth_fsm AuthState.req_sent AuthEvent.raa = (AuthState.authenticated, auth ∷ [])
ppp_auth_fsm AuthState.req_sent AuthEvent.ran = (AuthState.req_sent, auth_abort ∷ [])
ppp_auth_fsm AuthState.req_sent AuthEvent.to =
    (AuthState.req_sent, auth_req ∷ auth_start_timer ∷ [])
ppp_auth_fsm AuthState.authenticated AuthEvent.up_none = (AuthState.authenticated, [])
ppp_auth_fsm AuthState.authenticated AuthEvent.up_pap = (AuthState.authenticated, [])
ppp_auth_fsm AuthState.authenticated AuthEvent.up_chap = (AuthState.authenticated, [])
ppp_auth_fsm AuthState.authenticated AuthEvent.down = (AuthState.initial, deauth ∷ [])
ppp_auth_fsm AuthState.authenticated AuthEvent.rac = (AuthState.rsp_sent, auth_rsp ∷ [])
ppp_auth_fsm AuthState.authenticated AuthEvent.raa = (AuthState.authenticated, [])
ppp_auth_fsm AuthState.authenticated AuthEvent.ran = (AuthState.authenticated, [])
ppp_auth_fsm AuthState.authenticated AuthEvent.to = (AuthState.authenticated, [])
