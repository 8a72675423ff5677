-- ===== src/Ppp/Tests/Witnesses.antt =====
-- The theorems about modules/pico_dev_ppp.c on concrete devices.
use fd_picotcp.Prelude.{
  ℕ, ◌≡◌, ◌≤◌, refl, arith, true, false, List, [], ◌∷◌, none, some, ◌>>=◌, length, take, drop,
}
use fd_picotcp.Ppp.Types.{
  timer_add, Ppp, ModemState, LcpState, LcpEvent, AuthState, AuthEvent, IpcpState,
}
use fd_picotcp.Ppp.Wire.{pico_ppp_send, pico_ppp_ctl_send}
use fd_picotcp.Ppp.Lcp.{nack_options, is_rejected, configure_options}
use fd_picotcp.Ppp.Ipcp.{ipcp_request_fill, ipcp_request_options_size}
use fd_picotcp.Ppp.IpcpInput.{IpcpScan, ipcp_options}
use fd_picotcp.Ppp.Input.{ppp_process_packet_payload}
use fd_picotcp.Ppp.Engine.{lcp, auth, evaluate, run_handlers, run_handler, depth}
use fd_picotcp.Ppp.Modem.{ppp_modem_send_reset}
use fd_picotcp.Ppp.Poll.{poll_loop}
use fd_picotcp.Ppp.Device.{pico_ppp_create, pico_ppp_connect, pico_ppp_tick, pico_ppp_link_state}
use fd_picotcp.Ppp.Control.Refine.{Ready, Same}
use fd_picotcp.Ppp.Control.Depth.{at, evaluate_returns}
use fd_picotcp.Ppp.Control.Layers.{IsLayered, IsStacked, evaluate-IsStacked}
use fd_picotcp.Ppp.Framing.Delivery.{with_buf, idle}
use fd_picotcp.Ppp.Framing.Datagrams.{handed, datagram_delivered}
use fd_picotcp.Ppp.Framing.Frames.{control_frame_delivered}
use fd_picotcp.Ppp.Options.Ends.{over, option, option_loops_end}
use fd_picotcp.Ppp.Options.Loops.{empty_option_loops}
use fd_picotcp.Ppp.Options.Sizes.{options_fit}
use fd_picotcp.Ppp.Session.Silence.{Restarts}
use fd_picotcp.Ppp.Ops.{op_connect, op_tick, first_line, run_driver, created, then_op}
use fd_picotcp.Ppp.Session.Histories.{Lives-IsLayered}
use fd_picotcp.Ppp.Session.GivingUp.{Ticks, gives_up}
use fd_picotcp.Ppp.Session.Stale.{stale_session}
use fd_picotcp.Ppp.Tests.{
  fresh, world, mru_request, config, quiet, no_addresses, device, open_link, line,
}

abbrev negotiating : Ppp
negotiating = device (at ModemState.connected LcpState.req_sent AuthState.initial IpcpState.initial)

ready : Ready negotiating.request
unfolding nack_options is_rejected
ready = record { at = 4; points = refl; out = []; ends = refl }

layered : IsLayered negotiating.control
layered = record { linked = refl; opened = λ h. h }

abbrev payload : List ℕ
payload = 9 ∷ 0x7e ∷ 0 ∷ 4 ∷ []

abbrev room : List ℕ
room = 0 ∷ 0 ∷ 0 ∷ 0 ∷ 0 ∷ 0 ∷ 0 ∷ 0 ∷ 0 ∷ 0 ∷ 0 ∷ 0 ∷ []

control_frame_delivered_example :
    (frame cells : List ℕ) × ((pico_ppp_ctl_send
        (device open_link).config
        0x21c0
        payload
        (device open_link).io).sent
      ≡ frame ∷ (device open_link).sent)
    × (take 6 (drop 2 cells) ≡ 0xc0 ∷ 0x21 ∷ payload)
    × (poll_loop frame (with_buf (device open_link) room) (idle line 0) 10 ≡ (
        ppp_process_packet_payload (with_buf (device open_link) cells) 2 6 >>= λ t.
        some (record { device = t; line = idle line 0; score = 9 })))
control_frame_delivered_example =
    control_frame_delivered (device open_link).config (device open_link).io (device open_link) line
      10 0x21c0 payload room refl refl refl (omega arith) (omega arith) (omega arith)

evaluate_returns_example :
    (t : Ppp) × (evaluate depth (lcp LcpEvent.rcr_pos) negotiating ≡ some t) × Same negotiating t
evaluate_returns_example = evaluate_returns (lcp LcpEvent.rcr_pos) negotiating (λ _. ready)

evaluate-IsStacked_example :
    (t : Ppp) × (evaluate depth (lcp LcpEvent.rtr) (device open_link) ≡ some t)
    × IsStacked t.control
evaluate-IsStacked_example =
    evaluate-IsStacked (lcp LcpEvent.rtr) (device open_link) (λ _. ready) refl refl
      (record { linked = refl; opened = λ h. h }) (λ h. h)

abbrev request : List ℕ
request = 1 ∷ 9 ∷ 0 ∷ 8 ∷ 3 ∷ 4 ∷ 5 ∷ 220 ∷ []

abbrev scan : IpcpScan
scan = record { allowed = 0xffff; addresses = no_addresses; reject = 0; offset = 4 }

option_loops_end_example :
    ((q : List ℕ) × (nack_options 9 request 8 8 4 ≡ some q))
    × ((q : IpcpScan) × (ipcp_options 9 1 request 8 scan ≡ some q))
option_loops_end_example =
    option_loops_end request 8 8 1 scan (option (omega arith) (omega arith) (over (omega arith)))
      refl

abbrev looping : List ℕ
looping = 1 ∷ 9 ∷ 0 ∷ 8 ∷ 3 ∷ 0 ∷ 5 ∷ 220 ∷ []

empty_option_loops_example :
    (nack_options 100 looping 8 8 4 ≡ none) × (ipcp_options 100 1 looping 8 scan ≡ none)
empty_option_loops_example = empty_option_loops 100 1 looping 8 8 scan (omega arith) refl

options_fit_example :
    (length (configure_options (device open_link)) ≤ 8)
    × (length (ipcp_request_fill (device open_link)) ≤ ipcp_request_options_size (device open_link))
    × (ipcp_request_options_size (device open_link) ≤ 30)
options_fit_example = options_fit (device open_link)

abbrev fallen_back : Ppp
fallen_back = device (at ModemState.connected LcpState.opened AuthState.starting IpcpState.opened)

stale_session_example :
    (t : Ppp) × ((evaluate depth (auth AuthEvent.to) fallen_back >>= λ u.
    evaluate depth (lcp LcpEvent.close) u)
      ≡ some t)
    × (t.control ≡ at ModemState.connected LcpState.closing AuthState.initial IpcpState.opened)
    × (pico_ppp_link_state t ≡ 1)
stale_session_example = stale_session fallen_back refl

-- Two requests are left before the peer is given up.
abbrev asking : Ppp
asking = record negotiating {
  io = record negotiating.io { timer_on = 4; timer_val = 3; timer_count = 2 };
}

gives_up_example : (k : ℕ) × (t : Ppp) × (k ≤ 9) × Ticks k asking t × Restarts t
gives_up_example = gives_up 2 asking (omega arith) (record {
  connected = refl;
  asking = refl;
  armed = record { on = refl; val = omega arith; count = refl };
})

abbrev newborn : Ppp
newborn = record {
  control = fresh;
  request = record { recv_buf = mru_request; pkt = none; len = 0; rej = 0 };
  config = record {
    autoreconnect = false;
    apn = [];
    password = [];
    username = [];
    lcpopt_local = 0x18a;
    lcpopt_peer = 0;
    auth = 0;
    serial_recv = false;
    serial_send = false;
    serial_set_speed = false;
    zalloc = λ _. true;
    md5sum = λ m. m;
    stack_byte = λ _. 0;
  };
  addresses = no_addresses;
  io = record quiet { frame_id = 5; net_calls = timer_add 1000 ∷ []; allocs = 1 };
  received = [];
}

-- Two operations later, the modem is being reset.
abbrev dialling : Ppp
dialling = record newborn {
  control = at ModemState.reset LcpState.starting AuthState.initial IpcpState.initial;
  config = record newborn.config { autoreconnect = true };
  io = record newborn.io {
    timer_on = 1;
    timer_val = 3;
    net_calls = timer_add 1000 ∷ timer_add 1000 ∷ [];
  };
}

Lives-IsLayered_example : IsLayered dialling.control
unfolding pico_ppp_create run_driver pico_ppp_connect pico_ppp_tick evaluate run_handlers
    run_handler ppp_modem_send_reset
Lives-IsLayered_example =
    Lives-IsLayered world 5 (record { device = dialling; line = first_line })
      (then_op op_tick (then_op op_connect (created {s = newborn} true refl) refl) refl)

-- A device whose peer does without address and control bytes.
abbrev terse : Ppp
terse = record (device open_link) { config = record config { lcpopt_peer = 0x100 } }

datagram_delivered_example :
    (frame delivered : List ℕ) × ((pico_ppp_send terse payload).sent ≡ frame ∷ [])
    × (poll_loop frame (with_buf (device open_link) room) (idle line 0) 10
        ≡ some (record {
          device = handed (device open_link) delivered payload;
          line = idle line 0;
          score = 9;
        }))
datagram_delivered_example =
    datagram_delivered terse (device open_link) line 10 payload room refl refl refl refl refl
      (omega arith) (omega arith) (omega arith)
