-- ===== src/Ppp/Session/Silence.antt =====
-- The restart timer of the link control protocol in modules/pico_dev_ppp.c, when the peer is silent.
use fd_picotcp.Prelude.{
  ℕ, suc, ◌+◌, ◌≤◌, ◌≡◌, refl, ap, ◌∙◌, arith, bit_and, bit_or, length, ◌++◌, List, some, Bool,
  true, false, ◌==◌, if◌then◌else◌,
}
use fd_picotcp.Ppp.Types.{
  Io, Ppp, Config, LcpState, LcpEvent, ModemState, default_timer, timer_on_lcpreq, timer_on_modem,
  timer_on_lcpterm, pico_ppp_mru,
}
use fd_picotcp.Ppp.Wire.{
  pico_ppp_ctl_send, ppp_serial_send_escape, escaped_send, ctl_frame, esc_char_count, count_alloc,
  bit, lcpopt_mru,
}
use fd_picotcp.Ppp.Lcp.{
  lcp_send_configure_request, lcp_timer_start, lcp_timer_stop, next_frame_id, ppp_proto_lcp,
  configure_options, request_header,
}
use fd_picotcp.Ppp.LcpTable.{ppp_lcp_fsm}
use fd_picotcp.Ppp.ModemTable.{ppp_modem_fsm}
use fd_picotcp.Ppp.Engine.{lcp, evaluate, run_handlers, run_handler, depth}
use fd_picotcp.Ppp.Modem.{send_hang_up, ppp_modem_send_reset, ppp_modem_start_timer}

-- The three fields of the timers are as they were.
record Quiet (io io' : Io) : Type 0 where
  on : io'.timer_on ≡ io.timer_on
  val : io'.timer_val ≡ io.timer_val
  count : io'.timer_count ≡ io.timer_count

Quiet-if : (b : Bool) (io x y : Io) → Quiet io x → Quiet io y → Quiet io (if b then x else y)
Quiet-if true io x y p q = p
Quiet-if false io x y p q = q

Quiet-escaped_send :
    (c : Config) (start : ℕ) (rest : List ℕ) (io : Io) → Quiet io (escaped_send c start rest io)
unfolding escaped_send
Quiet-escaped_send c start rest io =
    let same : Quiet io io = record { on = refl; val = refl; count = refl } in
    Quiet-if (esc_char_count rest == 0) io _ _ (record { on = refl; val = refl; count = refl })
      (Quiet-if (c.zalloc io.allocs) io _ _ (record { on = refl; val = refl; count = refl })
        (record { on = refl; val = refl; count = refl }))

Quiet-ctl_send :
    (c : Config) (code : ℕ) (payload : List ℕ) (io : Io)
    → Quiet io (pico_ppp_ctl_send c code payload io)
unfolding pico_ppp_ctl_send ppp_serial_send_escape ctl_frame
Quiet-ctl_send c code payload io =
    Quiet-if c.serial_send io _ io (Quiet-escaped_send c _ _ io)
      (record { on = refl; val = refl; count = refl })

-- The restart timer runs, with `n` requests left after the one that it waits for.
pub record Armed (n : ℕ) (io : Io) : Type 0 where
  pub on : io.timer_on ≡ timer_on_lcpreq
  pub val : io.timer_val ≤ default_timer
  pub count : io.timer_count ≡ n

Armed-if : (b : Bool) (n : ℕ) (x y : Io) → Armed n x → Armed n y → Armed n (if b then x else y)
Armed-if true n x y p q = p
Armed-if false n x y p q = q

Armed-restart :
    (n : ℕ) (io : Io)
    → io.timer_on ≡ timer_on_lcpreq
    → io.timer_count ≡ suc n
    → Armed (suc n) (lcp_timer_start timer_on_lcpreq (record io { timer_val = default_timer }))
unfolding lcp_timer_start
Armed-restart n io on count = record {
  on = rw on refl;
  val = omega arith;
  count = rw count (ground arith);
}

Armed-sent :
    (c : Config) (packet : List ℕ) (n : ℕ) (io : Io)
    → io.timer_on ≡ timer_on_lcpreq
    → io.timer_count ≡ suc n
    → Armed (suc n) (
        lcp_timer_start timer_on_lcpreq
          (record (pico_ppp_ctl_send c ppp_proto_lcp packet io) { timer_val = default_timer }))
Armed-sent c packet n io on count =
    let q = Quiet-ctl_send c ppp_proto_lcp packet io in
    Armed-restart n (pico_ppp_ctl_send c ppp_proto_lcp packet io) (q.on ∙ on) (q.count ∙ count)

Armed-configure_request :
    (n : ℕ) (s : Ppp) → Armed (suc n) s.io → Armed (suc n) (lcp_send_configure_request s)
unfolding lcp_send_configure_request next_frame_id count_alloc
Armed-configure_request n s a =
    let opts = configure_options s in
    let packet = request_header 1 s.frame_id (length opts + 4) ++ opts in
    let io = next_frame_id (count_alloc s.io) in
    let kept = if bit s.lcpopt_local lcpopt_mru then s.mru else pico_ppp_mru in
    Armed-if (s.zalloc s.allocs) (suc n) _ _
      (Armed-sent s.config packet n (record io { mru = kept }) a.on a.count)
      (record { on = a.on; val = a.val; count = a.count })

-- The modem is connected, a request has been sent, and no other timer runs.
pub record Asking (n : ℕ) (s : Ppp) : Type 0 where
  pub connected : s.modem_state ≡ ModemState.connected
  pub asking : s.lcp_state ≡ LcpState.req_sent
  pub armed : Armed n s.io

pub to_pos_lem :
    (n : ℕ) (s : Ppp)
    → Asking (suc n) s
    → (t : Ppp) × (evaluate depth (lcp LcpEvent.to_pos) s ≡ some t) × Asking (suc n) t
unfolding evaluate run_handlers run_handler ppp_lcp_fsm
to_pos_lem n s a =
    let s' : Ppp = record s { control = record s.control { lcp_state = LcpState.req_sent } } in
    (
      record s' { io = lcp_send_configure_request s' },
      rw a.asking refl,
      record {
        connected = a.connected;
        asking = refl;
        armed = Armed-configure_request n s' a.armed;
      },
    )

-- What the end of the attempts leads to: the modem is reset, to be dialled again.
pub record Restarts (s : Ppp) : Type 0 where
  pub starting : s.lcp_state ≡ LcpState.starting
  pub reset : s.modem_state ≡ ModemState.reset
  pub timer : s.timer_on ≡ timer_on_modem

Quiet-hang_up : (s : Ppp) → Quiet s.io (send_hang_up s)
unfolding send_hang_up
Quiet-hang_up s =
    Quiet-if s.serial_send s.io _ s.io (record { on = refl; val = refl; count = refl })
      (record { on = refl; val = refl; count = refl })

reset-timer : (s : Ppp) → (ppp_modem_send_reset s).timer_on ≡ bit_or s.timer_on timer_on_modem
unfolding ppp_modem_send_reset ppp_modem_start_timer
reset-timer s =
    ap (λ n. bit_or n timer_on_modem)
      (Quiet-if s.serial_send s.io _ s.io (record { on = refl; val = refl; count = refl })
        (record { on = refl; val = refl; count = refl })).on

abbrev halt : Io → Io
halt io = lcp_timer_stop timer_on_lcpterm (lcp_timer_stop timer_on_lcpreq io)

pub to_neg_lem :
    (n : ℕ) (s : Ppp)
    → Asking n s
    → (t : Ppp) × (evaluate depth (lcp LcpEvent.to_neg) s ≡ some t) × Restarts t
unfolding evaluate run_handlers run_handler ppp_lcp_fsm ppp_modem_fsm
to_neg_lem n s a =
    let hung : Ppp = record s {
      control = record s.control { modem_state = ModemState.initial; lcp_state = LcpState.stopped };
      io = halt s.io;
    } in
    let down : Ppp = record hung {
      control = record hung.control {
        modem_state = ModemState.reset;
        lcp_state = LcpState.starting;
      };
      io = halt (send_hang_up hung);
    } in
    (
      record down { io = ppp_modem_send_reset down },
      rw (a.asking, a.connected) refl,
      record {
        starting = refl;
        reset = refl;
        timer =
            reset-timer down
            ∙ ap (λ n. bit_or (bit_and (bit_and n 251) 247) timer_on_modem)
                ((Quiet-hang_up hung).on ∙ ap (λ n. bit_and (bit_and n 251) 247) a.armed.on);
      },
    )
