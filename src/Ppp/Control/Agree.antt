-- ===== src/Ppp/Control/Agree.antt =====
-- The `evaluate_..._state` functions (modules/pico_dev_ppp.c) on requests of any kind: where a call comes back,
-- its states are those of the machines.
use fd_picotcp.Prelude.{
  ℕ, zero, suc, List, [], ◌∷◌, Option, none, some, ◌>>=◌, true, ◌≡◌, refl, subst, sym,
}
use fd_picotcp.Ppp.Types.{Ppp, Control, Io, AuthEvent}
use fd_picotcp.Ppp.Handlers.{Handler}
use fd_picotcp.Ppp.Engine.{
  Event, modem, lcp, auth, ipcp, up_event, lcp_this_layer_up, run_handler, run_handlers, enter,
  evaluate, depth,
}
use fd_picotcp.Ppp.Control.{raises?, effect, react, react_all, move, settle}
use fd_picotcp.Ppp.Control.Layers.{IsLayered, is_external, Holds, settle-IsLayered}

-- The states of a call that comes back, on a link with the authentication protocol `proto`.
abbrev Agrees : ℕ → Option Ppp → Option Control → Type 0
Agrees proto none o = Unit {0}
Agrees proto (some t) o = (o ≡ some t.control) × (t.config.auth ≡ proto)

Agrees->>= :
    (proto : ℕ) (r : Option Ppp) (o : Option Control) (f : Ppp → Option Ppp)
    (g : Control → Option Control)
    → Agrees proto r o
    → ((t : Ppp) → t.config.auth ≡ proto → Agrees proto (f t) (g t.control))
    → Agrees proto (r >>= f) (o >>= g)
Agrees->>= proto none o f g a k = tt
Agrees->>= proto (some t) o f g (e, p) k = rw e (k t p)

packet-Agrees :
    (proto : ℕ) (s : Ppp) (r : Option Io)
    → s.config.auth ≡ proto
    → Agrees proto (r >>= λ io. some (record s { io = io })) (some s.control)
packet-Agrees proto s none p = tt
packet-Agrees proto s (some io) p = (refl, p)

module _ (k : Event → Ppp → Option Ppp) (kc : Event → Control → Option Control) (proto : ℕ)
    (step : (e : Event) (s : Ppp)
      → s.config.auth ≡ proto
      → Agrees proto (k e s) (kc e s.control)) where
  raise-Agrees :
      (o : Option AuthEvent) (s : Ppp)
      → s.config.auth ≡ proto
      → Agrees proto
          (elim o [ none ↦ some s | some e ↦ k (auth e) s ])
          (react kc true proto (raises? o) s.control)
  unfolding react
  raise-Agrees none s p = (refl, p)
  raise-Agrees (some e) s p = step (auth e) s p

  up-Agrees :
      (s : Ppp)
      → s.config.auth ≡ proto
      → Agrees proto
          (lcp_this_layer_up k s)
          (react kc true proto (raises? (up_event proto)) s.control)
  unfolding lcp_this_layer_up
  up-Agrees s p =
      subst
        (λ a.
          Agrees proto (elim (up_event a) [ none ↦ some s | some e ↦ k (auth e) s ])
            (react kc true proto (raises? (up_event proto)) s.control))
        (sym p) (raise-Agrees (up_event proto) s p)

  handler-Agrees :
      (h : Handler) (s : Ppp)
      → s.config.auth ≡ proto
      → Agrees proto (run_handler k h s) (react kc true proto (effect proto h) s.control)
  unfolding run_handler react effect
  handler-Agrees Handler.ppp_modem_connected s p = step _ s p
  handler-Agrees Handler.ppp_modem_disconnected s p = step _ _ p
  handler-Agrees Handler.lcp_this_layer_started s p = step _ s p
  handler-Agrees Handler.lcp_this_layer_finished s p = step _ s p
  handler-Agrees Handler.lcp_this_layer_up s p = up-Agrees s p
  handler-Agrees Handler.lcp_this_layer_down s p = step _ s p
  handler-Agrees Handler.auth s p = step _ _ p
  handler-Agrees Handler.deauth s p = step _ s p
  handler-Agrees Handler.auth_abort s p = step _ _ p
  handler-Agrees Handler.lcp_send_terminate_ack s p = packet-Agrees proto s _ p
  handler-Agrees Handler.lcp_send_configure_ack s p = packet-Agrees proto s _ p
  handler-Agrees Handler.lcp_send_configure_nack s p = packet-Agrees proto s _ p
  handler-Agrees Handler.lcp_send_echo_reply s p = packet-Agrees proto s _ p
  handler-Agrees Handler.auth_rsp s p = packet-Agrees proto s _ p
  handler-Agrees Handler.ipcp_send_ack s p = packet-Agrees proto s _ p
  handler-Agrees _ s p = (refl, p)

  handlers-Agrees :
      (hs : List Handler) (s : Ppp)
      → s.config.auth ≡ proto
      → Agrees proto (run_handlers k hs s) (react_all kc true proto hs s.control)
  unfolding run_handlers react_all
  handlers-Agrees [] s p = (refl, p)
  handlers-Agrees (h ∷ hs) s p =
      Agrees->>= proto _ _ _ _ (handler-Agrees h s p) (λ t q. handlers-Agrees hs t q)

evaluate-Agrees :
    (fuel proto : ℕ) (e : Event) (s : Ppp)
    → s.config.auth ≡ proto
    → Agrees proto (evaluate fuel e s) (settle fuel true proto e s.control)
unfolding evaluate settle enter move
evaluate-Agrees zero proto e s p = tt
evaluate-Agrees (suc fuel) proto (modem e) s p =
    handlers-Agrees _ _ proto (evaluate-Agrees fuel proto) (enter (modem e) s).1
      (enter (modem e) s).0 p
evaluate-Agrees (suc fuel) proto (lcp e) s p =
    handlers-Agrees _ _ proto (evaluate-Agrees fuel proto) (enter (lcp e) s).1 (enter (lcp e) s).0 p
evaluate-Agrees (suc fuel) proto (auth e) s p =
    handlers-Agrees _ _ proto (evaluate-Agrees fuel proto) (enter (auth e) s).1 (enter (auth e) s).0
      p
evaluate-Agrees (suc fuel) proto (ipcp e) s p =
    handlers-Agrees _ _ proto (evaluate-Agrees fuel proto) (enter (ipcp e) s).1 (enter (ipcp e) s).0
      p

-- The states of a call that comes back are layered.
pub record Stays (r : Option Ppp) : Type 0 where
  pub layered : (t : Ppp) → r ≡ some t → IsLayered t.control

agreed-Stays :
    (proto : ℕ) (r : Option Ppp) (o : Option Control)
    → Agrees proto r o
    → Holds IsLayered o
    → Stays r
agreed-Stays proto r o a h = record {
  layered =
      λ t e. let (same, _) = subst (λ x. Agrees proto x o) e a in subst (Holds IsLayered) same h;
}

pub evaluate-Stays :
    (e : Event) (s : Ppp) → is_external e ≡ true → IsLayered s.control → Stays (evaluate depth e s)
evaluate-Stays e s x v =
    agreed-Stays s.config.auth _ _ (evaluate-Agrees depth s.config.auth e s refl) (
      settle-IsLayered true s.config.auth e s.modem_state s.lcp_state s.auth_state s.ipcp_state x v)
