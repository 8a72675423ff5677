-- ===== src/Ppp/Control/Refine.antt =====
-- The driver's `evaluate_..._state` functions (modules/pico_dev_ppp.c) follow the state machines.
use fd_picotcp.Prelude.{
  ℕ, zero, suc, ◌+◌, List, [], ◌∷◌, Option, none, some, ◌>>=◌, Bool, true, false, drop, ◌≡◌, refl,
  ap, ◌∙◌, if◌then◌else◌, subst, sym,
}
use fd_picotcp.Ppp.Types.{Ppp, Control, Request, Io, Config, AuthEvent}
use fd_picotcp.Ppp.Lcp.{
  nack_options, send_reply, pkt_bytes, lcp_send_configure_ack, lcp_send_terminate_ack,
  lcp_send_echo_reply, lcp_send_configure_nack,
}
use fd_picotcp.Ppp.Auth.{auth_rsp}
use fd_picotcp.Ppp.Ipcp.{ipcp_send_ack}
use fd_picotcp.Ppp.Handlers.{Handler}
use fd_picotcp.Ppp.Engine.{
  Event, modem, lcp, auth, ipcp, up_event, lcp_this_layer_up, run_handler, run_handlers, enter,
  evaluate,
}
use fd_picotcp.Ppp.Control.{raises?, effect, react, react_all, move, settle}

-- There is a last request, and the scan for its rejected options comes to an end.
pub record Ready (r : Request) : Type 0 where
  pub at : ℕ
  pub points : r.pkt ≡ some at
  pub out : List ℕ
  pub ends : nack_options (r.len + 1) (drop at r.recv_buf) r.len r.rej 4 ≡ some out

-- An event touches neither the request, the configuration, the addresses nor what was received.
pub record Same (s t : Ppp) : Type 0 where
  pub request : t.request ≡ s.request
  pub config : t.config ≡ s.config
  pub addresses : t.addresses ≡ s.addresses
  pub received : t.received ≡ s.received

Same-refl : (s : Ppp) → Same s s
Same-refl s = record { request = refl; config = refl; addresses = refl; received = refl }

Same-trans : {s t u : Ppp} → Same s t → Same t u → Same s u
Same-trans p q = record {
  request = q.request ∙ p.request;
  config = q.config ∙ p.config;
  addresses = q.addresses ∙ p.addresses;
  received = q.received ∙ p.received;
}

-- Where the machines come to rest, the driver comes back with those states.
abbrev pub Follows : Ppp → Option Ppp → Option Control → Type 0
Follows s r none = Unit {0}
Follows s r (some c) = (t : Ppp) × (r ≡ some t) × (t.control ≡ c) × Same s t

kept : (s : Ppp) (io : Io) → Follows s (some (record s { io = io })) (some s.control)
kept s io = (
  record s { io = io },
  refl,
  refl,
  record { request = refl; config = refl; addresses = refl; received = refl },
)

abbrev IsDefined : Option Io → Type 0
IsDefined none = ⊥
IsDefined (some io) = Unit {0}

kept? :
    (s : Ppp) (r : Option Io)
    → IsDefined r
    → Follows s (r >>= λ io. some (record s { io = io })) (some s.control)
kept? s none h = absurd h
kept? s (some io) h = kept s io

module _ (s : Ppp) (r : Ready s.request) where
  send_reply-IsDefined : (proto code : ℕ) → IsDefined (send_reply proto code s)
  unfolding send_reply pkt_bytes
  send_reply-IsDefined proto code = rw r.points tt

  configure_nack-IsDefined : IsDefined (lcp_send_configure_nack s)
  unfolding lcp_send_configure_nack pkt_bytes
  configure_nack-IsDefined = rw r.points (rw r.ends tt)

  auth_rsp-IsDefined : IsDefined (auth_rsp s)
  unfolding auth_rsp pkt_bytes
  auth_rsp-IsDefined = rw r.points tt

packet-Follows :
    (s : Ppp) (ready : Bool) (r : Option Io)
    → (ready ≡ true → IsDefined r)
    → Follows s (r >>= λ io. some (record s { io = io })) (if ready then some s.control else none)
packet-Follows s true r h = kept? s r (h refl)
packet-Follows s false r h = tt

Follows-lift :
    {s t : Ppp} (r : Option Ppp) (o : Option Control) → Same s t → Follows t r o → Follows s r o
Follows-lift r none p f = tt
Follows-lift r (some c) p (u, e, ec, q) = (u, e, ec, Same-trans p q)

Follows-io :
    (s : Ppp) (io : Io) (r : Option Ppp) (o : Option Control)
    → Follows (record s { io = io }) r o
    → Follows s r o
Follows-io s io r o =
    Follows-lift r o (record { request = refl; config = refl; addresses = refl; received = refl })

Follows->>= :
    {s : Ppp} (r : Option Ppp) (o : Option Control) (f : Ppp → Option Ppp)
    (g : Control → Option Control)
    → Follows s r o
    → ((t : Ppp) → Same s t → Follows t (f t) (g t.control))
    → Follows s (r >>= f) (o >>= g)
Follows->>= r none f g h k = tt
Follows->>= {s} r (some c) f g (t, e, ec, same) k =
    rw (e, ← ec) (Follows-lift (f t) (g t.control) same (k t same))

abbrev Follower :
    (Event → Ppp → Option Ppp) → (Event → Control → Option Control) → Bool → ℕ → Type 0
Follower k kc ready proto =
    (e : Event) (s : Ppp)
    → s.config.auth ≡ proto
    → (ready ≡ true → Ready s.request)
    → Follows s (k e s) (kc e s.control)

module _ (k : Event → Ppp → Option Ppp) (kc : Event → Control → Option Control) (ready : Bool)
    (proto : ℕ) (step : Follower k kc ready proto) where
  raise-Follows :
      (o : Option AuthEvent) (s : Ppp)
      → s.config.auth ≡ proto
      → (ready ≡ true → Ready s.request)
      → Follows s
          (elim o [ none ↦ some s | some e ↦ k (auth e) s ])
          (react kc ready proto (raises? o) s.control)
  unfolding react
  raise-Follows none s p q = kept s s.io
  raise-Follows (some e) s p q = step (auth e) s p q

  up-Follows :
      (s : Ppp)
      → s.config.auth ≡ proto
      → (ready ≡ true → Ready s.request)
      → Follows s
          (lcp_this_layer_up k s)
          (react kc ready proto (raises? (up_event proto)) s.control)
  unfolding lcp_this_layer_up
  up-Follows s p q =
      subst
        (λ a.
          Follows s (elim (up_event a) [ none ↦ some s | some e ↦ k (auth e) s ])
            (react kc ready proto (raises? (up_event proto)) s.control))
        (sym p) (raise-Follows (up_event proto) s p q)

  handler-Follows :
      (h : Handler) (s : Ppp)
      → s.config.auth ≡ proto
      → (ready ≡ true → Ready s.request)
      → Follows s (run_handler k h s) (react kc ready proto (effect proto h) s.control)
  unfolding run_handler react effect lcp_send_terminate_ack lcp_send_configure_ack
      lcp_send_echo_reply ipcp_send_ack
  handler-Follows Handler.ppp_modem_connected s p q = step _ s p q
  handler-Follows Handler.ppp_modem_disconnected s p q = Follows-io s _ _ _ (step _ _ p q)
  handler-Follows Handler.lcp_this_layer_started s p q = step _ s p q
  handler-Follows Handler.lcp_this_layer_finished s p q = step _ s p q
  handler-Follows Handler.lcp_this_layer_up s p q = up-Follows s p q
  handler-Follows Handler.lcp_this_layer_down s p q = step _ s p q
  handler-Follows Handler.auth s p q = Follows-io s _ _ _ (step _ _ p q)
  handler-Follows Handler.deauth s p q = step _ s p q
  handler-Follows Handler.auth_abort s p q = Follows-io s _ _ _ (step _ _ p q)
  handler-Follows Handler.lcp_send_terminate_ack s p q =
      packet-Follows s ready _ (λ h. send_reply-IsDefined s (q h) _ _)
  handler-Follows Handler.lcp_send_configure_ack s p q =
      packet-Follows s ready _ (λ h. send_reply-IsDefined s (q h) _ _)
  handler-Follows Handler.lcp_send_configure_nack s p q =
      packet-Follows s ready _ (λ h. configure_nack-IsDefined s (q h))
  handler-Follows Handler.lcp_send_echo_reply s p q =
      packet-Follows s ready _ (λ h. send_reply-IsDefined s (q h) _ _)
  handler-Follows Handler.auth_rsp s p q =
      packet-Follows s ready _ (λ h. auth_rsp-IsDefined s (q h))
  handler-Follows Handler.ipcp_send_ack s p q =
      packet-Follows s ready _ (λ h. send_reply-IsDefined s (q h) _ _)
  handler-Follows _ s p q = kept s _

  handlers-Follows :
      (hs : List Handler) (s : Ppp)
      → s.config.auth ≡ proto
      → (ready ≡ true → Ready s.request)
      → Follows s (run_handlers k hs s) (react_all kc ready proto hs s.control)
  unfolding run_handlers react_all
  handlers-Follows [] s p q = kept s s.io
  handlers-Follows (h ∷ hs) s p q = Follows->>= _ _ _ _ (handler-Follows h s p q) λ t same.
      handlers-Follows hs t (ap (λ (c : Config). c.auth) same.config ∙ p)
        (λ e. rw same.request (q e))

evaluate-Follower :
    (fuel : ℕ) (ready : Bool) (proto : ℕ)
    → Follower (evaluate fuel) (settle fuel ready proto) ready proto
unfolding evaluate settle enter move
evaluate-Follower zero ready proto e s p q = tt
evaluate-Follower (suc fuel) ready proto (modem e) s p q =
    Follows-lift {s = s} {t = (enter (modem e) s).0} _ _
      (record { request = refl; config = refl; addresses = refl; received = refl })
      (handlers-Follows (evaluate fuel) (settle fuel ready proto) ready proto
        (evaluate-Follower fuel ready proto) (enter (modem e) s).1 (enter (modem e) s).0 p q)
evaluate-Follower (suc fuel) ready proto (lcp e) s p q =
    Follows-lift {s = s} {t = (enter (lcp e) s).0} _ _
      (record { request = refl; config = refl; addresses = refl; received = refl })
      (handlers-Follows (evaluate fuel) (settle fuel ready proto) ready proto
        (evaluate-Follower fuel ready proto) (enter (lcp e) s).1 (enter (lcp e) s).0 p q)
evaluate-Follower (suc fuel) ready proto (auth e) s p q =
    Follows-lift {s = s} {t = (enter (auth e) s).0} _ _
      (record { request = refl; config = refl; addresses = refl; received = refl })
      (handlers-Follows (evaluate fuel) (settle fuel ready proto) ready proto
        (evaluate-Follower fuel ready proto) (enter (auth e) s).1 (enter (auth e) s).0 p q)
evaluate-Follower (suc fuel) ready proto (ipcp e) s p q =
    Follows-lift {s = s} {t = (enter (ipcp e) s).0} _ _
      (record { request = refl; config = refl; addresses = refl; received = refl })
      (handlers-Follows (evaluate fuel) (settle fuel ready proto) ready proto
        (evaluate-Follower fuel ready proto) (enter (ipcp e) s).1 (enter (ipcp e) s).0 p q)

-- Whatever the machines do within a number of nested calls, the driver does: it comes back in the
-- states where they come to rest, with the request, configuration, addresses and received packets
-- unchanged, provided that there is a last request if the use of it is allowed.
pub evaluate-Follows :
    (fuel : ℕ) (ready : Bool) (e : Event) (s : Ppp)
    → (ready ≡ true → Ready s.request)
    → Follows s (evaluate fuel e s) (settle fuel ready s.config.auth e s.control)
evaluate-Follows fuel ready e s q = evaluate-Follower fuel ready s.config.auth e s refl q
