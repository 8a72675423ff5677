-- ===== src/Ppp/Session/Polling.antt =====
-- `pico_ppp_poll` of modules/pico_dev_ppp.c keeps the layers, whatever the serial line brings.
use fd_picotcp.Prelude.{
  codes, ℕ, List, [], ◌∷◌, Option, none, some, ◌>>=◌, Bool, true, false, ◌&&◌, ◌≡◌, refl, subst,
  ◌==◌, ltb, if◌then◌else◌, take,
}
use mathlib.Core.Option.{some-injective}
use fd_picotcp.Ppp.Types.{Ppp, ModemEvent, pppf_flag_seq, pppf_ctrl_esc, ppp_maxpkt}
use fd_picotcp.Ppp.Engine.{modem}
use fd_picotcp.Ppp.Poll.{
  Line, Polled, store, c_string, same_bytes, raise_if, ppp_modem_recv, receive_flag, connected_byte,
  modem_byte, poll_byte, poll_loop, pico_ppp_poll, modem_connected,
}
use fd_picotcp.Ppp.Control.Layers.{IsLayered}
use fd_picotcp.Ppp.Control.Agree.{Stays, evaluate-Stays}
use fd_picotcp.Ppp.Session.Receiving.{Stays-if, Stays-some, Stays->>=, packet-Stays}

raise_if-Stays :
    (test : Bool) (e : ModemEvent) (s : Ppp) → IsLayered s.control → Stays (raise_if test e s)
unfolding raise_if
raise_if-Stays test e s v = Stays-if test _ _ (evaluate-Stays (modem e) s refl v) (Stays-some s v)

modem_recv-Stays : (s : Ppp) (len : ℕ) → IsLayered s.control → Stays (ppp_modem_recv s len)
unfolding ppp_modem_recv
modem_recv-Stays s len v =
    let text = c_string (take len s.recv_buf) in
    Stays->>= (raise_if (same_bytes text (codes "OK")) ModemEvent.ok s) _
      (raise_if-Stays _ ModemEvent.ok s v)
      λ s1 v1.
        Stays->>= (raise_if (same_bytes text (codes "ERROR")) ModemEvent.stop s1) _
          (raise_if-Stays _ ModemEvent.stop s1 v1)
          λ s2 v2.
            raise_if-Stays (same_bytes (take 7 text) (codes "CONNECT")) ModemEvent.connect s2 v2

-- The device of a poll that comes back is layered.
pub record StaysPolled (r : Option Polled) : Type 0 where
  pub layered : (p : Polled) → r ≡ some p → IsLayered p.device.control

polled : (p : Polled) → IsLayered p.device.control → StaysPolled (some p)
polled p v = record {
  layered = λ q e. subst (λ (u : Polled). IsLayered u.device.control) (some-injective p q e) v;
}

polled-if :
    (b : Bool) (x y : Option Polled)
    → StaysPolled x
    → StaysPolled y
    → StaysPolled (if b then x else y)
polled-if true x y p q = p
polled-if false x y p q = q

polled-after :
    (r : Option Ppp) (f : Ppp → Option Polled)
    → Stays r
    → ((t : Ppp) → IsLayered t.control → StaysPolled (f t))
    → StaysPolled (r >>= f)
polled-after none f p k = record { layered = λ t e. cc }
polled-after (some t) f p k = k t (p.layered t refl)

polled->>= :
    (r : Option Polled) (f : Polled → Option Polled)
    → StaysPolled r
    → ((t : Polled) → IsLayered t.device.control → StaysPolled (f t))
    → StaysPolled (r >>= f)
polled->>= none f p k = record { layered = λ t e. cc }
polled->>= (some t) f p k = k t (p.layered t refl)

flag-StaysPolled :
    (s : Ppp) (l : Line) (score : ℕ) → IsLayered s.control → StaysPolled (receive_flag s l score)
unfolding receive_flag
flag-StaysPolled s l score v =
    let at = if l.control_escape then 0 else l.at in
    polled-if (ltb 1 at) _ _ (polled-after _ _ (packet-Stays s v at) (λ t w. polled _ w))
      (polled _ v)

connected-StaysPolled :
    (s : Ppp) (l : Line) (score b : ℕ)
    → IsLayered s.control
    → StaysPolled (connected_byte s l score b)
unfolding connected_byte store
connected-StaysPolled s l score b v =
    polled-if (b == pppf_flag_seq) _ _ (flag-StaysPolled s l score v) (
      polled-if l.control_escape _ _ (polled _ v)
        (polled-if (b == pppf_ctrl_esc) _ _ (polled _ v) (polled _ v)))

modem-StaysPolled :
    (s : Ppp) (l : Line) (score b : ℕ) → IsLayered s.control → StaysPolled (modem_byte s l score b)
unfolding modem_byte store
modem-StaysPolled s l score b v =
    polled-if (b == 0x0d) _ _
      (polled-if (ltb 0 l.at) _ _
        (polled-after _ _ (modem_recv-Stays (store s l.at 0) l.at v) (λ t w. polled _ w))
        (polled _ v))
      (polled-if (b == 0x0a) _ _ (polled _ v) (polled _ v))

byte-StaysPolled :
    (s : Ppp) (l : Line) (score b : ℕ) → IsLayered s.control → StaysPolled (poll_byte s l score b)
unfolding poll_byte store
byte-StaysPolled s l score b v =
    polled-if (modem_connected s.modem_state) _ _
      (connected-StaysPolled (store s l.at b) l score b v)
      (modem-StaysPolled (store s l.at b) l score b v)

loop-StaysPolled :
    (input : List ℕ) (s : Ppp) (l : Line) (score : ℕ)
    → IsLayered s.control
    → StaysPolled (poll_loop input s l score)
unfolding poll_loop
loop-StaysPolled [] s l score v = polled _ v
loop-StaysPolled (b ∷ bs) s l score v = polled->>= _ _ (byte-StaysPolled s l score b v) λ r w.
    polled-if (ltb r.line.at ppp_maxpkt && ltb 0 r.score) _ _
      (loop-StaysPolled bs r.device r.line r.score w) (polled r w)

pub poll-StaysPolled :
    (input : List ℕ) (s : Ppp) (l : Line) (score : ℕ)
    → IsLayered s.control
    → StaysPolled (pico_ppp_poll input s l score)
unfolding pico_ppp_poll
poll-StaysPolled input s l score v =
    polled-if s.serial_recv _ _ (loop-StaysPolled input s l score v) (polled _ v)
