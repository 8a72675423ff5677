-- ===== src/Ppp/Session/Timeouts.antt =====
-- The tick of modules/pico_dev_ppp.c always comes back, in layered states.
use fd_picotcp.Prelude.{◌≡◌, refl, Option, some, ◌>>=◌, Bool, true, false, ◌==◌, if◌then◌else◌}
use fd_picotcp.Ppp.Types.{Ppp, LcpEvent}
use fd_picotcp.Ppp.Engine.{Event, lcp, evaluate, depth}
use fd_picotcp.Ppp.Device.{
  check_to_modem, check_to_lcp, check_to_auth, check_to_ipcp, reconnect, pico_ppp_tick, count_down,
  count_second, start_tick,
}
use fd_picotcp.Ppp.Control.Depth.{needs_request}
use fd_picotcp.Ppp.Control.Layers.{IsLayered, is_external, evaluate-IsLayered}

-- The call comes back, in layered states.
abbrev pub Lands : Option Ppp → Type 0
Lands r = (t : Ppp) × (r ≡ some t) × IsLayered t.control

Lands-if :
    (b : Bool) (r : Option Ppp) (s : Ppp)
    → Lands r
    → IsLayered s.control
    → Lands (if b then r else some s)
Lands-if true r s l v = l
Lands-if false r s l v = (s, refl, v)

Lands->>= :
    (r : Option Ppp) (f : Ppp → Option Ppp)
    → Lands r
    → ((t : Ppp) → IsLayered t.control → Lands (f t))
    → Lands (r >>= f)
Lands->>= r f (t, e, v) k = rw e (k t v)

-- Events that use no request.
timeout-Lands :
    (e : Event) (s : Ppp)
    → needs_request e ≡ false
    → is_external e ≡ true
    → IsLayered s.control
    → Lands (evaluate depth e s)
timeout-Lands e s n x v = evaluate-IsLayered e s (λ h. cc) x v

check_to_modem-Lands : (s : Ppp) → IsLayered s.control → Lands (check_to_modem s)
unfolding check_to_modem
check_to_modem-Lands s v = Lands-if _ _ s (timeout-Lands _ _ refl refl v) v

lcp_timeout-Lands :
    (s : Ppp) (b : Bool)
    → IsLayered s.control
    → Lands (
        if b
        then evaluate depth (lcp LcpEvent.to_neg) s
        else (evaluate depth (lcp LcpEvent.to_pos) s >>= λ t. some (count_down t)))
unfolding count_down
lcp_timeout-Lands s true v = timeout-Lands _ _ refl refl v
lcp_timeout-Lands s false v =
    Lands->>= _ _ (timeout-Lands (lcp LcpEvent.to_pos) s refl refl v)
      (λ t w. (count_down t, refl, w))

check_to_lcp-Lands : (s : Ppp) → IsLayered s.control → Lands (check_to_lcp s)
unfolding check_to_lcp
check_to_lcp-Lands s v = Lands-if _ _ s (lcp_timeout-Lands s (s.timer_count == 0) v) v

check_to_auth-Lands : (s : Ppp) → IsLayered s.control → Lands (check_to_auth s)
unfolding check_to_auth
check_to_auth-Lands s v = Lands-if _ _ s (timeout-Lands _ _ refl refl v) v

check_to_ipcp-Lands : (s : Ppp) → IsLayered s.control → Lands (check_to_ipcp s)
unfolding check_to_ipcp
check_to_ipcp-Lands s v = Lands-if _ _ s (timeout-Lands _ _ refl refl v) v

reconnect-Lands : (s : Ppp) → IsLayered s.control → Lands (reconnect s)
unfolding reconnect
reconnect-Lands s v = Lands-if _ _ s (timeout-Lands _ _ refl refl v) v

-- The tick always comes back, whatever packets the device has seen, and leads from layered states
-- to layered states.
pub tick-IsLayered :
    (s : Ppp) → IsLayered s.control → (t : Ppp) × (pico_ppp_tick s ≡ some t) × IsLayered t.control
unfolding pico_ppp_tick
tick-IsLayered s v = Lands->>= _ _ (check_to_modem-Lands (count_second s) v) λ s1 v1.
    Lands->>= _ _ (check_to_lcp-Lands s1 v1) λ s2 v2.
      Lands->>= _ _ (check_to_auth-Lands s2 v2) λ s3 v3.
        Lands->>= _ _ (check_to_ipcp-Lands s3 v3)
          λ s4 v4. Lands->>= _ _ (reconnect-Lands s4 v4) λ s5 v5. (start_tick s5, refl, v5)
