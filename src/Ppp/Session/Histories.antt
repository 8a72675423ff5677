-- ===== src/Ppp/Session/Histories.antt =====
-- The life of a device of modules/pico_dev_ppp.c, from its creation on.
use fd_picotcp.Prelude.{
  ℕ, List, Option, none, some, ◌>>=◌, Bool, ◌≡◌, refl, subst, inl, inr, Bool-cases, ◌&&◌,
}
use mathlib.Core.Option.{some-injective}
use fd_picotcp.Ppp.Types.{Ppp, LcpEvent}
use fd_picotcp.Ppp.Engine.{lcp}
use fd_picotcp.Ppp.Device.{
  World, pico_ppp_create, pico_ppp_connect, pico_ppp_disconnect, pico_ppp_tick,
  pico_ppp_set_serial_read, pico_ppp_set_serial_write, pico_ppp_set_serial_set_speed,
  pico_ppp_set_apn, pico_ppp_set_username, pico_ppp_set_password,
}
use fd_picotcp.Ppp.Poll.{Polled}
use fd_picotcp.Ppp.Ops.{
  Driver, DriverOp, op_poll, op_tick, op_send, op_connect, op_disconnect, op_set_serial_read,
  op_set_serial_write, op_set_serial_set_speed, op_set_apn, op_set_username, op_set_password,
  on_device, run_driver, Lives, created, then_op,
}
use fd_picotcp.Ppp.Control.Layers.{IsLayered}
use fd_picotcp.Ppp.Control.Agree.{Stays, evaluate-Stays}
use fd_picotcp.Ppp.Session.Receiving.{Stays-some}
use fd_picotcp.Ppp.Session.Polling.{StaysPolled, poll-StaysPolled}
use fd_picotcp.Ppp.Session.Timeouts.{tick-IsLayered}

-- The driver of an operation that comes back is layered.
record StaysDriver (r : Option Driver) : Type 0 where
  layered : (d : Driver) → r ≡ some d → IsLayered d.device.control

driver : (d : Driver) → IsLayered d.device.control → StaysDriver (some d)
driver d v = record {
  layered = λ e q. subst (λ (u : Driver). IsLayered u.device.control) (some-injective d e q) v;
}

on_device-StaysDriver : (d : Driver) (r : Option Ppp) → Stays r → StaysDriver (on_device d r)
on_device-StaysDriver d none p = record { layered = λ t e. cc }
on_device-StaysDriver d (some s) p = driver (record d { device = s }) (p.layered s refl)

polled-StaysDriver :
    (r : Option Polled)
    → StaysPolled r
    → StaysDriver (r >>= λ p. some (record { device = p.device; line = p.line }))
polled-StaysDriver none p = record { layered = λ t e. cc }
polled-StaysDriver (some q) p =
    driver (record { device = q.device; line = q.line }) (p.layered q refl)

tick-Stays : (s : Ppp) → IsLayered s.control → Stays (pico_ppp_tick s)
tick-Stays s v = let (t, e, w) = tick-IsLayered s v in rw e (Stays-some t w)

disconnect-Stays : (s : Ppp) → IsLayered s.control → Stays (pico_ppp_disconnect s)
unfolding pico_ppp_disconnect
disconnect-Stays s v = evaluate-Stays (lcp LcpEvent.close) _ refl v

apn-IsLayered :
    (s : Ppp) (text : Option (List ℕ))
    → IsLayered s.control
    → IsLayered (pico_ppp_set_apn s text).control
unfolding pico_ppp_set_apn
apn-IsLayered s none v = v
apn-IsLayered s (some text) v = v

username-IsLayered :
    (s : Ppp) (text : Option (List ℕ))
    → IsLayered s.control
    → IsLayered (pico_ppp_set_username s text).control
unfolding pico_ppp_set_username
username-IsLayered s none v = v
username-IsLayered s (some text) v = v

password-IsLayered :
    (s : Ppp) (text : Option (List ℕ))
    → IsLayered s.control
    → IsLayered (pico_ppp_set_password s text).control
unfolding pico_ppp_set_password
password-IsLayered s none v = v
password-IsLayered s (some text) v = v

run_driver-StaysDriver :
    (o : DriverOp) (d : Driver) → IsLayered d.device.control → StaysDriver (run_driver o d)
unfolding run_driver pico_ppp_connect pico_ppp_set_serial_read pico_ppp_set_serial_write
    pico_ppp_set_serial_set_speed
run_driver-StaysDriver (op_poll input score) d v =
    polled-StaysDriver _ (poll-StaysPolled input d.device d.line score v)
run_driver-StaysDriver op_tick d v = on_device-StaysDriver d _ (tick-Stays d.device v)
run_driver-StaysDriver (op_send buf) d v = driver _ v
run_driver-StaysDriver op_connect d v = driver _ v
run_driver-StaysDriver op_disconnect d v = on_device-StaysDriver d _ (disconnect-Stays d.device v)
run_driver-StaysDriver (op_set_serial_read f) d v = driver _ v
run_driver-StaysDriver (op_set_serial_write f) d v = driver _ v
run_driver-StaysDriver (op_set_serial_set_speed f) d v = driver _ v
run_driver-StaysDriver (op_set_apn text) d v = driver _ (apn-IsLayered d.device text v)
run_driver-StaysDriver (op_set_username text) d v = driver _ (username-IsLayered d.device text v)
run_driver-StaysDriver (op_set_password text) d v = driver _ (password-IsLayered d.device text v)

create-Stays : (w : World) (init_ok : Bool) (rand : ℕ) → Stays (pico_ppp_create w init_ok rand)
unfolding pico_ppp_create
create-Stays w init_ok rand = elim (Bool-cases (w.zalloc 0 && init_ok)) [
  | inl e ↦ rw e (Stays-some _ (record { linked = refl; opened = λ h. h }))
  | inr e ↦ rw e (record { layered = λ t q. cc })
]

-- Whatever is done with a device after its creation, in any order, and whatever the serial line
-- brings, malformed packets included: the link control protocol is past its first two states
-- exactly while the modem is connected, and authentication is active only while it is open.
pub Lives-IsLayered :
    (w : World) (rand : ℕ) (d : Driver) → Lives w rand d → IsLayered d.device.control
Lives-IsLayered w rand _ (created {s} init_ok e) = (create-Stays w init_ok rand).layered s e
Lives-IsLayered w rand d (then_op {d = c} o h e) =
    (run_driver-StaysDriver o c (Lives-IsLayered w rand c h)).layered d e
