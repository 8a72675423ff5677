-- ===== src/Ppp/Session/GivingUp.antt =====
-- `pico_ppp_tick` of modules/pico_dev_ppp.c, when the peer does not answer requests.
use fd_picotcp.Prelude.{
  ℕ, zero, suc, ◌+◌, ◌-◌, ◌*◌, ◌<◌, ◌≤◌, ◌≡◌, refl, arith, inl, inr, Bool-cases, some, true, false,
  ◌==◌,
}
use fd_picotcp.Ppp.Types.{Ppp}
use fd_picotcp.Ppp.Wire.{u8}
use fd_picotcp.Ppp.Device.{
  check_to_modem, check_to_lcp, check_to_auth, check_to_ipcp, reconnect, pico_ppp_tick, count_down,
  count_second, start_tick, timer_is_on, is_initial,
}
use fd_picotcp.Ppp.Session.Silence.{Asking, Restarts, to_pos_lem, to_neg_lem}

idle_modem : (s : Ppp) → timer_is_on s 0x01 ≡ false → check_to_modem s ≡ some s
unfolding check_to_modem
idle_modem s e = rw e refl

idle_auth : (s : Ppp) → timer_is_on s 0x10 ≡ false → check_to_auth s ≡ some s
unfolding check_to_auth
idle_auth s e = rw e refl

idle_ipcp : (s : Ppp) → timer_is_on s 0x20 ≡ false → check_to_ipcp s ≡ some s
unfolding check_to_ipcp
idle_ipcp s e = rw e refl

connects_already : (s : Ppp) → is_initial s.lcp_state ≡ false → reconnect s ≡ some s
unfolding reconnect
connects_already s e = elim (Bool-cases s.autoreconnect) [
  | inl f ↦ rw f (rw e refl)
  | inr f ↦ rw f refl
]

-- A tick in which only the restart timer may run out.
tick_lem :
    (s t : Ppp)
    → timer_is_on s 0x01 ≡ false
    → check_to_lcp (count_second s) ≡ some t
    → timer_is_on t 0x10 ≡ false
    → timer_is_on t 0x20 ≡ false
    → is_initial t.lcp_state ≡ false
    → pico_ppp_tick s ≡ some (start_tick t)
unfolding pico_ppp_tick
tick_lem s t no_modem run no_auth no_ipcp past = rw (idle_modem (count_second s) no_modem) (
    rw run
      (rw (idle_auth t no_auth) (rw (idle_ipcp t no_ipcp) (rw (connects_already t past) refl))))

-- `k` ticks with nothing else in between.
pub data Ticks : ℕ → Ppp → Ppp → Type 0 where
  still : {s : Ppp} → Ticks 0 s s
  then_tick : {k : ℕ} {s t u : Ppp} → pico_ppp_tick s ≡ some t → Ticks k t u → Ticks (suc k) s u

module _ (n : ℕ) (s : Ppp) (a : Asking n s) where
  on : timer_is_on s 0x0c ≡ true
  on = rw a.armed.on refl

  later : Asking n (count_second s)
  unfolding count_second
  later = record {
    connected = a.connected;
    asking = a.asking;
    armed = record { on = a.armed.on; val = omega (arith, a.armed.val); count = a.armed.count };
  }

  restart_tick :
      {m : ℕ} (t : Ppp)
      → Asking m t
      → check_to_lcp (count_second s) ≡ some t
      → pico_ppp_tick s ≡ some (start_tick t)
  restart_tick t b run =
      tick_lem s t (rw a.armed.on refl) run (rw b.armed.on refl) (rw b.armed.on refl)
        (rw b.asking refl)

  started : Asking n (start_tick s)
  unfolding start_tick
  started = record {
    connected = a.connected;
    asking = a.asking;
    armed = record { on = a.armed.on; val = a.armed.val; count = a.armed.count };
  }

tick_waits :
    (n v : ℕ) (s : Ppp)
    → Asking n s
    → s.timer_val ≡ suc (suc v)
    → (t : Ppp) × (pico_ppp_tick s ≡ some t) × Asking n t × (t.timer_val ≡ suc v)
unfolding check_to_lcp count_second start_tick
tick_waits n v s a val =
    let later : Asking n (count_second s) = later n s a in
    let runs_on : (s.timer_val - 1 == 0) ≡ false = rw val (ground arith) in
    (
      start_tick (count_second s),
      restart_tick n s a (count_second s) later (rw (on n s a, runs_on) refl),
      started n (count_second s) later,
      omega (arith, val),
    )

tick_asks :
    (n : ℕ) (s : Ppp)
    → suc n < 256
    → Asking (suc n) s
    → s.timer_val ≤ 1
    → (t : Ppp) × (pico_ppp_tick s ≡ some t) × Asking n t
unfolding check_to_lcp count_second count_down start_tick
tick_asks n s lt a val =
    let (t, asked, b) = to_pos_lem n (count_second s) (later (suc n) s a) in
    let over : (s.timer_val - 1 == 0) ≡ true = ground arith in
    let one_left : (s.timer_count == 0) ≡ false = rw a.armed.count (ground arith) in
    let fewer : u8 (t.timer_count + 255) ≡ n = rw b.armed.count (omega arith) in
    let c : Asking n (count_down t) = record {
      connected = b.connected;
      asking = b.asking;
      armed = record { on = b.armed.on; val = b.armed.val; count = fewer };
    } in
    (
      start_tick (count_down t),
      restart_tick (suc n) s a (count_down t) c
          (rw (on (suc n) s a, over, one_left) (rw asked refl)),
      started n (count_down t) c,
    )

tick_gives_up :
    (s : Ppp) → Asking 0 s → s.timer_val ≤ 1 → (t : Ppp) × (pico_ppp_tick s ≡ some t) × Restarts t
unfolding check_to_lcp count_second start_tick
tick_gives_up s a val =
    let (t, left, b) = to_neg_lem 0 (count_second s) (later 0 s a) in
    let over : (s.timer_val - 1 == 0) ≡ true = ground arith in
    let none_left : (s.timer_count == 0) ≡ true = rw a.armed.count refl in
    (
      start_tick t,
      tick_lem s t (rw a.armed.on refl) (rw (on 0 s a, over, none_left) left) (rw b.timer refl)
          (rw b.timer refl) (rw b.starting refl),
      record { starting = b.starting; reset = b.reset; timer = b.timer },
    )

-- `b` bounds the seconds until the timer runs out.
gives_up_within :
    (n b v : ℕ) (s : Ppp)
    → n < 256
    → v ≤ b
    → 1 ≤ b
    → Asking n s
    → s.timer_val ≡ v
    → (k : ℕ) × (t : Ppp) × (k ≤ 3 * n + b) × Ticks k s t × Restarts t
gives_up_within n b (suc (suc v)) s lt le pos a val =
    let (t, tick, a', val') = tick_waits n v s a val in
    let (k, u, few, ticks, r) =
      gives_up_within n (b - 1) (suc v) t lt (omega arith) (omega arith) a' val' in
    (suc k, u, omega arith, then_tick tick ticks, r)
gives_up_within zero b _ s lt le pos a val =
    let (t, tick, r) = tick_gives_up s a (omega (arith, val)) in
    (1, t, omega arith, then_tick tick still, r)
gives_up_within (suc n) b _ s lt le pos a val =
    let (t, tick, a') = tick_asks n s lt a (omega (arith, val)) in
    let (k, u, few, ticks, r) =
      gives_up_within n 3 t.timer_val t (omega arith) a'.armed.val (omega arith) a' refl in
    (suc k, u, omega arith, then_tick tick ticks, r)

-- A peer that stays silent is given up: where the modem is connected, a request has been sent and the
-- restart timer alone runs, with `n` more requests to make, at most 3 * n + 3 ticks with nothing in
-- between lead to the modem's reset, with the link control protocol waiting for it and the timer
-- of the modem running.
pub gives_up :
    (n : ℕ) (s : Ppp)
    → n < 256
    → Asking n s
    → (k : ℕ) × (t : Ppp) × (k ≤ 3 * n + 3) × Ticks k s t × Restarts t
gives_up n s lt a = gives_up_within n 3 s.timer_val s lt a.armed.val (omega arith) a refl
