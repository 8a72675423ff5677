-- ===== src/Fd/Linking.antt =====
-- `fd_pico_socket_bind` of fd_functions.c waits for the validation of an IPv6 link for three seconds
-- at most.
use fd_picotcp.Prelude.{
  ℕ, zero, suc, ◌+◌, ◌-◌, ◌*◌, ◌/◌, ◌<◌, ◌≤◌, ◌≡◌, refl, arith, inl, inr, Bool, true, false, leb,
  Bool-cases, leb→le, leb→lt,
}
use fd_picotcp.Fd.Types.{Fds}
use fd_picotcp.Fd.Calls.{Calls}
use fd_picotcp.Fd.Run.{returns}
use fd_picotcp.Fd.Functions.{wait_link}

-- A clock of milliseconds, of which `time` shows the seconds, and that a sleep of a millisecond moves
-- on by one or more.
pub record Clock {W : Type 0} (c : Calls W) : Type 0 where
  pub now : W → ℕ
  pub seconds : (w : W) → c.time w ≡ now w / 1000
  pub sleeps : (w : W) → now w < now (c.usleep w)

-- The wait is over: either the link is there, or three seconds have passed.
abbrev pub Over : {W : Type 0} → Calls W → ℕ → ℕ → Bool → W → Type 0
Over c start ip true w = c.pico_ipv6_link_find ip w ≡ true
Over c start ip false w = 3 ≤ c.time w - start

module _ {W : Type 0} (c : Calls W) (k : Clock c) (start ip : ℕ) where
  wait_ends :
      (rounds : ℕ) (s : Fds W)
      → 0 < rounds
      → start * 1000 + 3000 < k.now s.world + rounds
      → (b : Bool) × (w : W) × (wait_link c rounds start ip s ≡ returns b (record s { world = w }))
        × Over c start ip b w
  unfolding wait_link
  wait_ends zero s z h = absurd (omega arith)
  wait_ends (suc rounds) s z h = elim (Bool-cases (c.pico_ipv6_link_find ip s.world)) [
    | inl e ↦ (true, s.world, rw e refl, e)
    | inr e ↦ elim (Bool-cases (leb 3 (c.time s.world - start))) [
      | inl f ↦ (false, s.world, rw e (rw f refl), leb→le 3 _ f)
      | inr f ↦
          let early : c.time s.world - start < 3 = leb→lt 3 _ f in
          let (b, w, run, over) =
            wait_ends rounds (record s { world = c.usleep s.world })
              (omega (arith, k.seconds s.world)) (omega (arith, k.sleeps s.world)) in
          (b, w, rw e (rw f run), over)
    ]
  ]

  -- On a clock that moves on by a millisecond or more in each sleep, the wait for an IPv6 link
  -- that starts now comes to an end within 3002 rounds: with the link found, or after three
  -- seconds. Nothing but what is outside has changed.
  pub wait_link_ends :
      (s : Fds W)
      → c.time s.world ≡ start
      → (b : Bool) × (w : W) × (wait_link c 3002 start ip s ≡ returns b (record s { world = w }))
        × Over c start ip b w
  wait_link_ends s now = wait_ends 3002 s (omega arith) (omega (arith, k.seconds s.world))
