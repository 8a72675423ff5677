-- ===== src/Pico/Timers/Acting.antt =====
-- What the functions of timers do with the timers, on a clock that does not go back.
use fd_picotcp.Prelude.{
  ℕ, suc, ◌+◌, ◌^◌, ◌≤◌, ◌<◌, Option, none, some, leb, ◌==◌, ◌≡◌, inl, inr, arith, Bool-cases,
}
use fd_picotcp.Pico.Heap.{Heap}
use fd_picotcp.Pico.Timers.{
  Timer, TimerRef, Action, done, add, cancel, Host, Stack, guarded, heap_memory, add_ref,
  pico_timer_add, pico_timer_cancel, run_action, call_timer, fire,
}
use fd_picotcp.Pico.Timers.Keeping.{
  IsTimers, Later, Later-refl, Later-trans, insert_any-Later, cancelled-Later,
}

-- Every timer that an action adds is to expire within `bound` milliseconds.
pub data Within (bound : ℕ) : Action → Type 0 where
  no_more : Within bound done
  soon :
      {e : ℕ} {t : Timer} {k : ℕ → Action}
      → e ≤ bound
      → ((id : ℕ) → Within bound (k id))
      → Within bound (add e t k)
  any : {id : ℕ} {k : Action} → Within bound k → Within bound (cancel id k)

-- A clock that does not go back, and that is not about to overflow; functions of timers that set
-- no timer further ahead than `bound`.
pub record Clock {W : Type 0} (host : Host W) (bound : ℕ) : Type 0 where
  pub now : W → ℕ
  pub reads : (w : W) → (host.time w).0 ≡ now w
  pub time_on : (w : W) → now w ≤ now (host.time w).1
  pub zalloc_on : (w : W) → now w ≤ now (host.zalloc w).1
  pub call_on : (f tick a : ℕ) (w : W) → now w ≤ now (host.call f tick a w).1
  pub far : (w : W) → now w + bound < 2 ^ 64
  pub within : (f tick a : ℕ) (w : W) → Within bound (host.call f tick a w).0

module _ {W : Type 0} (host : Host W) (bound : ℕ) (clock : Clock host bound) (tick : ℕ) where
  -- A state that has come about at the tick or later.
  pub record Reached (h : Heap TimerRef) (t : Stack W) : Type 0 where
    pub later : Later tick h t.timers
    pub on : tick ≤ clock.now t.world

  Reached-trans : (s t u : Stack W) → Reached s.timers t → Reached t.timers u → Reached s.timers u
  Reached-trans s t u a b = record {
    later = Later-trans tick s.timers t.timers u.timers a.later b.later;
    on = b.on;
  }

  memory_on : (h : Heap TimerRef) (w : W) → clock.now w ≤ clock.now (heap_memory host h w).1
  memory_on h w = elim (Bool-cases (leb h.size (suc h.n))) [
    | inl e ↦ rw e (clock.zalloc_on w)
    | inr e ↦ rw e (omega arith)
  ]

  add_ref-Reached :
      (e : ℕ) (t : Timer) (s : Stack W)
      → IsTimers s.timers
      → tick ≤ clock.now s.world
      → e ≤ bound
      → Reached s.timers (add_ref host e t s).1
  unfolding add_ref
  add_ref-Reached e t s i l b = record {
    later =
        insert_any-Later tick _ s.timers _ i
          (omega (arith, clock.reads s.world, clock.far s.world));
    on = omega (arith, clock.time_on s.world, memory_on s.timers (host.time s.world).1);
  }

  pico_timer_add-Reached :
      (e : ℕ) (t : Timer) (s : Stack W)
      → IsTimers s.timers
      → tick ≤ clock.now s.world
      → e ≤ bound
      → Reached s.timers (pico_timer_add host e t s).1
  unfolding pico_timer_add
  pico_timer_add-Reached e t s i l b =
      let on = clock.zalloc_on s.world in
      elim (Bool-cases (host.zalloc s.world).0) [
        | inl m ↦ rw m (
            add_ref-Reached e t
              (record s { tmr_id = guarded s.tmr_id; world = (host.zalloc s.world).1 }) i
              (omega arith) b)
        | inr m ↦ rw m (record { later = Later-refl tick s.timers i; on = omega arith })
      ]

  pico_timer_cancel-Reached :
      (id : ℕ) (s : Stack W)
      → IsTimers s.timers
      → tick ≤ clock.now s.world
      → Reached s.timers (pico_timer_cancel host id s)
  unfolding pico_timer_cancel
  pico_timer_cancel-Reached id s i l = elim (Bool-cases (id == 0)) [
    | inl e ↦ rw e (record { later = Later-refl tick s.timers i; on = l })
    | inr e ↦ rw e (record { later = cancelled-Later tick id s.timers i; on = l })
  ]

  run_action-Reached :
      (a : Action) (s : Stack W)
      → IsTimers s.timers
      → tick ≤ clock.now s.world
      → Within bound a
      → Reached s.timers (run_action host a s)
  unfolding run_action
  run_action-Reached done s i l b = record { later = Later-refl tick s.timers i; on = l }
  run_action-Reached (add e t k) s i l (soon c d) =
      let r = pico_timer_add-Reached e t s i l c in
      Reached-trans s _ _ r
        (run_action-Reached (k (pico_timer_add host e t s).0) _ r.later.heap r.on (d _))
  run_action-Reached (cancel id k) s i l (any d) =
      let r = pico_timer_cancel-Reached id s i l in
      Reached-trans s _ _ r (run_action-Reached k _ r.later.heap r.on d)

  call_timer-Reached :
      (f : Option ℕ) (a : ℕ) (s : Stack W)
      → IsTimers s.timers
      → tick ≤ clock.now s.world
      → Reached s.timers (call_timer host tick f a s)
  unfolding call_timer
  call_timer-Reached none a s i l = record { later = Later-refl tick s.timers i; on = l }
  call_timer-Reached (some f) a s i l =
      run_action-Reached (host.call f tick a s.world).0
        (record s { world = (host.call f tick a s.world).1 }) i
        (omega (arith, clock.call_on f tick a s.world)) (clock.within f tick a s.world)

  pub fire-Reached :
      (t : Option Timer) (s : Stack W)
      → IsTimers s.timers
      → tick ≤ clock.now s.world
      → Reached s.timers (fire host tick t s)
  unfolding fire
  fire-Reached none s i l = record { later = Later-refl tick s.timers i; on = l }
  fire-Reached (some t) s i l = call_timer-Reached t.timer t.arg s i l
