-- ===== src/Pico/Timers.antt =====
-- stack/pico_stack.c: the timers, a heap ordered by the time at which they expire.
pub mod Keeping
pub mod Acting
pub mod Ending
pub mod Cancelling
use fd_picotcp.Prelude.{
  ℕ, zero, suc, ◌+◌, ◌%◌, ◌^◌, Bool, true, false, List, Option, none, some, ltb, leb, ◌==◌,
  if◌then◌else◌, set,
}
use fd_picotcp.Pico.Words.{u32, u64}
use fd_picotcp.Pico.Heap.{Heap, slot, heap_insert, heap_first, heap_peek}

-- `struct pico_timer`: a function, which may be null, and its argument.
pub record Timer : Type 0 where
  pub timer : Option ℕ
  pub arg : ℕ

-- `struct pico_timer_ref`, whose timer is null when it has been cancelled.
pub record TimerRef : Type 0 where
  pub expire : ℕ
  pub id : ℕ
  pub tmr : Option Timer

abbrev pub no_ref : TimerRef
no_ref = record { expire = 0; id = 0; tmr = none }

-- What a timer's function asks of the timers, in order; what it does next may depend on the
-- identifier that it gets.
pub data Action : Type 0 where
  done : Action
  add : ℕ → Timer → (ℕ → Action) → Action
  cancel : ℕ → Action → Action

-- What is outside: the clock in milliseconds, the allocator, and the functions of the timers, which
-- get the tick and their argument.
pub record Host (W : Type 0) : Type 0 where
  pub time : W → ℕ × W
  pub zalloc : W → Bool × W
  pub call : ℕ → ℕ → ℕ → W → Action × W

pub record Stack (W : Type 0) : Type 0 where
  pub pico_tick : ℕ
  pub tmr_id : ℕ
  pub timers : Heap TimerRef
  pub world : W

-- Zero is no timer's identifier.
abbrev pub guarded : ℕ → ℕ
guarded id = if id == 0 then 1 else id

abbrev pub ref_of : ℕ → ℕ → Timer → TimerRef
ref_of expire id t = record { expire = expire; id = id; tmr = some t }

-- The loop of pico_timer_cancel over `k` slots from `i` on.
unfoldable pub cancel_loop : ℕ → ℕ → ℕ → List TimerRef → List TimerRef
cancel_loop zero i id t = t
cancel_loop (suc k) i id t =
    let rest = cancel_loop k (suc i) id t in
    if (slot no_ref t i).id == id then set t i (record (slot no_ref t i) { tmr = none }) else rest

module _ {W : Type 0} (host : Host W) where
  -- The heap asks for memory only where its array is full.
  abbrev pub heap_memory : Heap TimerRef → W → Bool × W
  heap_memory h w = if leb h.size (suc h.n) then host.zalloc w else (true, w)

  -- The timer's own memory is there: the clock is read, and the heap gets the reference.
  unfoldable pub add_ref : ℕ → Timer → Stack W → ℕ × Stack W
  add_ref expire t s =
      let now = host.time s.world in
      let mem = heap_memory s.timers now.1 in
      let r = ref_of (u64 (now.0 + expire)) s.tmr_id t in
      (
        s.tmr_id,
        record s {
          tmr_id = u32 (suc s.tmr_id);
          timers = (heap_insert TimerRef.expire no_ref mem.0 r s.timers).1;
          world = mem.1;
        },
      )

  unfoldable pub pico_timer_add : ℕ → Timer → Stack W → ℕ × Stack W
  pico_timer_add expire t s =
      let mem = host.zalloc s.world in
      let s2 : Stack W = record s { tmr_id = guarded s.tmr_id; world = mem.1 } in
      if mem.0 then add_ref expire t s2 else (0, s2)

  unfoldable pub pico_timer_cancel : ℕ → Stack W → Stack W
  pico_timer_cancel id s =
      if id == 0
      then s
      else record s { timers = record s.timers { top = cancel_loop s.timers.n 1 id s.timers.top } }

  unfoldable pub run_action : Action → Stack W → Stack W
  run_action done s = s
  run_action (add expire t k) s = let r = pico_timer_add expire t s in run_action (k r.0) r.1
  run_action (cancel id k) s = run_action k (pico_timer_cancel id s)

  unfoldable pub call_timer : ℕ → Option ℕ → ℕ → Stack W → Stack W
  call_timer tick none a s = s
  call_timer tick (some f) a s =
      let r = host.call f tick a s.world in run_action r.0 (record s { world = r.1 })

  -- A timer that has not been cancelled, and whose function is not null, is called.
  unfoldable pub fire : ℕ → Option Timer → Stack W → Stack W
  fire tick none s = s
  fire tick (some t) s = call_timer tick t.timer t.arg s

  -- The timer is called, and the first of the heap is removed.
  unfoldable pub expire_first : ℕ → TimerRef → Stack W → Stack W
  expire_first tick r s =
      let s2 = fire tick r.tmr s in
      record s2 { timers = (heap_peek TimerRef.expire no_ref s2.timers).1 }

  unfoldable pub check_round :
      Option TimerRef → (Stack W → Option (Stack W)) → ℕ → Stack W → Option (Stack W)
  check_round none next tick s = some s
  check_round (some r) next tick s =
      if ltb r.expire tick then next (expire_first tick r s) else some s

  -- The loop of pico_check_timers; `none` is a loop that goes on after `fuel` rounds.
  unfoldable pub check_loop : ℕ → ℕ → Stack W → Option (Stack W)
  check_loop zero tick s = none
  check_loop (suc fuel) tick s =
      check_round (heap_first no_ref s.timers) (check_loop fuel tick) tick s

  unfoldable pub pico_check_timers : ℕ → Stack W → Option (Stack W)
  pico_check_timers fuel s =
      let now = host.time s.world in
      check_loop fuel now.0 (record s { pico_tick = now.0; world = now.1 })
