-- ===== src/Pico/Timers/Ending.antt =====
-- pico_check_timers comes to an end, and what it leaves.
use fd_picotcp.Prelude.{
  ℕ, zero, suc, ◌+◌, ◌≤◌, ◌<◌, false, some, ltb, ◌==◌, ◌≡◌, refl, inl, inr, arith, Bool-cases,
  ltb→lt, ltb→le, ==_iff, ◌-◌,
}
use fd_picotcp.Pico.Heap.{slot, heap_first, heap_peek}
use fd_picotcp.Pico.Heap.Slots.{total}
use fd_picotcp.Pico.Heap.Inserting.{weight}
use fd_picotcp.Pico.Heap.Removing.{heap_peek_lem, first_least}
use fd_picotcp.Pico.Timers.{
  TimerRef, no_ref, Host, Stack, fire, expire_first, check_round, check_loop, pico_check_timers,
}
use fd_picotcp.Pico.Timers.Keeping.{IsTimers, Later, by_ref, is_due}
use fd_picotcp.Pico.Timers.Acting.{Clock, fire-Reached}

not_zero : (n : ℕ) → (n == 0) ≡ false → 1 ≤ n
not_zero n e = ground arith

-- The timers that expire before `tick`.
abbrev pub due : {W : Type 0} → ℕ → Stack W → ℕ
due tick s = weight no_ref (by_ref (is_due tick)) s.timers

at_most : (w : TimerRef → ℕ) (t : _) (n : ℕ) → ((r : TimerRef) → w r ≤ 1) → total no_ref w t n ≤ n
unfolding total
at_most w t zero h = omega arith
at_most w t (suc n) h = omega (arith, h (slot no_ref t (suc n)), at_most w t n h)

due-most : (tick e id : ℕ) → is_due tick e id ≤ 1
due-most tick e id = ground arith

is_due_at : (tick e id : ℕ) → e < tick → is_due tick e id ≡ 1
is_due_at tick e id l = ground arith

same_weight :
    (w : ℕ → ℕ → ℕ) (r u : TimerRef) → r.expire ≡ u.expire → r.id ≡ u.id → by_ref w r ≡ by_ref w u
same_weight w r u a b = rw (a, b) refl

-- The first of the timers, which is due, is removed after its function has been called: the same
-- reference, and it alone.
record Expired {W : Type 0} (tick : ℕ) (r : TimerRef) (s t : Stack W) : Type 0 where
  heap : IsTimers t.timers
  fewer : due tick s ≡ suc (due tick t)
  kept :
      (w : ℕ → ℕ → ℕ)
      → weight no_ref (by_ref w) s.timers ≤ w r.expire r.id + weight no_ref (by_ref w) t.timers

-- What the loop leaves: timers that expire at the tick or later, those of before among them.
pub record Checked {W : Type 0} (tick : ℕ) (s t : Stack W) : Type 0 where
  pub heap : IsTimers t.timers
  pub none_due : (j : ℕ) → 1 ≤ j → j ≤ t.timers.n → tick ≤ (slot no_ref t.timers.top j).expire
  pub kept :
      (w : ℕ → ℕ → ℕ)
      → ((e id : ℕ) → e < tick → w e id ≡ 0)
      → weight no_ref (by_ref w) s.timers ≤ weight no_ref (by_ref w) t.timers

module _ {W : Type 0} (host : Host W) (bound : ℕ) (clock : Clock host bound) (tick : ℕ) where
  abbrev first_ref : Stack W → TimerRef
  first_ref s = slot no_ref s.timers.top 1

  removed-Expired :
      (s u : Stack W) (m : ℕ)
      → 1 ≤ s.timers.n
      → (first_ref s).expire < tick
      → Later tick s.timers u.timers
      → u.timers.n ≡ suc m
      → Expired tick
          (first_ref s)
          s
          (record u { timers = (heap_peek TimerRef.expire no_ref u.timers).1 })
  removed-Expired s u m p l r e =
      let q = heap_peek_lem TimerRef.expire no_ref m u.timers r.heap e in
      let f = r.first p l in
      record {
        heap = q.2;
        fewer = omega (
          arith,
          q.4 (by_ref (is_due tick)),
          r.due,
          is_due_at tick (first_ref u).expire (first_ref u).id (omega (arith, f.0)),
        );
        kept = λ w.
            omega
              (arith, r.kept w, q.4 (by_ref w), same_weight w (first_ref u) (first_ref s) f.0 f.1);
      }

  expire_first-Expired :
      (s : Stack W)
      → IsTimers s.timers
      → tick ≤ clock.now s.world
      → 1 ≤ s.timers.n
      → (first_ref s).expire < tick
      → Expired tick (first_ref s) s (expire_first host tick (first_ref s) s)
        × (tick ≤ clock.now (expire_first host tick (first_ref s) s).world)
  unfolding expire_first
  expire_first-Expired s i o p l =
      let r = fire-Reached host bound clock tick (first_ref s).tmr s i o in
      let u = fire host tick (first_ref s).tmr s in
      (removed-Expired s u (u.timers.n - 1) p l r.later (omega (arith, r.later.count)), r.on)

  stop-Checked :
      (s : Stack W)
      → IsTimers s.timers
      → (1 ≤ s.timers.n → tick ≤ (first_ref s).expire)
      → Checked tick s s
  stop-Checked s i l = record {
    heap = i;
    none_due = λ j a b.
        omega (arith, first_least TimerRef.expire no_ref s.timers j i a b, l (omega arith));
    kept = λ w z. omega arith;
  }

  on-Checked :
      (s u t : Stack W)
      → (first_ref s).expire < tick
      → Expired tick (first_ref s) s u
      → Checked tick u t
      → Checked tick s t
  on-Checked s u t l x c = record {
    heap = c.heap;
    none_due = c.none_due;
    kept = λ w z. omega (arith, x.kept w, c.kept w z, z (first_ref s).expire (first_ref s).id l);
  }

  pub check_loop-Checked :
      (fuel : ℕ) (s : Stack W)
      → IsTimers s.timers
      → tick ≤ clock.now s.world
      → due tick s < fuel
      → (t : Stack W) × (check_loop host fuel tick s ≡ some t) × Checked tick s t
  unfolding check_loop check_round heap_first
  check_loop-Checked zero s i o f = absurd (omega arith)
  check_loop-Checked (suc fuel) s i o f = elim (Bool-cases (s.timers.n == 0)) [
    | inl e ↦
        (s, rw e refl, stop-Checked s i (λ p. absurd (omega (arith, (==_iff s.timers.n 0).0 e))))
    | inr e ↦ elim (Bool-cases (ltb (first_ref s).expire tick)) [
      | inl d ↦
          let l = ltb→lt (first_ref s).expire tick d in
          let x = expire_first-Expired s i o (not_zero s.timers.n e) l in
          let u = expire_first host tick (first_ref s) s in
          let r = check_loop-Checked fuel u x.0.heap x.1 (omega (arith, x.0.fewer)) in
          (r.0, rw (e, d) r.1, on-Checked s u r.0 l x.0 r.2)
      | inr d ↦ (s, rw (e, d) refl, stop-Checked s i (λ p. ltb→le (first_ref s).expire tick d))
    ]
  ]

-- The check of the timers ends, on a clock that does not go back and with functions that set timers
-- at most so far ahead that the clock does not overflow: as many rounds as there are timers, and
-- one, are enough. It leaves a heap in order, in which no timer expires before the time that the
-- check has read, and no timer that was not yet due is lost.
pub check_timers_lem :
    {W : Type 0} (host : Host W) (bound : ℕ) (clock : Clock host bound) (fuel : ℕ) (s : Stack W)
    → IsTimers s.timers
    → s.timers.n < fuel
    → (t : Stack W) × (pico_check_timers host fuel s ≡ some t) × Checked (clock.now s.world) s t
unfolding pico_check_timers
check_timers_lem host bound clock fuel s i f =
    let now = clock.reads s.world in
    let s2 : Stack _ = record s { pico_tick = clock.now s.world; world = (host.time s.world).1 } in
    let r =
      check_loop-Checked host bound clock (clock.now s.world) fuel s2 i (clock.time_on s.world) (
        omega (
          arith,
          at_most (by_ref (is_due (clock.now s.world))) s.timers.top s.timers.n
              (λ r. due-most (clock.now s.world) r.expire r.id),
          f,
        )) in
    (r.0, rw now r.1, record { heap = r.2.heap; none_due = r.2.none_due; kept = r.2.kept })
