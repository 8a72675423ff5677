-- ===== src/Pico/Timers/Cancelling.antt =====
-- A cancelled timer is not called.
use fd_picotcp.Prelude.{
  ℕ, zero, suc, ◌+◌, ◌≤◌, ◌<◌, List, none, ◌≡◌, ◌≢◌, ◌⊎◌, false, refl, ap, inl, inr, arith, length,
  ◌==◌, ==_iff, Bool-cases,
}
use fd_picotcp.Pico.Heap.{slot}
use fd_picotcp.Pico.Heap.Slots.{decide, slot-set, slot-set_other}
use fd_picotcp.Pico.Timers.{TimerRef, no_ref, Host, Stack, fire, cancel_loop, pico_timer_cancel}
use fd_picotcp.Pico.Timers.Keeping.{IsTimers}

-- No two of the slots from 1 to `n` have the identifier `id`.
abbrev pub IsAlone : ℕ → List TimerRef → ℕ → Type 0
IsAlone id t n =
    (i j : ℕ)
    → 1 ≤ i
    → i ≤ n
    → 1 ≤ j
    → j ≤ n
    → (slot no_ref t i).id ≡ id
    → (slot no_ref t j).id ≡ id
    → i ≡ j

past :
    (i j : ℕ) (t : List TimerRef) (id : ℕ)
    → ((slot no_ref t i).id == id) ≡ false
    → (slot no_ref t j).id ≡ id
    → i ≤ j
    → suc i ≤ j
past i j t id d e a = elim (decide i j) [
  | inl q ↦ absurd (cc (d, (==_iff (slot no_ref t i).id id).1 (rw q e)))
  | inr q ↦ omega (arith, q)
]

loop_lem :
    (k i id n : ℕ) (t : List TimerRef) (j : ℕ)
    → IsAlone id t n
    → n < length t
    → 1 ≤ i
    → i ≤ j
    → j < i + k
    → j ≤ n
    → (slot no_ref t j).id ≡ id
    → (slot no_ref (cancel_loop k i id t) j).tmr ≡ none
unfolding cancel_loop
loop_lem zero i id n t j u l p a b m e = absurd (omega arith)
loop_lem (suc k) i id n t j u l p a b m e = elim (Bool-cases ((slot no_ref t i).id == id)) [
  | inl d ↦
      rw (d, u i j p (omega arith) (omega arith) m ((==_iff (slot no_ref t i).id id).0 d) e)
        (ap TimerRef.tmr (slot-set no_ref t j _ (omega arith)))
  | inr d ↦
      rw d (loop_lem k (suc i) id n t j u l (omega arith) (past i j t id d e a) (omega arith) m e)
]

other_lem :
    (k i id : ℕ) (t : List TimerRef) (j : ℕ)
    → (slot no_ref t j).id ≢ id
    → slot no_ref (cancel_loop k i id t) j ≡ slot no_ref t j
unfolding cancel_loop
other_lem zero i id t j q = refl
other_lem (suc k) i id t j q = elim (Bool-cases ((slot no_ref t i).id == id)) [
  | inl d ↦
      rw d (slot-set_other no_ref t i j _ (λ e. q (rw e ((==_iff (slot no_ref t i).id id).0 d))))
  | inr d ↦ rw d (other_lem k (suc i) id t j q)
]

-- After a cancellation, a reference of the heap is as it was, under another identifier, or it has
-- this one, which no other has: then nothing is called when it expires.
pub cancel_lem :
    {W : Type 0} (host : Host W) (id tick j : ℕ) (s : Stack W)
    → id ≢ 0
    → IsTimers s.timers
    → IsAlone id s.timers.top s.timers.n
    → 1 ≤ j
    → j ≤ s.timers.n
    → ((slot no_ref s.timers.top j).id ≢ id)
        × (slot no_ref (pico_timer_cancel host id s).timers.top j ≡ slot no_ref s.timers.top j)
      ⊎ ((slot no_ref s.timers.top j).id ≡ id)
        × (fire host tick (slot no_ref (pico_timer_cancel host id s).timers.top j).tmr s ≡ s)
unfolding pico_timer_cancel fire
cancel_lem host id tick j s q i u a b = elim (Bool-cases (id == 0)) [
  | inl d ↦ absurd (q ((==_iff id 0).0 d))
  | inr d ↦ elim (decide (slot no_ref s.timers.top j).id id) [
    | inl e ↦ inr (
      e,
      rw
          (
            d,
            loop_lem s.timers.n 1 id s.timers.n s.timers.top j u (i.room (omega arith))
                (omega arith) a (omega arith) b e,
          )
          refl,
    )
    | inr e ↦ inl (e, rw d (other_lem s.timers.n 1 id s.timers.top j e))
  ]
]
