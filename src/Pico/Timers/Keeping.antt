-- ===== src/Pico/Timers/Keeping.antt =====
-- What the operations on timers keep: the heap, and the timers that are in it.
use fd_picotcp.Prelude.{
  [], ◌∷◌, ◌/◌, ℕ, zero, suc, ◌≤◌, ◌<◌, Bool, true, false, List, none, ltb, ◌==◌, if◌then◌else◌,
  set, ◌≡◌, refl, ap, ◌∙◌, inl, inr, arith, Bool-cases, length, length-set,
}
use fd_picotcp.Pico.Heap.{Heap, slot, heap_insert}
use fd_picotcp.Pico.Heap.Slots.{total}
use fd_picotcp.Pico.Heap.Inserting.{IsHeap, weight, heap_insert_lem, heap_insert_full}
use fd_picotcp.Pico.Heap.First.{heap_insert-first}
use fd_picotcp.Pico.Timers.{TimerRef, no_ref, cancel_loop}

-- The timers are a heap by expiry.
abbrev pub IsTimers : Heap TimerRef → Type 0
IsTimers h = IsHeap TimerRef.expire no_ref h

-- A weight of a reference that its timer has no part in.
abbrev pub by_ref : (ℕ → ℕ → ℕ) → TimerRef → ℕ
by_ref w r = w r.expire r.id

-- 1 for a reference that expires before `tick`.
abbrev pub is_due : ℕ → ℕ → ℕ → ℕ
is_due tick expire id = if ltb expire tick then 1 else 0

pub not_due : (tick expire id : ℕ) → tick ≤ expire → is_due tick expire id ≡ 0
not_due tick expire id l = ground arith

-- What the timer has no part in is the same when the timer is cancelled.
module _ (f : TimerRef → ℕ) (f_same : (r : TimerRef) → f (record r { tmr = none }) ≡ f r) where
  slot-update :
      (t : List TimerRef) (i j : ℕ) (v : TimerRef)
      → f v ≡ f (slot no_ref t i)
      → f (slot no_ref (set t i v) j) ≡ f (slot no_ref t j)
  slot-update [] i j v e = refl
  slot-update (x ∷ t) zero zero v e = e
  slot-update (x ∷ t) zero (suc j) v e = refl
  slot-update (x ∷ t) (suc i) zero v e = refl
  slot-update (x ∷ t) (suc i) (suc j) v e = slot-update t i j v e

  pub slot-cancel_loop :
      (k i id : ℕ) (t : List TimerRef) (j : ℕ)
      → f (slot no_ref (cancel_loop k i id t) j) ≡ f (slot no_ref t j)
  unfolding cancel_loop
  slot-cancel_loop zero i id t j = refl
  slot-cancel_loop (suc k) i id t j = elim (Bool-cases ((slot no_ref t i).id == id)) [
    | inl e ↦ rw e (slot-update t i j _ (f_same (slot no_ref t i)))
    | inr e ↦ rw e (slot-cancel_loop k (suc i) id t j)
  ]

  total-cancel_loop :
      (k i id n : ℕ) (t : List TimerRef)
      → total no_ref f (cancel_loop k i id t) n ≡ total no_ref f t n
  unfolding total
  total-cancel_loop k i id zero t = refl
  total-cancel_loop k i id (suc n) t =
      omega (arith, slot-cancel_loop k i id t (suc n), total-cancel_loop k i id n t)

length-cancel_loop : (k i id : ℕ) (t : List TimerRef) → length (cancel_loop k i id t) ≡ length t
unfolding cancel_loop
length-cancel_loop zero i id t = refl
length-cancel_loop (suc k) i id t = elim (Bool-cases ((slot no_ref t i).id == id)) [
  | inl e ↦ rw e (length-set t i _)
  | inr e ↦ rw e (length-cancel_loop k (suc i) id t)
]

-- The timers after something has been done with them at `tick` or later, beside the timers before:
-- nothing that was there is lost, as many expire before the tick, and the first, if it is one of
-- these, is still the first.
pub record Later (tick : ℕ) (h after : Heap TimerRef) : Type 0 where
  pub heap : IsTimers after
  pub kept : (w : ℕ → ℕ → ℕ) → weight no_ref (by_ref w) h ≤ weight no_ref (by_ref w) after
  pub due : weight no_ref (by_ref (is_due tick)) after ≡ weight no_ref (by_ref (is_due tick)) h
  pub count : h.n ≤ after.n
  pub first :
      1 ≤ h.n
      → (slot no_ref h.top 1).expire < tick
      → ((slot no_ref after.top 1).expire ≡ (slot no_ref h.top 1).expire)
        × ((slot no_ref after.top 1).id ≡ (slot no_ref h.top 1).id)

module _ (tick : ℕ) where
  pub Later-refl : (h : Heap TimerRef) → IsTimers h → Later tick h h
  Later-refl h i = record {
    heap = i;
    kept = λ w. omega arith;
    due = refl;
    count = omega arith;
    first = λ p l. (refl, refl);
  }

  pub Later-trans : (h i j : Heap TimerRef) → Later tick h i → Later tick i j → Later tick h j
  Later-trans h i j a b = record {
    heap = b.heap;
    kept = λ w. omega (arith, a.kept w, b.kept w);
    due = b.due ∙ a.due;
    count = omega (arith, a.count, b.count);
    first = λ p l.
        let x = a.first p l in
        let y = b.first (omega (arith, a.count)) (rw x.0 l) in (y.0 ∙ x.0, y.1 ∙ x.1);
  }

  pub insert-Later :
      (h : Heap TimerRef) (r : TimerRef)
      → IsTimers h
      → tick ≤ r.expire
      → Later tick h (heap_insert TimerRef.expire no_ref true r h).1
  insert-Later h r i l =
      let p = heap_insert_lem TimerRef.expire no_ref r h i in
      record {
        heap = p.1;
        kept = λ w. omega (arith, p.3 (by_ref w));
        due = omega (arith, p.3 (by_ref (is_due tick)), not_due tick r.expire r.id l);
        count = omega (arith, p.2);
        first = λ a b.
            let q = heap_insert-first TimerRef.expire no_ref r h i a (omega arith) in
            (ap TimerRef.expire q, ap TimerRef.id q);
      }

  pub insert_any-Later :
      (memory : Bool) (h : Heap TimerRef) (r : TimerRef)
      → IsTimers h
      → tick ≤ r.expire
      → Later tick h (heap_insert TimerRef.expire no_ref memory r h).1
  insert_any-Later true h r i l = insert-Later h r i l
  insert_any-Later false h r i l = elim (heap_insert_full TimerRef.expire no_ref r h) [
    | inl e ↦ rw e (insert-Later h r i l)
    | inr e ↦ rw e (Later-refl h i)
  ]

  pub cancelled-Later :
      (id : ℕ) (h : Heap TimerRef)
      → IsTimers h
      → Later tick h (record h { top = cancel_loop h.n 1 id h.top })
  cancelled-Later id h i =
      let same = slot-cancel_loop TimerRef.expire (λ r. refl) h.n 1 id h.top in
      record {
        heap = record {
          ordered = λ j a b. rw (same j, same (j / 2)) (i.ordered j a b);
          fits = omega (arith, i.fits, length-cancel_loop h.n 1 id h.top);
          room = λ a. omega (arith, i.room a, length-cancel_loop h.n 1 id h.top);
        };
        kept = λ w. omega (arith, total-cancel_loop (by_ref w) (λ r. refl) h.n 1 id h.n h.top);
        due = total-cancel_loop (by_ref (is_due tick)) (λ r. refl) h.n 1 id h.n h.top;
        count = omega arith;
        first = λ p l. (same 1, slot-cancel_loop TimerRef.id (λ r. refl) h.n 1 id h.top 1);
      }
