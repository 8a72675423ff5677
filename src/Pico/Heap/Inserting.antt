-- ===== src/Pico/Heap/Inserting.antt =====
-- Heaps, and what an insertion makes of one.
use fd_picotcp.Prelude.{
  ℕ, suc, ◌+◌, ◌/◌, ◌≤◌, ◌<◌, pos, negsuc, true, false, List, ◌≡◌, refl, ap, ◌⊎◌, inl, inr, arith,
  length, length-set, leb, leb→le, leb→lt, ◌==◌, ==_iff, Bool-cases,
}
use fd_picotcp.Pico.Heap.{Heap, slot, grow, place, heap_insert, heap_init}
use fd_picotcp.Pico.Heap.Slots.{slot-grow, length-grow, total, total-suc, total-set, total_same}
use fd_picotcp.Pico.Heap.Open.{IsOrdered}
use fd_picotcp.Pico.Heap.Up.{sift_up-IsOrdered, length-sift_up, total-sift_up}

-- What the elements of a heap add up to.
abbrev pub weight : {A : Type 0} → A → (A → ℕ) → Heap A → ℕ
weight zeroed w h = total zeroed w h.top h.n

module _ {A : Type 0} (orderby : A → ℕ) (zeroed : A) where
  -- The slots are in order, and every use of the array is inside it.
  pub record IsHeap (h : Heap A) : Type 0 where
    pub ordered : IsOrdered orderby zeroed h.top h.n
    pub fits : h.size ≤ length h.top
    pub room : 1 ≤ h.n → h.n < length h.top

  pub heap_init-IsHeap : IsHeap heap_init
  heap_init-IsHeap = record {
    ordered = λ j a b. absurd (omega arith);
    fits = omega arith;
    room = λ a. absurd (omega arith);
  }

  record Placed (w : A → ℕ) (el : A) (m : ℕ) (t : List A) (h : Heap A) : Type 0 where
    heap : IsHeap h
    counted : h.n ≡ suc m
    weighed : weight zeroed w h ≡ w el + total zeroed w t m

  place-Placed :
      (w : A → ℕ) (el : A) (m size : ℕ) (t : List A)
      → IsOrdered orderby zeroed t m
      → size ≤ length t
      → suc m < length t
      → Placed w el m t (place orderby zeroed el (record { size = size; n = suc m; top = t }))
  unfolding place
  place-Placed w el m size t o f r = elim (Bool-cases (suc m == 1)) [
    | inl e ↦ rw e (record {
      heap = record {
        ordered = λ j a b. absurd (omega (arith, (==_iff (suc m) 1).0 e));
        fits = omega (arith, length-set t 1 el);
        room = λ a. omega (arith, length-set t 1 el);
      };
      counted = refl;
      weighed = omega (
        arith,
        total-suc zeroed w t m,
        total-set zeroed w t 1 (suc m) el (omega arith) (omega arith) (omega arith),
        ap (λ k. w (slot zeroed t k)) ((==_iff (suc m) 1).0 e),
      );
    })
    | inr e ↦ rw e (record {
      heap = record {
        ordered =
            sift_up-IsOrdered orderby zeroed (suc m) (suc m) (suc m) el t (omega arith)
              (omega arith) (omega arith) r
              (record {
                apart = λ j a b q s. o j a (omega (arith, q));
                over = λ j a b q s. absurd (omega (arith, q));
                under = λ j a b q. absurd (omega (arith, q));
              });
        fits = omega (arith, length-sift_up orderby zeroed (suc m) (suc m) el t);
        room = λ a. omega (arith, length-sift_up orderby zeroed (suc m) (suc m) el t);
      };
      counted = refl;
      weighed = omega (
        arith,
        total-suc zeroed w t m,
        total-sift_up orderby zeroed w (suc m) (suc m) (suc m) el t (omega arith) (omega arith)
            (omega arith) r,
      );
    })
  ]

  abbrev grown : Heap A → List A
  grown h = grow zeroed h.top (suc h.n)

  grown_same :
      (h : Heap A)
      → IsHeap h
      → (j : ℕ) → 1 ≤ j
      → j ≤ h.n
      → slot zeroed (grown h) j ≡ slot zeroed h.top j
  grown_same h i j a b =
      slot-grow zeroed h.top (suc h.n) j (omega (arith, i.room (omega arith))) (omega arith)

  grown-IsOrdered : (h : Heap A) → IsHeap h → IsOrdered orderby zeroed (grown h) h.n
  grown-IsOrdered h i j a b =
      rw (grown_same h i j (omega arith) b, grown_same h i (j / 2) (omega arith) (omega arith))
        (i.ordered j a b)

  grown-Placed :
      (w : A → ℕ) (el : A) (h : Heap A)
      → IsHeap h
      → leb h.size (suc h.n) ≡ true
      → Placed w el h.n h.top
          (place orderby zeroed el (record { size = suc h.size; n = suc h.n; top = grown h }))
  grown-Placed w el h i e =
      let l = length-grow zeroed h.top (suc h.n) in
      let p =
        place-Placed w el h.n (suc h.size) (grown h) (grown-IsOrdered h i)
          (omega (arith, leb→le h.size (suc h.n) e, l)) (omega (arith, l)) in
      record {
        heap = p.heap;
        counted = p.counted;
        weighed =
            omega (arith, p.weighed, total_same zeroed w (grown h) h.top h.n (grown_same h i));
      }

  heap_insert-Placed :
      (w : A → ℕ) (el : A) (h : Heap A)
      → IsHeap h
      → ((heap_insert orderby zeroed true el h).0 ≡ pos 0)
        × Placed w el h.n h.top (heap_insert orderby zeroed true el h).1
  unfolding heap_insert
  heap_insert-Placed w el h i = elim (Bool-cases (leb h.size (suc h.n))) [
    | inl e ↦ rw e (refl, grown-Placed w el h i e)
    | inr e ↦ rw e (
      refl,
      place-Placed w el h.n h.size h.top i.ordered i.fits
          (omega (arith, i.fits, leb→lt h.size (suc h.n) e)),
    )
  ]

  -- An insertion into a heap, with memory at hand, succeeds and leaves a heap: in order, and with
  -- every use of the array inside it. It has the element more, and those that it had.
  pub heap_insert_lem :
      (el : A) (h : Heap A)
      → IsHeap h
      → ((heap_insert orderby zeroed true el h).0 ≡ pos 0)
        × IsHeap (heap_insert orderby zeroed true el h).1
        × ((heap_insert orderby zeroed true el h).1.n ≡ suc h.n)
        × ((w : A → ℕ)
            → weight zeroed w (heap_insert orderby zeroed true el h).1 ≡ w el + weight zeroed w h)
  heap_insert_lem el h i =
      let p = heap_insert-Placed (λ x. 0) el h i in
      (p.0, p.1.heap, p.1.counted, λ w. (heap_insert-Placed w el h i).1.weighed)

  -- Without memory, an insertion does as with it, or says so and leaves the heap as it was.
  pub heap_insert_full :
      (el : A) (h : Heap A)
      → (heap_insert orderby zeroed false el h ≡ heap_insert orderby zeroed true el h)
        ⊎ (heap_insert orderby zeroed false el h ≡ (negsuc 0, h))
  unfolding heap_insert
  heap_insert_full el h = elim (Bool-cases (leb h.size (suc h.n))) [
    | inl e ↦ inr (rw e refl)
    | inr e ↦ inl (rw e refl)
  ]
