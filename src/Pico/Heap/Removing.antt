-- ===== src/Pico/Heap/Removing.antt =====
-- What comes out of a heap first, and what is left.
use fd_picotcp.Prelude.{ℕ, zero, suc, ◌+◌, ◌/◌, ◌≤◌, ◌<◌, List, some, ◌≡◌, refl, ap, arith, length}
use fd_picotcp.Pico.Heap.{Heap, slot, sift_down, remove, heap_peek}
use fd_picotcp.Pico.Heap.Slots.{total, total-suc}
use fd_picotcp.Pico.Heap.Open.{IsOrdered}
use fd_picotcp.Pico.Heap.Down.{sift_down-IsOrdered, length-sift_down, total-sift_down}
use fd_picotcp.Pico.Heap.Inserting.{IsHeap, weight}

module _ {A : Type 0} (orderby : A → ℕ) (zeroed : A) where
  root_least :
      (t : List A) (n fuel j : ℕ)
      → IsOrdered orderby zeroed t n
      → j ≤ fuel
      → 1 ≤ j
      → j ≤ n
      → orderby (slot zeroed t 1) ≤ orderby (slot zeroed t j)
  root_least t n zero j o f a b = absurd (omega arith)
  root_least t n (suc fuel) zero o f a b = absurd (omega arith)
  root_least t n (suc fuel) (suc zero) o f a b = omega arith
  root_least t n (suc fuel) (suc (suc k)) o f a b = omega (
    arith,
    o (suc (suc k)) (omega arith) b,
    root_least t n fuel (suc (suc k) / 2) o (omega arith) (omega arith) (omega arith),
  )

  -- The first of a heap that is not empty is none greater than any of its elements.
  pub first_least :
      (h : Heap A) (j : ℕ)
      → IsHeap orderby zeroed h
      → 1 ≤ j
      → j ≤ h.n
      → orderby (slot zeroed h.top 1) ≤ orderby (slot zeroed h.top j)
  first_least h j i a b = root_least h.top h.n j j i.ordered (omega arith) a b

  removed_weight :
      (w : A → ℕ) (m : ℕ) (t : List A)
      → suc m < length t
      → total zeroed w t (suc m)
        ≡ w (slot zeroed t 1)
          + total zeroed w (sift_down orderby zeroed (suc m) (slot zeroed t (suc m)) m 1 t) m
  unfolding total
  removed_weight w zero t l = refl
  removed_weight w (suc k) t l = omega (
    arith,
    total-suc zeroed w t (suc k),
    total-sift_down orderby zeroed w (suc (suc k)) (suc k) 1 (slot zeroed t (suc (suc k))) t
        (omega arith) (omega arith) (omega arith),
  )

  record Removed (m : ℕ) (h after : Heap A) : Type 0 where
    pub heap : IsHeap orderby zeroed after
    pub counted : after.n ≡ m
    pub weighed : (w : A → ℕ) → weight zeroed w h ≡ w (slot zeroed h.top 1) + weight zeroed w after

  remove-Removed :
      (m : ℕ) (h : Heap A)
      → IsHeap orderby zeroed h
      → h.n ≡ suc m
      → Removed m h (remove orderby zeroed (suc m) h).1
  unfolding remove
  remove-Removed m h i e =
      let last = slot zeroed h.top (suc m) in
      let l = length-sift_down orderby zeroed (suc m) m 1 last h.top in
      let r = i.room (omega (arith, e)) in
      let r2 : suc m < length h.top = omega (arith, r, e) in
      record {
        heap = record {
          ordered =
              sift_down-IsOrdered orderby zeroed (suc m) m 1 last h.top (omega arith) (omega arith)
                (omega arith) (omega (arith, r, e))
                (record {
                  apart = λ j a b q s. i.ordered j a (omega (arith, e));
                  over = λ j a b q s. absurd (omega arith);
                  under = λ j a b q. omega arith;
                })
                (λ a. absurd (omega arith));
          fits = omega (arith, l, i.fits);
          room = λ a. omega (arith, l, r, e);
        };
        counted = refl;
        weighed = λ w. rw e (removed_weight w m h.top r2);
      }

  peek_eq :
      (m : ℕ) (h : Heap A)
      → h.n ≡ suc m
      → heap_peek orderby zeroed h ≡ remove orderby zeroed (suc m) h
  unfolding heap_peek
  peek_eq m h e = ap (λ k. remove orderby zeroed k h) e

  remove_first :
      (m : ℕ) (h : Heap A) → (remove orderby zeroed (suc m) h).0 ≡ some (slot zeroed h.top 1)
  unfolding remove
  remove_first m h = refl

  -- A heap with an element in it gives up the one in its first slot, which is none greater than any
  -- of its elements. It stays a heap, with one element less, and has the others still.
  pub heap_peek_lem :
      (m : ℕ) (h : Heap A)
      → IsHeap orderby zeroed h
      → h.n ≡ suc m
      → ((heap_peek orderby zeroed h).0 ≡ some (slot zeroed h.top 1))
        × ((j : ℕ)
            → 1 ≤ j
            → j ≤ h.n
            → orderby (slot zeroed h.top 1) ≤ orderby (slot zeroed h.top j))
        × IsHeap orderby zeroed (heap_peek orderby zeroed h).1
        × ((heap_peek orderby zeroed h).1.n ≡ m)
        × ((w : A → ℕ)
            → weight zeroed w h
              ≡ w (slot zeroed h.top 1) + weight zeroed w (heap_peek orderby zeroed h).1)
  heap_peek_lem m h i e =
      let r = remove-Removed m h i e in
      rw (peek_eq m h e)
        (remove_first m h, λ j a b. first_least h j i a b, r.heap, r.counted, r.weighed)
