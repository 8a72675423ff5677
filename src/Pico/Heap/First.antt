-- ===== src/Pico/Heap/First.antt =====
-- An element that is not smaller than the first leaves it in its place.
use fd_picotcp.Prelude.{
  ℕ, zero, suc, ◌/◌, ◌≤◌, true, false, Bool, ap, List, ◌≡◌, ◌∙◌, inl, inr, arith, set, ltb, leb,
  ltb→lt, ==_iff, ◌==◌, Bool-cases, ◌&&◌,
}
use fd_picotcp.Pico.Heap.{Heap, slot, grow, sift_up, place, heap_insert}
use fd_picotcp.Pico.Heap.Slots.{decide, slot-set_other, slot-grow}
use fd_picotcp.Pico.Heap.Inserting.{IsHeap}

and_right : (a b : Bool) → (a && b) ≡ true → b ≡ true
and_right true b h = h
and_right false b h = cc

module _ {A : Type 0} (orderby : A → ℕ) (zeroed : A) where
  sift_up-first :
      (fuel i : ℕ) (el : A) (t : List A)
      → 2 ≤ i
      → i ≤ fuel
      → orderby (slot zeroed t 1) ≤ orderby el
      → slot zeroed (sift_up orderby zeroed fuel el i t) 1 ≡ slot zeroed t 1
  unfolding sift_up
  sift_up-first zero i el t p f k = absurd (omega arith)
  sift_up-first (suc fuel) i el t p f k =
      let same = slot-set_other zeroed t i 1 (slot zeroed t (i / 2)) (λ e. omega arith) in
      elim (Bool-cases (ltb 1 i && ltb (orderby el) (orderby (slot zeroed t (i / 2))))) [
        | inl e ↦ elim (decide (i / 2) 1) [
          | inl q ↦ absurd (
              omega (
                arith,
                k,
                ap (λ x. orderby (slot zeroed t x)) q,
                ltb→lt (orderby el) (orderby (slot zeroed t (i / 2))) (and_right (ltb 1 i) _ e),
              ))
          | inr q ↦ rw e (
              sift_up-first fuel (i / 2) el (set t i (slot zeroed t (i / 2))) (omega (arith, q))
                (omega arith) (rw same k)
              ∙ same)
        ]
        | inr e ↦ rw e (slot-set_other zeroed t i 1 el (λ q. omega arith))
      ]

  place-first :
      (el : A) (m size : ℕ) (t : List A)
      → 1 ≤ m
      → orderby (slot zeroed t 1) ≤ orderby el
      → slot zeroed (place orderby zeroed el (record { size = size; n = suc m; top = t })).top 1
        ≡ slot zeroed t 1
  unfolding place
  place-first el m size t p k = elim (Bool-cases (suc m == 1)) [
    | inl e ↦ absurd (omega (arith, (==_iff (suc m) 1).0 e))
    | inr e ↦ rw e (sift_up-first (suc m) (suc m) el t (omega arith) (omega arith) k)
  ]

  pub heap_insert-first :
      (el : A) (h : Heap A)
      → IsHeap orderby zeroed h
      → 1 ≤ h.n
      → orderby (slot zeroed h.top 1) ≤ orderby el
      → slot zeroed (heap_insert orderby zeroed true el h).1.top 1 ≡ slot zeroed h.top 1
  unfolding heap_insert
  heap_insert-first el h i p k =
      let same = slot-grow zeroed h.top (suc h.n) 1 (omega (arith, i.room p)) (omega arith) in
      elim (Bool-cases (leb h.size (suc h.n))) [
        | inl e ↦
            rw e
              (place-first el h.n (suc h.size) (grow zeroed h.top (suc h.n)) p (rw same k) ∙ same)
        | inr e ↦ rw e (place-first el h.n h.size h.top p k)
      ]
