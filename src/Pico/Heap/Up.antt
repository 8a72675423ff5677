-- ===== src/Pico/Heap/Up.antt =====
-- The loop of heap_insert keeps the order and the elements.
use fd_picotcp.Prelude.{
  ℕ, zero, suc, ◌+◌, ◌/◌, ◌≤◌, ◌<◌, List, ◌≡◌, refl, ap, subst, ◌∙◌, inl, inr, arith, length,
  length-set, set, ltb, ltb→lt, ltb→le, ◌&&◌, Bool-cases,
}
use fd_picotcp.Pico.Heap.{slot, sift_up}
use fd_picotcp.Pico.Heap.Slots.{decide, slot-set_other, total, total-set}
use fd_picotcp.Pico.Heap.Open.{IsOrdered, IsOpen, key-set, key-set_other, half_other, close_lem}

module _ {A : Type 0} (orderby : A → ℕ) (zeroed : A) where
  -- A parent that is greater has moved down: the hole is at its place.
  up_lem :
      (t : List A) (n i k : ℕ)
      → 2 ≤ i
      → i ≤ n
      → i < length t
      → IsOpen orderby zeroed t n i k
      → k ≤ orderby (slot zeroed t (i / 2))
      → IsOpen orderby zeroed (set t i (slot zeroed t (i / 2))) n (i / 2) k
  up_lem t n i k p m l o h =
      let v = slot zeroed t (i / 2) in
      let same = key-set_other orderby zeroed t i (i / 2) v (half_other i (omega arith)) in
      record {
        apart = λ j a b q r. elim (decide (j / 2) i) [
          | inl e ↦ rw e (
              omega (
                arith,
                key-set orderby zeroed t i v l,
                key-set_other orderby zeroed t i j v (λ z. r (rw z refl)),
                o.over j a b e p,
              ))
          | inr s ↦ omega (
            arith,
            key-set_other orderby zeroed t i j v (λ z. r (rw z refl)),
            key-set_other orderby zeroed t i (j / 2) v s,
            o.apart j a b (λ z. r (rw z refl)) s,
          )
        ];
        over = λ j a b e g. elim (decide j i) [
          | inl z ↦ rw z (
              omega (
                arith,
                key-set orderby zeroed t i v l,
                key-set_other orderby zeroed t i (i / 2 / 2) v (λ y. omega arith),
                o.apart (i / 2) g (omega arith) (half_other i (omega arith)) (λ y. omega arith),
              ))
          | inr z ↦ omega (
            arith,
            key-set_other orderby zeroed t i j v z,
            key-set_other orderby zeroed t i (i / 2 / 2) v (λ y. omega arith),
            o.apart (i / 2) g (omega arith) (half_other i (omega arith)) (λ y. omega arith),
            subst (λ x. orderby (slot zeroed t x) ≤ orderby (slot zeroed t j)) e
                (o.apart j a b z (λ y. omega (arith, e, y))),
          )
        ];
        under = λ j a b e. elim (decide j i) [
          | inl z ↦ rw z (omega (arith, key-set orderby zeroed t i v l, h))
          | inr z ↦ omega (
            arith,
            key-set_other orderby zeroed t i j v z,
            h,
            subst (λ x. orderby (slot zeroed t x) ≤ orderby (slot zeroed t j)) e
                (o.apart j a b z (λ y. omega (arith, e, y))),
          )
        ];
      }

  pub sift_up-IsOrdered :
      (fuel n i : ℕ) (el : A) (t : List A)
      → i ≤ fuel
      → 1 ≤ i
      → i ≤ n
      → n < length t
      → IsOpen orderby zeroed t n i (orderby el)
      → IsOrdered orderby zeroed (sift_up orderby zeroed fuel el i t) n
  unfolding sift_up
  sift_up-IsOrdered zero n i el t f p m l o = absurd (omega arith)
  sift_up-IsOrdered (suc fuel) n i el t f p m l o = elim (Bool-cases (ltb 1 i)) [
    | inl e ↦ elim (Bool-cases (ltb (orderby el) (orderby (slot zeroed t (i / 2))))) [
      | inl d ↦
          rw (e, d)
            (sift_up-IsOrdered fuel n (i / 2) el (set t i (slot zeroed t (i / 2)))
              (omega (arith, ltb→lt 1 i e)) (omega (arith, ltb→lt 1 i e)) (omega arith)
              (omega (arith, length-set t i (slot zeroed t (i / 2))))
              (up_lem t n i (orderby el) (omega (arith, ltb→lt 1 i e)) m (omega arith) o
                (omega (arith, ltb→lt (orderby el) (orderby (slot zeroed t (i / 2))) d))))
      | inr d ↦
          rw (e, d)
            (close_lem orderby zeroed t n i el p (omega arith) o
              (λ z. ltb→le (orderby el) (orderby (slot zeroed t (i / 2))) d))
    ]
    | inr e ↦ rw e (
        close_lem orderby zeroed t n i el p (omega arith) o
          (λ z. absurd (omega (arith, ltb→le 1 i e))))
  ]

  pub length-sift_up :
      (fuel i : ℕ) (el : A) (t : List A) → length (sift_up orderby zeroed fuel el i t) ≡ length t
  unfolding sift_up
  length-sift_up zero i el t = length-set t i el
  length-sift_up (suc fuel) i el t =
      elim (Bool-cases (ltb 1 i && ltb (orderby el) (orderby (slot zeroed t (i / 2))))) [
        | inl e ↦ rw e (
            length-sift_up fuel (i / 2) el (set t i (slot zeroed t (i / 2)))
            ∙ length-set t i (slot zeroed t (i / 2)))
        | inr e ↦ rw e (length-set t i el)
      ]

  pub total-sift_up :
      (w : A → ℕ) (fuel n i : ℕ) (el : A) (t : List A)
      → i ≤ fuel
      → 1 ≤ i
      → i ≤ n
      → n < length t
      → total zeroed w (sift_up orderby zeroed fuel el i t) n + w (slot zeroed t i)
        ≡ total zeroed w t n + w el
  unfolding sift_up
  total-sift_up w zero n i el t f p m l = absurd (omega arith)
  total-sift_up w (suc fuel) n i el t f p m l = elim (Bool-cases (ltb 1 i)) [
    | inl e ↦ elim (Bool-cases (ltb (orderby el) (orderby (slot zeroed t (i / 2))))) [
      | inl d ↦
          rw (e, d)
            (omega (
              arith,
              total-sift_up w fuel n (i / 2) el (set t i (slot zeroed t (i / 2)))
                  (omega (arith, ltb→lt 1 i e)) (omega (arith, ltb→lt 1 i e)) (omega arith)
                  (omega (arith, length-set t i (slot zeroed t (i / 2)))),
              total-set zeroed w t i n (slot zeroed t (i / 2)) p m (omega arith),
              ap w (slot-set_other zeroed t i (i / 2) (slot zeroed t (i / 2)) (half_other i p)),
            ))
      | inr d ↦ rw (e, d) (total-set zeroed w t i n el p m (omega arith))
    ]
    | inr e ↦ rw e (total-set zeroed w t i n el p m (omega arith))
  ]
