-- ===== src/Pico/Heap/Down.antt =====
-- The loop of heap_peek keeps the order and the elements.
use fd_picotcp.Prelude.{
  ℕ, zero, suc, ◌+◌, ◌*◌, ◌/◌, ◌≤◌, ◌<◌, List, ◌≡◌, ◌≢◌, ap, subst, ◌∙◌, ◌⊎◌, inl, inr, arith,
  false, length, length-set, set, ltb, leb, ltb→lt, ltb→le, leb→le, leb→lt, ◌==◌, ==_iff, ◌&&◌,
  Bool-cases,
}
use fd_picotcp.Pico.Heap.{slot, smaller, sift_down}
use fd_picotcp.Pico.Heap.Slots.{decide, slot-set_other, total, total-set}
use fd_picotcp.Pico.Heap.Open.{IsOrdered, IsOpen, key-set, key-set_other, half_other, close_lem}

==_false : (a b : ℕ) → (a == b) ≡ false → a ≢ b
==_false a b h e = absurd (cc (h, (==_iff a b).1 e))

module _ {A : Type 0} (orderby : A → ℕ) (zeroed : A) where
  abbrev key : List A → ℕ → ℕ
  key t j = orderby (slot zeroed t j)

  -- What the loop needs of the child that it takes.
  record IsSmaller (t : List A) (n i c : ℕ) : Type 0 where
    child : c / 2 ≡ i
    inside : c ≤ n
    least : (j : ℕ) → j ≤ n → j / 2 ≡ i → key t c ≤ key t j

  children : (i j : ℕ) → j / 2 ≡ i → (j ≡ 2 * i) ⊎ (j ≡ 2 * i + 1)
  children i j e = elim (decide j (2 * i)) [ inl q ↦ inl q | inr q ↦ inr (omega (arith, e, q)) ]

  least_of :
      (t : List A) (n i c : ℕ)
      → key t c ≤ key t (2 * i)
      → (2 * i + 1 ≤ n → key t c ≤ key t (2 * i + 1))
      → (j : ℕ) → j ≤ n
      → j / 2 ≡ i
      → key t c ≤ key t j
  least_of t n i c l r j b e = elim (children i j e) [
    | inl q ↦ rw q l
    | inr q ↦ rw q (r (omega (arith, q)))
  ]

  smaller-IsSmaller :
      (t : List A) (n i : ℕ) → 1 ≤ i → 2 * i ≤ n → IsSmaller t n i (smaller orderby zeroed n t i)
  unfolding smaller
  smaller-IsSmaller t n i p m = elim (Bool-cases (2 * i == n)) [
    | inl e ↦ rw e (record {
      child = omega arith;
      inside = m;
      least =
          least_of t n i (2 * i) (omega arith)
            (λ q. absurd (omega (arith, (==_iff (2 * i) n).0 e)));
    })
    | inr e ↦ elim (Bool-cases (ltb (key t (2 * i + 1)) (key t (2 * i)))) [
      | inl d ↦
          rw (e, d)
            (record {
              child = omega arith;
              inside = omega (arith, ==_false (2 * i) n e);
              least =
                  least_of t n i (2 * i + 1)
                    (omega (arith, ltb→lt (key t (2 * i + 1)) (key t (2 * i)) d))
                    (λ q. omega arith);
            })
      | inr d ↦
          rw (e, d)
            (record {
              child = omega arith;
              inside = m;
              least =
                  least_of t n i (2 * i) (omega arith)
                    (λ q. ltb→le (key t (2 * i + 1)) (key t (2 * i)) d);
            })
    ]
  ]

  -- The smaller child has moved up: the hole is at its place.
  down_lem :
      (t : List A) (n i c k : ℕ)
      → 1 ≤ i
      → i < length t
      → IsOpen orderby zeroed t n i 0
      → (2 ≤ i → key t (i / 2) ≤ k)
      → IsSmaller t n i c
      → IsOpen orderby zeroed (set t i (slot zeroed t c)) n c 0
  down_lem t n i c k p l o h s =
      let v = slot zeroed t c in
      record {
        apart = λ j a b q r. elim (decide j i) [
          | inl z ↦ rw z (
              omega (
                arith,
                key-set orderby zeroed t i v l,
                key-set_other orderby zeroed t i (i / 2) v (half_other i p),
                o.over c (omega (arith, s.child)) s.inside s.child (omega arith),
              ))
          | inr z ↦ elim (decide (j / 2) i) [
            | inl y ↦ rw y (
                omega (
                  arith,
                  key-set orderby zeroed t i v l,
                  key-set_other orderby zeroed t i j v z,
                  s.least j b y,
                ))
            | inr y ↦ omega (
              arith,
              key-set_other orderby zeroed t i j v z,
              key-set_other orderby zeroed t i (j / 2) v y,
              o.apart j a b z y,
            )
          ]
        ];
        over = λ j a b e g. rw s.child (
            omega (
              arith,
              key-set orderby zeroed t i v l,
              key-set_other orderby zeroed t i j v (λ z. omega (arith, s.child)),
              subst (λ x. key t x ≤ key t j) e
                  (o.apart j a b (λ z. omega (arith, s.child)) (λ z. omega (arith, s.child))),
            ));
        under = λ j a b e. omega arith;
      }

  -- The hole closes: without children of its own, or with children that are no smaller.
  stop_lem :
      (t : List A) (n i : ℕ) (last : A)
      → 1 ≤ i
      → i < length t
      → IsOpen orderby zeroed t n i 0
      → (2 ≤ i → key t (i / 2) ≤ orderby last)
      → ((j : ℕ) → j ≤ n → j / 2 ≡ i → orderby last ≤ key t j)
      → IsOrdered orderby zeroed (set t i last) n
  stop_lem t n i last p l o h u =
      close_lem orderby zeroed t n i last p l
        (record { apart = o.apart; over = o.over; under = λ j a b e. u j b e }) h

  pub sift_down-IsOrdered :
      (fuel n i : ℕ) (last : A) (t : List A)
      → n < fuel + i
      → 1 ≤ i
      → i ≤ suc n
      → suc n < length t
      → IsOpen orderby zeroed t n i 0
      → (2 ≤ i → key t (i / 2) ≤ orderby last)
      → IsOrdered orderby zeroed (sift_down orderby zeroed fuel last n i t) n
  unfolding sift_down
  sift_down-IsOrdered zero n i last t f p m l o h =
      stop_lem t n i last p (omega arith) o h (λ j b q. absurd (omega (arith, q)))
  sift_down-IsOrdered (suc fuel) n i last t f p m l o h =
      let c = smaller orderby zeroed n t i in
      elim (Bool-cases (leb (i * 2) n)) [
        | inl e ↦
            let s = smaller-IsSmaller t n i p (omega (arith, leb→le (i * 2) n e)) in
            elim (Bool-cases (ltb (key t c) (orderby last))) [
              | inl d ↦
                  rw (e, d)
                    (sift_down-IsOrdered fuel n c last (set t i (slot zeroed t c))
                      (omega (arith, s.child)) (omega (arith, s.child)) (omega (arith, s.inside))
                      (omega (arith, length-set t i (slot zeroed t c)))
                      (down_lem t n i c (orderby last) p (omega arith) o h s)
                      (λ q. rw s.child (
                        omega (
                          arith,
                          key-set orderby zeroed t i (slot zeroed t c) (omega arith),
                          ltb→lt (key t c) (orderby last) d,
                        ))))
              | inr d ↦
                  rw (e, d)
                    (stop_lem t n i last p (omega arith) o h
                      (λ j b q. omega (arith, s.least j b q, ltb→le (key t c) (orderby last) d)))
            ]
        | inr e ↦ rw e (
            stop_lem t n i last p (omega arith) o h
              (λ j b q. absurd (omega (arith, q, leb→lt (i * 2) n e))))
      ]

  pub length-sift_down :
      (fuel n i : ℕ) (last : A) (t : List A)
      → length (sift_down orderby zeroed fuel last n i t) ≡ length t
  unfolding sift_down
  length-sift_down zero n i last t = length-set t i last
  length-sift_down (suc fuel) n i last t =
      let c = smaller orderby zeroed n t i in
      elim (Bool-cases (leb (i * 2) n && ltb (key t c) (orderby last))) [
        | inl e ↦ rw e (
            length-sift_down fuel n c last (set t i (slot zeroed t c))
            ∙ length-set t i (slot zeroed t c))
        | inr e ↦ rw e (length-set t i last)
      ]

  pub total-sift_down :
      (w : A → ℕ) (fuel n i : ℕ) (last : A) (t : List A)
      → 1 ≤ i
      → i ≤ n
      → n < length t
      → total zeroed w (sift_down orderby zeroed fuel last n i t) n + w (slot zeroed t i)
        ≡ total zeroed w t n + w last
  unfolding sift_down
  total-sift_down w zero n i last t p m l = total-set zeroed w t i n last p m (omega arith)
  total-sift_down w (suc fuel) n i last t p m l =
      let c = smaller orderby zeroed n t i in
      elim (Bool-cases (leb (i * 2) n)) [
        | inl e ↦
            let s = smaller-IsSmaller t n i p (omega (arith, leb→le (i * 2) n e)) in
            elim (Bool-cases (ltb (key t c) (orderby last))) [
              | inl d ↦
                  rw (e, d)
                    (omega (
                      arith,
                      total-sift_down w fuel n c last (set t i (slot zeroed t c))
                          (omega (arith, s.child)) s.inside
                          (omega (arith, length-set t i (slot zeroed t c))),
                      total-set zeroed w t i n (slot zeroed t c) p m (omega arith),
                      ap w (
                          slot-set_other zeroed t i c (slot zeroed t c)
                            (λ q. omega (arith, s.child))),
                    ))
              | inr d ↦ rw (e, d) (total-set zeroed w t i n last p m (omega arith))
            ]
        | inr e ↦ rw e (total-set zeroed w t i n last p m (omega arith))
      ]
