-- ===== src/Pico/Heap/Slots.antt =====
-- What a write does to the slots, and the elements of slots 1 to `n` weighed: a heap keeps a multiset
-- of elements exactly where every weight of theirs adds up to the same.
use fd_picotcp.Prelude.{
  ℕ, zero, suc, ◌+◌, ◌-◌, ◌≤◌, ◌<◌, List, [], ◌∷◌, ◌++◌, ◌≡◌, ◌≢◌, refl, sym, ap, ◌∙◌, ◌⊎◌, inl,
  inr, arith, length, take, set, length-append,
}
use fd_picotcp.Pico.Heap.{slot, replicate, grow}

pub decide : (i j : ℕ) → (i ≡ j) ⊎ (i ≢ j)
decide zero zero = inl refl
decide zero (suc j) = inr (λ e. omega arith)
decide (suc i) zero = inr (λ e. omega arith)
decide (suc i) (suc j) = elim (decide i j) [
  | inl e ↦ inl (ap suc e)
  | inr q ↦ inr (λ e. q (omega arith))
]

module _ {A : Type 0} (zeroed : A) where
  pub slot-set : (t : List A) (i : ℕ) (v : A) → i < length t → slot zeroed (set t i v) i ≡ v
  slot-set [] i v h = absurd (omega arith)
  slot-set (x ∷ t) zero v h = refl
  slot-set (x ∷ t) (suc i) v h = slot-set t i v (omega arith)

  pub slot-set_other :
      (t : List A) (i j : ℕ) (v : A) → j ≢ i → slot zeroed (set t i v) j ≡ slot zeroed t j
  slot-set_other [] i j v h = refl
  slot-set_other (x ∷ t) zero zero v h = absurd (h refl)
  slot-set_other (x ∷ t) zero (suc j) v h = refl
  slot-set_other (x ∷ t) (suc i) zero v h = refl
  slot-set_other (x ∷ t) (suc i) (suc j) v h = slot-set_other t i j v (λ e. h (ap suc e))

  pub slot-append : (t u : List A) (j : ℕ) → j < length t → slot zeroed (t ++ u) j ≡ slot zeroed t j
  slot-append [] u j h = absurd (omega arith)
  slot-append (x ∷ t) u zero h = refl
  slot-append (x ∷ t) u (suc j) h = slot-append t u j (omega arith)

  pub slot-take : (n : ℕ) (t : List A) (j : ℕ) → j < n → slot zeroed (take n t) j ≡ slot zeroed t j
  slot-take zero t j h = absurd (omega arith)
  slot-take (suc n) [] j h = refl
  slot-take (suc n) (x ∷ t) zero h = refl
  slot-take (suc n) (x ∷ t) (suc j) h = slot-take n t j (omega arith)

  pub length-take_some : (n : ℕ) (t : List A) → n ≤ length t → length (take n t) ≡ n
  length-take_some zero t h = refl
  length-take_some (suc n) [] h = absurd (omega arith)
  length-take_some (suc n) (x ∷ t) h = ap suc (length-take_some n t (omega arith))

  pub length-replicate : (n : ℕ) (x : A) → length (replicate n x) ≡ n
  length-replicate zero x = refl
  length-replicate (suc n) x = ap suc (length-replicate n x)

  pub length-take_le : (n : ℕ) (t : List A) → length (take n t) ≤ n
  length-take_le zero t = omega arith
  length-take_le (suc n) [] = omega arith
  length-take_le (suc n) (x ∷ t) = omega (arith, length-take_le n t)

  pub length-grow : (t : List A) (n : ℕ) → length (grow zeroed t n) ≡ suc n
  unfolding grow
  length-grow t n = omega (
    arith,
    length-append (take n t) (replicate (suc n - length (take n t)) zeroed),
    length-replicate (suc n - length (take n t)) zeroed,
    length-take_le n t,
  )

  pub slot-grow :
      (t : List A) (n j : ℕ)
      → n ≤ length t
      → j < n
      → slot zeroed (grow zeroed t n) j ≡ slot zeroed t j
  unfolding grow
  slot-grow t n j h l =
      slot-append (take n t) _ j (omega (arith, length-take_some n t h)) ∙ slot-take n t j l

  unfoldable pub total : (A → ℕ) → List A → ℕ → ℕ
  total w t zero = 0
  total w t (suc n) = w (slot zeroed t (suc n)) + total w t n

  pub total-suc :
      (w : A → ℕ) (t : List A) (n : ℕ) → total w t (suc n) ≡ w (slot zeroed t (suc n)) + total w t n
  unfolding total
  total-suc w t n = refl

  pub total_same :
      (w : A → ℕ) (t u : List A) (n : ℕ)
      → ((j : ℕ) → 1 ≤ j → j ≤ n → slot zeroed t j ≡ slot zeroed u j)
      → total w t n ≡ total w u n
  unfolding total
  total_same w t u zero h = refl
  total_same w t u (suc n) h =
      rw (h (suc n) (omega arith) (omega arith), total_same w t u n (λ j a b. h j a (omega arith)))
        refl

  total-set_last :
      (w : A → ℕ) (t : List A) (n : ℕ) (v : A)
      → suc n < length t
      → total w (set t (suc n) v) (suc n) + w (slot zeroed t (suc n)) ≡ total w t (suc n) + w v
  total-set_last w t n v l = omega (
    arith,
    total-suc w t n,
    total-suc w (set t (suc n) v) n,
    total_same w (set t (suc n) v) t n (λ j c d. slot-set_other t (suc n) j v (λ q. omega arith)),
    ap w (slot-set t (suc n) v l),
  )

  pub total-set :
      (w : A → ℕ) (t : List A) (i n : ℕ) (v : A)
      → 1 ≤ i
      → i ≤ n
      → i < length t
      → total w (set t i v) n + w (slot zeroed t i) ≡ total w t n + w v
  total-set w t i zero v a b l = absurd (omega arith)
  total-set w t i (suc n) v a b l = elim (decide i (suc n)) [
    | inl e ↦ rw e (total-set_last w t n v (omega arith))
    | inr q ↦ omega (
      arith,
      total-set w t i n v a (omega (arith, q)) l,
      total-suc w t n,
      total-suc w (set t i v) n,
      ap w (slot-set_other t i (suc n) v (λ e. q (sym e))),
    )
  ]
