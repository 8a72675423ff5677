-- ===== src/Pico/Heap/Open.antt =====
-- Slots in heap order, and with one slot open.
use fd_picotcp.Prelude.{ℕ, ◌/◌, ◌≤◌, ◌<◌, List, ◌≡◌, ◌≢◌, ap, inl, inr, arith, length, set}
use fd_picotcp.Pico.Heap.{slot}
use fd_picotcp.Pico.Heap.Slots.{decide, slot-set, slot-set_other}

pub half_other : (i : ℕ) → 1 ≤ i → i / 2 ≢ i
half_other i p e = omega arith

module _ {A : Type 0} (orderby : A → ℕ) (zeroed : A) where
  -- Up to slot `n`, no parent is greater than its child.
  abbrev pub IsOrdered : List A → ℕ → Type 0
  IsOrdered t n =
      (j : ℕ) → 2 ≤ j → j ≤ n → orderby (slot zeroed t (j / 2)) ≤ orderby (slot zeroed t j)

  -- Slot `i` is open for an element of key `k`: apart from it the slots are in order, its parent is
  -- not greater than its children, and neither is `k`.
  pub record IsOpen (t : List A) (n i k : ℕ) : Type 0 where
    pub apart :
        (j : ℕ)
        → 2 ≤ j
        → j ≤ n
        → j ≢ i
        → j / 2 ≢ i
        → orderby (slot zeroed t (j / 2)) ≤ orderby (slot zeroed t j)
    pub over :
        (j : ℕ)
        → 2 ≤ j
        → j ≤ n
        → j / 2 ≡ i
        → 2 ≤ i
        → orderby (slot zeroed t (i / 2)) ≤ orderby (slot zeroed t j)
    pub under : (j : ℕ) → 2 ≤ j → j ≤ n → j / 2 ≡ i → k ≤ orderby (slot zeroed t j)

  pub key-set :
      (t : List A) (i : ℕ) (v : A) → i < length t → orderby (slot zeroed (set t i v) i) ≡ orderby v
  key-set t i v l = ap orderby (slot-set zeroed t i v l)

  pub key-set_other :
      (t : List A) (i j : ℕ) (v : A)
      → j ≢ i
      → orderby (slot zeroed (set t i v) j) ≡ orderby (slot zeroed t j)
  key-set_other t i j v q = ap orderby (slot-set_other zeroed t i j v q)

  pub close_lem :
      (t : List A) (n i : ℕ) (el : A)
      → 1 ≤ i
      → i < length t
      → IsOpen t n i (orderby el)
      → (2 ≤ i → orderby (slot zeroed t (i / 2)) ≤ orderby el)
      → IsOrdered (set t i el) n
  close_lem t n i el p l o h j a b = elim (decide j i) [
    | inl e ↦ rw e (
        omega
          (arith, key-set t i el l, key-set_other t i (i / 2) el (half_other i p), h (omega arith)))
    | inr q ↦ elim (decide (j / 2) i) [
      | inl e ↦ rw e (omega (arith, key-set t i el l, key-set_other t i j el q, o.under j a b e))
      | inr r ↦
          omega (arith, key-set_other t i j el q, key-set_other t i (j / 2) el r, o.apart j a b q r)
    ]
  ]
