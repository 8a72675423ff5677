-- ===== src/Ppp/Framing/Buffer.antt =====
-- A run of bytes stored one after the other into the receive buffer of modules/pico_dev_ppp.c.
use fd_picotcp.Prelude.{
  ℕ, zero, suc, ◌<◌, ◌≤◌, List, [], ◌∷◌, ◌++◌, ◌≡◌, refl, ap, arith, length, set, drop,
}

module _ {ℓ} {A : Type ℓ} where
  -- `bs` from index `i` on.
  unfoldable pub write_all : List A → ℕ → List A → List A
  write_all m i [] = m
  write_all m i (b ∷ bs) = write_all (set m i b) (suc i) bs

  pub set-set : (m : List A) (i : ℕ) (a b : A) → set (set m i a) i b ≡ set m i b
  set-set [] i a b = refl
  set-set (x ∷ m) zero a b = refl
  set-set (x ∷ m) (suc i) a b = ap (◌∷◌ x) (set-set m i a b)

  pub set-set-set : (m : List A) (i : ℕ) (a b c : A) → set (set (set m i a) i b) i c ≡ set m i c
  set-set-set m i a b c = rw (set-set m i a b) (set-set m i b c)

  write_all-cons :
      (x : A) (m : List A) (i : ℕ) (bs : List A)
      → write_all (x ∷ m) (suc i) bs ≡ x ∷ write_all m i bs
  unfolding write_all
  write_all-cons x m i [] = refl
  write_all-cons x m i (b ∷ bs) = write_all-cons x (set m i b) (suc i) bs

  -- From the start, they are followed by what stood there before.
  pub write_all-start :
      (m bs : List A) → length bs ≤ length m → write_all m 0 bs ≡ bs ++ drop (length bs) m
  unfolding write_all
  write_all-start m [] h = refl
  write_all-start [] (b ∷ bs) h = absurd (omega arith)
  write_all-start (x ∷ m) (b ∷ bs) h =
      rw (write_all-cons b m 0 bs) (ap (◌∷◌ b) (write_all-start m bs (omega arith)))

  pub drop-cons : (m : List A) (i : ℕ) → i < length m → (y : A) × (drop i m ≡ y ∷ drop (suc i) m)
  drop-cons [] i h = absurd (omega arith)
  drop-cons (x ∷ m) zero h = (x, refl)
  drop-cons (x ∷ m) (suc i) h = drop-cons m i (omega arith)

  pub length-set : (m : List A) (i : ℕ) (v : A) → length (set m i v) ≡ length m
  length-set [] i v = refl
  length-set (x ∷ m) zero v = refl
  length-set (x ∷ m) (suc i) v = ap suc (length-set m i v)

  pub set-append :
      (xs : List A) (y : A) (ys : List A) (v : A) → set (xs ++ y ∷ ys) (length xs) v ≡ xs ++ v ∷ ys
  set-append [] y ys v = refl
  set-append (x ∷ xs) y ys v = ap (◌∷◌ x) (set-append xs y ys v)
