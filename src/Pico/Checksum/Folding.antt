-- ===== src/Pico/Checksum/Folding.antt =====
-- Adding the carries leaves 16 bits, and the remainder modulo 65535.
use fd_picotcp.Prelude.{
  ℕ, zero, suc, ◌+◌, ◌-◌, ◌*◌, ◌/◌, ◌%◌, ◌^◌, ◌<◌, ◌≤◌, ◌≡◌, refl, ap, ◌∙◌, inl, inr, arith, ◌==◌,
  ==_iff, Bool-cases,
}
use fd_picotcp.Pico.Words.{short_be}
use fd_picotcp.Pico.Checksum.{carry, complement, pico_checksum_finalize}

-- `r` is what is left of `s`.
record Folds (s r : ℕ) : Type 0 where
  times : ℕ
  split : s ≡ 65535 * times + r
  some_left : 1 ≤ s → 1 ≤ r

step-Folds : (s r : ℕ) → Folds (s % 2 ^ 16 + s / 2 ^ 16) r → Folds s r
step-Folds s r f = record {
  times = f.times + s / 2 ^ 16;
  split = omega (arith, f.split);
  some_left = λ l. f.some_left (omega arith);
}

carry-Folds : (fuel s : ℕ) → Folds s (carry fuel s)
unfolding carry
carry-Folds zero s = record { times = 0; split = omega arith; some_left = λ l. l }
carry-Folds (suc fuel) s = elim (Bool-cases (s / 2 ^ 16 == 0)) [
  | inl e ↦ rw e (record { times = 0; split = omega arith; some_left = λ l. l })
  | inr e ↦ rw e (step-Folds s _ (carry-Folds fuel (s % 2 ^ 16 + s / 2 ^ 16)))
]

carry_small : (fuel s : ℕ) → s < 2 ^ 16 → carry fuel s ≡ s
unfolding carry
carry_small zero s l = refl
carry_small (suc fuel) s l = elim (Bool-cases (s / 2 ^ 16 == 0)) [
  | inl e ↦ rw e refl
  | inr e ↦ rw e (ap (carry fuel) (omega (arith, l)) ∙ carry_small fuel s l)
]

carry_bound_two : (s : ℕ) → s ≤ 131070 → carry 2 s < 2 ^ 16
unfolding carry
carry_bound_two s l = elim (Bool-cases (s / 2 ^ 16 == 0)) [
  | inl e ↦ rw e (omega (arith, (==_iff (s / 2 ^ 16) 0).0 e))
  | inr e ↦ rw (e, carry_small 1 (s % 2 ^ 16 + s / 2 ^ 16) (omega (arith, l))) (omega (arith, l))
]

pub carry_bound : (s : ℕ) → s < 2 ^ 32 → carry 3 s < 2 ^ 16
unfolding carry
carry_bound s l = elim (Bool-cases (s / 2 ^ 16 == 0)) [
  | inl e ↦ rw e (omega (arith, (==_iff (s / 2 ^ 16) 0).0 e))
  | inr e ↦ rw e (carry_bound_two (s % 2 ^ 16 + s / 2 ^ 16) (omega (arith, l)))
]

-- A sum that is a multiple of 65535, but not 0, leaves 65535.
carry_full : (s m : ℕ) → s < 2 ^ 32 → 1 ≤ s → s ≡ 65535 * m → carry 3 s ≡ 65535
carry_full s m l p e =
    let f = carry-Folds 3 s in omega (arith, carry_bound s l, f.split, f.some_left p)

zeroed : short_be (complement 65535) ≡ 0
unfolding short_be
zeroed = refl

-- The complement of what is left makes the sum full.
pub filled : (s : ℕ) → s + 65535 < 2 ^ 32 → pico_checksum_finalize (s + complement (carry 3 s)) ≡ 0
unfolding pico_checksum_finalize
filled s l =
    let f = carry-Folds 3 s in
    let b = carry_bound s (omega arith) in
    let c : complement (carry 3 s) ≡ 65535 - carry 3 s = omega (arith, b) in
    rw
      (carry_full (s + complement (carry 3 s)) (suc f.times) (omega (arith, b, c))
        (omega (arith, b, c, f.some_left)) (omega (arith, b, c, f.split)))
      zeroed
