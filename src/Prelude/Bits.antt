-- ===== src/Prelude/Bits.antt =====
-- What the proofs need of `bit_and` and `bit_xor` at variables.
use Prim.Native.Nat.{ℕ, zero, suc, ◌/◌, ◌≤◌, min, bit_and, digits, bit_and-bitwise}
use native.Mathlib.Omega.{arith}

-- The digits of a conjunction, taken `n` at most, never make up more than the mask.
digits-le-mask : (n a b : ℕ) → digits (λ d. zero) min n a b ≤ b
digits-le-mask zero a b = omega arith
digits-le-mask (suc n) zero b = omega arith
digits-le-mask (suc n) (suc a) b = omega (arith, digits-le-mask n (suc a / 2) (b / 2))

pub bit_and-le : (a b : ℕ) → bit_and a b ≤ b
bit_and-le a b = omega (arith, bit_and-bitwise a b, digits-le-mask a a b)
