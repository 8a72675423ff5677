-- ===== src/Pico/Sequence.antt =====
-- stack/pico_stack.c: sequence numbers of 32 bits, which wrap around.
use fd_picotcp.Prelude.{
  ℕ, zero, suc, ◌+◌, ◌-◌, ◌≤◌, ◌^◌, ◌<◌, ◌≢◌, ℤ, pos, negsuc, ◌≡◌, refl, sym, ap, ◌∙◌, false, leb,
  leb→le, leb→lt, ==_iff, inl, inr, arith, ltb, ltb→lt, ltb→le, ◌==◌, if◌then◌else◌, Bool-cases,
}
use fd_picotcp.Pico.Words.{u32}

-- The conversion to `int32_t`.
abbrev pub i32 : ℕ → ℤ
i32 n = if ltb n (2 ^ 31) then pos n else negsuc (2 ^ 32 - n - 1)

-- Negation of an `int32_t`, which the least one stays under.
abbrev pub neg_i32 : ℤ → ℤ
neg_i32 (pos zero) = pos 0
neg_i32 (pos (suc n)) = negsuc n
neg_i32 (negsuc n) = if n == 2 ^ 31 - 1 then negsuc n else pos (suc n)

unfoldable pub pico_seq_compare : ℕ → ℕ → ℤ
pico_seq_compare a b =
    if ltb b a
    then (if ltb (2 ^ 31 - 1) (a - b) then neg_i32 (i32 (u32 (2 ^ 32 + b - a))) else i32 (a - b))
    else (if ltb a b
        then (if ltb (2 ^ 31 - 1) (b - a)
            then i32 (u32 (2 ^ 32 + a - b))
            else neg_i32 (i32 (b - a)))
        else pos 0)

i32_small : (n : ℕ) → n < 2 ^ 31 → i32 n ≡ pos n
i32_small n l = elim (Bool-cases (ltb n (2 ^ 31))) [
  | inl e ↦ rw e refl
  | inr e ↦ absurd (omega (arith, ltb→le n (2 ^ 31) e))
]

i32_big : (n : ℕ) → 2 ^ 31 ≤ n → i32 n ≡ negsuc (2 ^ 32 - n - 1)
i32_big n l = elim (Bool-cases (ltb n (2 ^ 31))) [
  | inl e ↦ absurd (omega (arith, ltb→lt n (2 ^ 31) e))
  | inr e ↦ rw e refl
]

neg_i32_pos : (n : ℕ) → 1 ≤ n → neg_i32 (pos n) ≡ negsuc (n - 1)
neg_i32_pos zero p = absurd (omega arith)
neg_i32_pos (suc n) p = ap negsuc (omega arith)

half_lem : (n : ℕ) → (2 ^ 32 - n - 1 == 2 ^ 31 - 1) ≡ false → 2 ^ 31 ≤ n → n < 2 ^ 32 → 2 ^ 31 < n
half_lem n e b l = elim (Bool-cases (leb n (2 ^ 31))) [
  | inl d ↦
      absurd (cc (e, (==_iff (2 ^ 32 - n - 1) (2 ^ 31 - 1)).1 (omega (arith, leb→le n (2 ^ 31) d))))
  | inr d ↦ leb→lt n (2 ^ 31) d
]

big_lem : (n : ℕ) → 2 ^ 31 ≤ n → n < 2 ^ 32 → neg_i32 (negsuc (2 ^ 32 - n - 1)) ≡ i32 (2 ^ 32 - n)
big_lem n b l = elim (Bool-cases (2 ^ 32 - n - 1 == 2 ^ 31 - 1)) [
  | inl e ↦
      let m = (==_iff (2 ^ 32 - n - 1) (2 ^ 31 - 1)).0 e in
      rw (e, i32_big (2 ^ 32 - n) (omega (arith, m))) (ap negsuc (omega (arith, m)))
  | inr e ↦
      rw (e, i32_small (2 ^ 32 - n) (omega (arith, b, half_lem n e b l)))
        (ap pos (omega (arith, b, l)))
]

negate_lem : (n : ℕ) → 1 ≤ n → n < 2 ^ 32 → neg_i32 (i32 n) ≡ i32 (2 ^ 32 - n)
negate_lem n p l = elim (Bool-cases (ltb n (2 ^ 31))) [
  | inl e ↦
      let s = ltb→lt n (2 ^ 31) e in
      rw (i32_small n s, i32_big (2 ^ 32 - n) (omega arith), neg_i32_pos n p)
        (ap negsuc (omega arith))
  | inr e ↦ let b = ltb→le n (2 ^ 31) e in rw (i32_big n b) (big_lem n b l)
]

same_lem : (a b : ℕ) → a ≤ b → b ≤ a → a < 2 ^ 32 → u32 (2 ^ 32 + a - b) ≡ 0
same_lem a b p q l = omega arith

-- The comparison of two sequence numbers is their difference modulo 2^32, as a signed number.
pub seq_compare_lem :
    (a b : ℕ) → a < 2 ^ 32 → b < 2 ^ 32 → pico_seq_compare a b ≡ i32 (u32 (2 ^ 32 + a - b))
unfolding pico_seq_compare
seq_compare_lem a b k l = elim (Bool-cases (ltb b a)) [
  | inl e ↦
      let g = ltb→lt b a e in
      elim (Bool-cases (ltb (2 ^ 31 - 1) (a - b))) [
        | inl d ↦
            rw (e, d)
              (negate_lem (u32 (2 ^ 32 + b - a)) (omega arith) (omega arith) ∙ ap i32 (omega arith))
        | inr d ↦ rw (e, d) (ap i32 (omega arith))
      ]
  | inr e ↦ elim (Bool-cases (ltb a b)) [
    | inl g ↦
        let h = ltb→lt a b g in
        elim (Bool-cases (ltb (2 ^ 31 - 1) (b - a))) [
          | inl d ↦ rw (e, g, d) refl
          | inr d ↦
              rw (e, g, d) (negate_lem (b - a) (omega arith) (omega arith) ∙ ap i32 (omega arith))
        ]
    | inr g ↦ rw (e, g) (sym (ap i32 (same_lem a b (ltb→le b a e) (ltb→le a b g) k)))
  ]
]

-- Two numbers compare the other way round, unless they are 2^31 apart.
pub seq_compare-antisym :
    (a b : ℕ)
    → a < 2 ^ 32
    → b < 2 ^ 32
    → u32 (2 ^ 32 + a - b) ≢ 2 ^ 31
    → a ≢ b
    → pico_seq_compare b a ≡ neg_i32 (pico_seq_compare a b)
seq_compare-antisym a b k l h q =
    rw (seq_compare_lem a b k l, seq_compare_lem b a l k)
      (ap i32 (omega arith) ∙ sym (negate_lem (u32 (2 ^ 32 + a - b)) (omega arith) (omega arith)))
