-- ===== src/Ppp/Framing/Escape.antt =====
-- Escaping in modules/pico_dev_ppp.c: which bytes are escaped, and the form of an escaped frame.
use fd_picotcp.Prelude.{
  ℕ, bit_xor, true, false, List, [], ◌∷◌, ◌++◌, ◌≡◌, ◌⊎◌, inl, inr, refl, ap, arith, if◌then◌else◌,
  Bool-cases, ◌≢◌,
}
use fd_picotcp.Ppp.Wire.{needs_escape, escape_tail, esc_char_count}

pub needs_escape_values : (b : ℕ) → needs_escape b ≡ true → (b ≡ 0x7d) ⊎ (b ≡ 0x7e)
unfolding needs_escape
needs_escape_values b h = ground arith

pub needs_escape_other : (b : ℕ) → needs_escape b ≡ false → (b ≢ 0x7d) × (b ≢ 0x7e)
unfolding needs_escape
needs_escape_other b h = ground arith

pub escape_tail-snoc :
    (b : ℕ) (bs : List ℕ) (e : ℕ)
    → escape_tail (b ∷ (bs ++ e ∷ [])) ≡ (
        if needs_escape b
        then 0x7d ∷ bit_xor b 0x20 ∷ escape_tail (bs ++ e ∷ [])
        else b ∷ escape_tail (bs ++ e ∷ []))
unfolding escape_tail
escape_tail-snoc b [] e = refl
escape_tail-snoc b (c ∷ bs) e = refl

pub escape_tail_last : (e : ℕ) → escape_tail (e ∷ []) ≡ e ∷ []
unfolding escape_tail
escape_tail_last e = refl

-- With nothing to escape the copy would be the frame itself.
pub escape_tail_none : (bs : List ℕ) → esc_char_count bs ≡ 0 → escape_tail bs ≡ bs
unfolding escape_tail esc_char_count
escape_tail_none [] h = refl
escape_tail_none (b ∷ []) h = refl
escape_tail_none (b ∷ c ∷ bs) h = elim (Bool-cases (needs_escape b)) [
  | inl e ↦ absurd (omega (arith, rw e at h))
  | inr e ↦ rw e (ap (◌∷◌ b) (escape_tail_none (c ∷ bs) (omega (arith, rw e at h))))
]
