-- ===== src/Pico/Checksum/Sums.antt =====
-- What the adder adds up: words of two bytes, and a last byte.
use fd_picotcp.Prelude.{
  ℕ, suc, ◌+◌, ◌-◌, ◌*◌, ◌%◌, ◌^◌, ◌<◌, ◌≤◌, List, [], ◌∷◌, ◌++◌, ◌≡◌, refl, ◌∙◌, arith, length,
}
use fd_picotcp.Pico.Checksum.{odd_byte, add_words, pico_checksum_adder}

abbrev pub IsBytes : List ℕ → Type 0
IsBytes [] = Unit {0}
IsBytes (b ∷ bytes) = (b < 256) × IsBytes bytes

-- The sum of the words, an odd byte counting as a word.
unfoldable pub words : List ℕ → ℕ
words [] = 0
words (a ∷ []) = a
words (a ∷ b ∷ bytes) = a + 256 * b + words bytes

-- The words alone.
evens : List ℕ → ℕ
evens [] = 0
evens (a ∷ []) = 0
evens (a ∷ b ∷ bytes) = a + 256 * b + evens bytes

last_byte : List ℕ → ℕ
last_byte [] = 0
last_byte (a ∷ []) = a
last_byte (a ∷ b ∷ bytes) = last_byte bytes

words_split : (bytes : List ℕ) → words bytes ≡ last_byte bytes + evens bytes
unfolding words last_byte evens
words_split [] = refl
words_split (a ∷ []) = omega arith
words_split (a ∷ b ∷ bytes) = omega (arith, words_split bytes)

add_words_lem :
    (sum : ℕ) (bytes : List ℕ)
    → sum + evens bytes < 2 ^ 32
    → add_words sum bytes ≡ sum + evens bytes
unfolding add_words evens
add_words_lem sum [] l = omega arith
add_words_lem sum (a ∷ []) l = omega arith
add_words_lem sum (a ∷ b ∷ bytes) l =
    let small : (sum + (a + 256 * b)) % 2 ^ 32 ≡ sum + (a + 256 * b) = omega arith in
    rw small (omega (arith, add_words_lem (sum + (a + 256 * b)) bytes (omega arith)))

odd_byte_two : (sum a b : ℕ) (bytes : List ℕ) → odd_byte sum (a ∷ b ∷ bytes) ≡ odd_byte sum bytes
unfolding odd_byte
odd_byte_two sum a b [] = refl
odd_byte_two sum a b (c ∷ bytes) =
    let parity : suc (suc (suc (length bytes))) % 2 ≡ suc (length bytes) % 2 = omega arith in
    let after : suc (suc (suc (length bytes))) - 1 ≡ suc (suc (length bytes)) = omega arith in
    let before : suc (length bytes) - 1 ≡ length bytes = omega arith in
    rw (parity, after, before) refl

odd_byte_lem :
    (sum : ℕ) (bytes : List ℕ)
    → sum + last_byte bytes < 2 ^ 32
    → odd_byte sum bytes ≡ sum + last_byte bytes
unfolding last_byte odd_byte
odd_byte_lem sum [] l = omega arith
odd_byte_lem sum (a ∷ []) l = omega arith
odd_byte_lem sum (a ∷ b ∷ bytes) l = odd_byte_two sum a b bytes ∙ odd_byte_lem sum bytes l

-- The adder adds, where the sum stays below 2^32.
pub adder_lem :
    (sum : ℕ) (bytes : List ℕ)
    → sum + words bytes < 2 ^ 32
    → pico_checksum_adder sum bytes ≡ sum + words bytes
unfolding pico_checksum_adder
adder_lem sum bytes l =
    let odd = odd_byte_lem sum bytes (omega (arith, words_split bytes)) in
    rw odd (
      omega (
        arith,
        words_split bytes,
        add_words_lem (sum + last_byte bytes) bytes (omega (arith, words_split bytes)),
      ))

pub words_bound : (bytes : List ℕ) → IsBytes bytes → 2 * words bytes ≤ 65535 * length bytes
unfolding words
words_bound [] h = omega arith
words_bound (a ∷ []) h = omega (arith, h.0)
words_bound (a ∷ b ∷ bytes) h = omega (arith, h.0, h.1.0, words_bound bytes h.1.1)

pub words-append :
    (pre bytes : List ℕ) → length pre % 2 ≡ 0 → words (pre ++ bytes) ≡ words pre + words bytes
unfolding words
words-append [] bytes e = omega arith
words-append (a ∷ []) bytes e = absurd (omega (arith, e))
words-append (a ∷ b ∷ pre) bytes e = omega (arith, words-append pre bytes (omega (arith, e)))
