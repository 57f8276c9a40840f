-- ===== src/Text/Digits.antt =====
-- Texts of decimal digits.
use lore_x.Prelude.{ℕ, ◌≡◌, refl, true, false, [], ◌∷◌, arith, ◌≢◌, All, all}
use lore_x.Text.{
  Text, is_space, is_decimal, is_digit, is_digit_char, is_empty, has_part, starts_with,
}

abbrev pub IsDecimal : Text → Type 0
IsDecimal s = All (λ c. is_decimal c ≡ true) s

pub IsDecimal-no_space : (s : Text) → IsDecimal s → All (λ c. is_space c ≡ false) s
unfolding is_space is_decimal
IsDecimal-no_space [] h = tt
IsDecimal-no_space (c ∷ s) h = (ground arith, IsDecimal-no_space s h.1)

-- No digit is one of the characters around the numbers.
pub IsDecimal-ne : (k : ℕ) (s : Text) → is_decimal k ≡ false → IsDecimal s → All (λ c. c ≢ k) s
IsDecimal-ne k [] e h = tt
IsDecimal-ne k (c ∷ s) e h = (λ same. ground arith, IsDecimal-ne k s e h.1)

all_digits : (s : Text) → IsDecimal s → all is_digit_char s ≡ true
unfolding is_digit_char
all_digits [] h = refl
all_digits (c ∷ s) h = ground (arith, all_digits s h.1)

pub IsDecimal-is_digit : (s : Text) → IsDecimal s → is_empty s ≡ false → is_digit s ≡ true
unfolding is_digit
IsDecimal-is_digit s h e = ground (arith, all_digits s h)

pub has_part-none : (k : ℕ) (s : Text) → All (λ c. c ≢ k) s → has_part (k ∷ []) s ≡ false
unfolding has_part starts_with
has_part-none k [] h = refl
has_part-none k (c ∷ s) h = ground (arith, has_part-none k s h.1)
