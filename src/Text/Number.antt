-- ===== src/Text/Number.antt =====
-- `int(s)` and `int(s, 16)` of a text or of bytes, and `split()` at white space.
use lore_x.Prelude.{
  ℕ, ◌+◌, ◌-◌, ◌*◌, Bool, true, false, not, ◌&&◌, ◌||◌, Option, none, some, List, [], ◌∷◌, ltb,
  ◌==◌, if◌then◌else◌, length, keep, nat_eq, list_eq,
}
use lore_x.Prelude.Int.{ℤ, pos, sub_ℕ}
use lore_x.Text.{Text, codes, in_range, is_empty, is_decimal, strip, max_str_digits, starts_with}

-- The value of a digit in a base up to 16.
unfoldable pub digit_value : ℕ → Option ℕ
digit_value c =
    if in_range 48 57 c
    then some (c - 48)
    else if in_range 97 102 c
    then some (c - 87)
    else if in_range 65 70 c
    then some (c - 55)
    else none

-- Digits with single underscores between them; `fresh` holds where a digit has to come next.
unfoldable pub digits_in : ℕ → Bool → ℕ → Text → Option ℕ
unfolding digit_value
digits_in base fresh acc [] = if fresh then none else some acc
digits_in base fresh acc (c ∷ s) =
    let skip = digits_in base true acc s in
    elim (digit_value c) [
      | none ↦ if (c == b'_') && not fresh then skip else none
      | some v ↦
          let next = digits_in base false (acc * base + v) s in if ltb v base then next else none
    ]

-- The digits behind the sign, with an optional `0x` in base 16.
unfoldable pub unsigned_in : ℕ → Text → Option ℕ
unfolding digits_in
unsigned_in base (zero_digit ∷ x ∷ s) =
    if (base == 16) && (zero_digit == b'0') && ((x == b'x') || (x == b'X'))
    then digits_in base (not (starts_with (codes "_") s)) 0 s
    else digits_in base true 0 (zero_digit ∷ x ∷ s)
unsigned_in base s = digits_in base true 0 s

-- CPython's limit on the digits of a number in a base that is no power of two.
abbrev pub is_too_long : ℕ → Text → Bool
is_too_long base s = (base == 10) && ltb max_str_digits (length (keep is_decimal s))

abbrev negated : Option ℕ → Option ℤ
negated none = none
negated (some n) = some (sub_ℕ 0 n)

abbrev positive : Option ℕ → Option ℤ
positive none = none
positive (some n) = some (pos n)

unfoldable pub signed_in : ℕ → Text → Option ℤ
unfolding unsigned_in
signed_in base [] = none
signed_in base (c ∷ s) =
    if c == b'-'
    then negated (unsigned_in base s)
    else if c == b'+'
    then positive (unsigned_in base s)
    else positive (unsigned_in base (c ∷ s))

-- `int(s, base)`; `none` is `ValueError`.
unfoldable pub int_of : ℕ → Text → Option ℤ
unfolding signed_in
int_of base s = if is_too_long base (strip s) then none else signed_in base (strip s)

-- `s.split()`, by the runs of characters that the test does not hold of.
unfoldable pub split_runs : (ℕ → Bool) → Text → Text × List Text
split_runs p [] = ([], [])
split_runs p (c ∷ s) =
    let (w, ws) = split_runs p s in
    if p c then ([], (if is_empty w then ws else w ∷ ws)) else (c ∷ w, ws)

unfoldable pub words : (ℕ → Bool) → Text → List Text
unfolding split_runs
words p s = let (w, ws) = split_runs p s in if is_empty w then ws else w ∷ ws

-- The white space of `bytes`.
unfoldable pub is_ascii_space : ℕ → Bool
is_ascii_space c = in_range 9 13 c || (c == 32)
