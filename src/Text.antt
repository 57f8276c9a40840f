-- ===== src/Text.antt =====
-- Python's `str` as a list of code points. The character classes are exact on Latin-1 (code points
-- below 256); a code point above it belongs to no class and is its own case folding.
pub mod Strip
pub mod Digits
pub mod Number
use Prim.Native.Char.{code}
use Prim.Native.String.{String}
use lore_x.Prelude.{
  ℕ, zero, suc, ◌+◌, ◌-◌, ◌*◌, ◌≡◌, refl, Bool, true, false, not, ◌&&◌, ◌||◌, Option, none, some,
  List, [], ◌∷◌, ◌++◌, map, ltb, leb, ◌==◌, if◌then◌else◌, length, all, Eq, ◌=?◌, nat_eq, list_eq,
}

abbrev pub Text : Type 0
Text = List ℕ

-- A literal.
abbrev pub codes : String → Text
codes String.[] = []
codes (String.◌∷◌ c s) = code c ∷ codes s

abbrev pub in_range : ℕ → ℕ → ℕ → Bool
in_range lo hi c = leb lo c && leb c hi

-- `str.isspace`, and `\s` of a pattern.
unfoldable pub is_space : ℕ → Bool
is_space c = in_range 9 13 c || in_range 28 32 c || (c == 133) || (c == 160)

-- `\d` of a pattern: a decimal digit.
unfoldable pub is_decimal : ℕ → Bool
is_decimal c = in_range 48 57 c

-- `str.isdigit` of one character: the superscripts ², ³ and ¹ count.
unfoldable pub is_digit_char : ℕ → Bool
unfolding is_decimal
is_digit_char c = is_decimal c || (c == 178) || (c == 179) || (c == 185)

abbrev pub is_empty {ℓ} : {A : Type ℓ} → List A → Bool
is_empty [] = true
is_empty (x ∷ xs) = false

-- `str.isdigit`
unfoldable pub is_digit : Text → Bool
unfolding is_digit_char
is_digit s = not (is_empty s) && all is_digit_char s

unfoldable pub lstrip : Text → Text
lstrip [] = []
lstrip (c ∷ s) = elim (is_space c) [ true ↦ lstrip s | false ↦ c ∷ s ]

unfoldable pub rstrip : Text → Text
rstrip [] = []
rstrip (c ∷ s) = let r = rstrip s in if is_space c && is_empty r then [] else c ∷ r

unfoldable pub strip : Text → Text
strip s = lstrip (rstrip s)

-- The lower case of an ASCII letter: what `re.IGNORECASE` makes of a pattern's letters.
unfoldable pub lower : ℕ → ℕ
lower c = if in_range 65 90 c then c + 32 else c

-- `str.casefold` of one character.
unfoldable pub fold_char : ℕ → Text
fold_char c =
    if in_range 65 90 c || (in_range 192 222 c && not (c == 215))
    then (c + 32) ∷ []
    else if c == 181
    then 956 ∷ []
    else if c == 223
    then 115 ∷ 115 ∷ []
    else c ∷ []

unfoldable pub casefold : Text → Text
casefold [] = []
casefold (c ∷ s) = fold_char c ++ casefold s

-- `s.startswith(p)`
unfoldable pub starts_with : Text → Text → Bool
starts_with [] s = true
starts_with (p ∷ ps) [] = false
starts_with (p ∷ ps) (c ∷ s) = (p == c) && starts_with ps s

-- `p in s`
unfoldable pub has_part : Text → Text → Bool
has_part p [] = starts_with p []
has_part p (c ∷ s) = starts_with p (c ∷ s) || has_part p s

-- `s.endswith(p)`
unfoldable pub ends_with : Text → Text → Bool
ends_with p [] = p =? []
ends_with p (c ∷ s) = (p =? (c ∷ s)) || ends_with p s

-- `s.partition(c)` for one character: `none` where it is not found.
unfoldable pub partition : ℕ → Text → Option (Text × Text)
partition c [] = none
partition c (d ∷ s) =
    let rest = partition c s in
    if d == c then some ([], s) else (elim rest [ none ↦ none | some (l, r) ↦ some (d ∷ l, r) ])

-- `s.rpartition(c)`: at the last place.
unfoldable pub rpartition : ℕ → Text → Option (Text × Text)
rpartition c [] = none
rpartition c (d ∷ s) = elim (rpartition c s) [
  | some (l, r) ↦ some (d ∷ l, r)
  | none ↦ if d == c then some ([], s) else none
]

-- `s[:-1]`
unfoldable pub drop_last : Text → Text
drop_last [] = []
drop_last (c ∷ []) = []
drop_last (c ∷ d ∷ s) = c ∷ drop_last (d ∷ s)

-- CPython refuses to convert longer digit strings.
abbrev pub max_str_digits : ℕ
max_str_digits = 4300

unfoldable pub decimal_value : ℕ → Text → Option ℕ
decimal_value acc [] = some acc
decimal_value acc (c ∷ s) =
    let rest = decimal_value (acc * 10 + (c - 48)) s in if is_decimal c then rest else none

-- `int(s)` of a text that holds digits in the sense of `isdigit` only; `none` is `ValueError`.
unfoldable pub int_of_digits : Text → Option ℕ
unfolding decimal_value
int_of_digits s = if is_empty s || ltb max_str_digits (length s) then none else decimal_value 0 s

-- The longest prefix whose characters satisfy the test, and what follows.
unfoldable pub span : (ℕ → Bool) → Text → Text × Text
span p [] = ([], [])
span p (c ∷ s) = let rest = span p s in if p c then (c ∷ rest.0, rest.1) else ([], c ∷ s)

-- What a test opens to run all of the above.
unfoldable pub text_functions : Unit {0}
unfolding is_space is_decimal is_digit_char is_digit lstrip rstrip strip lower fold_char casefold
    starts_with has_part ends_with partition rpartition drop_last decimal_value int_of_digits span
text_functions = tt
