-- ===== src/Indexer/Subject/Roundtrip.antt =====
-- The bracketed form of a subject, `STEM [PART/TOTAL]`.
use lore_x.Prelude.{
  ℕ, ◌≤◌, ◌≡◌, refl, ◌≢◌, false, none, some, [], ◌∷◌, ◌++◌, append_assoc, arith, All, All-append,
  length,
}
use lore_x.Result.{ok}
use lore_x.Text.{
  Text, is_empty, rstrip, strip, int_of_digits, is_decimal, is_space, max_str_digits, decimal_value,
  rpartition,
}
use lore_x.Text.Strip.{
  rstrip-append_nonspace, rstrip-append_space, strip_no_space, ends_with-append, drop_last-append,
  rpartition-append, partition-append,
}
use lore_x.Text.Digits.{
  IsDecimal, IsDecimal-no_space, IsDecimal-ne, IsDecimal-is_digit, has_part-none,
}
use lore_x.Indexer.Subject.{
  split_part_suffix, split_bracket, checked_parts, to_int, yenc_search, numbered,
}

-- `STEM [LEFT/RIGHT]`
abbrev pub bracketed : Text → Text → Text → Text
bracketed stem l r = ((stem ++ b' ' ∷ []) ++ b'[' ∷ (l ++ b'/' ∷ r)) ++ b']' ∷ []

yenc_search-no_quote : (s : Text) → All (λ c. c ≢ b'"') s → yenc_search s ≡ none
unfolding yenc_search
yenc_search-no_quote [] h = refl
yenc_search-no_quote (c ∷ s) h = ground (arith, yenc_search-no_quote s h.1)

-- A decimal text that `int` reads, with its value.
pub record IsNumber (s : Text) (n : ℕ) : Type 0 where
  pub digits : IsDecimal s
  pub nonempty : is_empty s ≡ false
  pub short : length s ≤ max_str_digits
  pub value : decimal_value 0 s ≡ some n

to_int-IsNumber : (s : Text) (n : ℕ) → IsNumber s n → to_int s ≡ ok n
unfolding to_int int_of_digits
to_int-IsNumber s n h = ground (arith, h.nonempty, h.short, h.value)

module _ (stem l r : Text) (p t : ℕ) (hl : IsNumber l p) (hr : IsNumber r t) (rank : 1 ≤ p)
    (fits : p ≤ t) where
  checked : checked_parts stem l r ≡ ok (numbered stem p t)
  unfolding checked_parts
  checked = ground (arith, to_int-IsNumber l p hl, to_int-IsNumber r t hr)

  counter-ne : (k : ℕ) → is_decimal k ≡ false → b'/' ≢ k → All (λ c. c ≢ k) (l ++ b'/' ∷ r)
  counter-ne k e s =
      All-append (λ c. c ≢ k) l (b'/' ∷ r) (IsDecimal-ne k l e hl.digits)
        (s, IsDecimal-ne k r e hr.digits)

  bracket-parts :
      rpartition b'[' (bracketed stem l r) ≡ some (stem ++ b' ' ∷ [], (l ++ b'/' ∷ r) ++ b']' ∷ [])
  unfolding is_decimal
  bracket-parts = rw append_assoc (
      rpartition-append b'[' (stem ++ b' ' ∷ []) ((l ++ b'/' ∷ r) ++ b']' ∷ []) (
        All-append (λ c. c ≢ b'[') (l ++ b'/' ∷ r) (b']' ∷ []) (counter-ne b'[' refl (omega arith))
          (omega arith, tt)))

  stripped_number : (s : Text) (n : ℕ) → IsNumber s n → strip s ≡ s
  stripped_number s n h = strip_no_space s (IsDecimal-no_space s h.digits)

  split-bracketed :
      rstrip stem ≡ stem
      → (subject : Text) → split_bracket subject (bracketed stem l r) ≡ ok (numbered stem p t)
  unfolding split_bracket is_decimal is_space
  split-bracketed e subject = ground (
    arith,
    bracket-parts,
    checked,
    e,
    drop_last-append (l ++ b'/' ∷ r) b']',
    partition-append b'/' l r (IsDecimal-ne b'/' l refl hl.digits),
    rstrip-append_space stem b' ' refl,
    stripped_number l p hl,
    stripped_number r t hr,
    IsDecimal-is_digit l hl.digits hl.nonempty,
    IsDecimal-is_digit r hr.digits hr.nonempty,
    has_part-none b'/' r (IsDecimal-ne b'/' r refl hr.digits),
  )

  quote-free : All (λ c. c ≢ b'"') stem → All (λ c. c ≢ b'"') (bracketed stem l r)
  unfolding is_decimal
  quote-free h =
      All-append (λ c. c ≢ b'"') ((stem ++ b' ' ∷ []) ++ b'[' ∷ (l ++ b'/' ∷ r)) (b']' ∷ [])
        (All-append (λ c. c ≢ b'"') (stem ++ b' ' ∷ []) (b'[' ∷ (l ++ b'/' ∷ r))
          (All-append (λ c. c ≢ b'"') stem (b' ' ∷ []) h (omega arith, tt))
          (omega arith, counter-ne b'"' refl (omega arith)))
        (omega arith, tt)

  -- A stem that holds no quote and ends in no space, followed by ` [LEFT/RIGHT]` with decimal
  -- numbers LEFT and RIGHT of at most 4300 digits whose values are p and t, 1 ≤ p ≤ t, is parsed to
  -- the stem and the numbers p and t.
  pub split_part_suffix-bracketed :
      rstrip stem ≡ stem
      → All (λ c. c ≢ b'"') stem
      → split_part_suffix (bracketed stem l r) ≡ ok (numbered stem p t)
  unfolding split_part_suffix is_space
  split_part_suffix-bracketed e h = ground (
    arith,
    rstrip-append_nonspace ((stem ++ b' ' ∷ []) ++ b'[' ∷ (l ++ b'/' ∷ r)) b']' refl,
    yenc_search-no_quote (bracketed stem l r) (quote-free h),
    ends_with-append ((stem ++ b' ' ∷ []) ++ b'[' ∷ (l ++ b'/' ∷ r)) b']',
    split-bracketed e (bracketed stem l r),
  )
