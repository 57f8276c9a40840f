-- ===== src/Text/Strip.antt =====
-- Facts on `strip`, `partition` and the reading of numbers.
use lore_x.Prelude.{ℕ, ◌≡◌, refl, true, false, none, some, [], ◌∷◌, ◌++◌, ap, arith, ◌≢◌, All}
use lore_x.Text.{Text, is_space, rstrip, lstrip, strip, partition, rpartition, drop_last, ends_with}

-- A text that ends in a character which is no space is its own `rstrip`.
pub rstrip-append_nonspace :
    (s : Text) (c : ℕ) → is_space c ≡ false → rstrip (s ++ c ∷ []) ≡ s ++ c ∷ []
unfolding rstrip
rstrip-append_nonspace [] c h = ground arith
rstrip-append_nonspace (d ∷ []) c h = ground arith
rstrip-append_nonspace (d ∷ e ∷ s) c h = ground (arith, rstrip-append_nonspace (e ∷ s) c h)

pub drop_last-append : (s : Text) (c : ℕ) → drop_last (s ++ c ∷ []) ≡ s
unfolding drop_last
drop_last-append [] c = refl
drop_last-append (d ∷ []) c = refl
drop_last-append (d ∷ e ∷ s) c = ap (λ r. d ∷ r) (drop_last-append (e ∷ s) c)

-- The last place of `c` is found where the rest does not hold it.
pub rpartition-append :
    (c : ℕ) (l r : Text) → All (λ x. x ≢ c) r → rpartition c (l ++ c ∷ r) ≡ some (l, r)
unfolding rpartition
rpartition-append c [] [] h = ground arith
rpartition-append c [] (d ∷ r) h = ground (arith, rpartition-none c (d ∷ r) h)
  where
    rpartition-none : (c : ℕ) (r : Text) → All (λ x. x ≢ c) r → rpartition c r ≡ none
    rpartition-none c [] h = refl
    rpartition-none c (d ∷ r) h = ground (arith, rpartition-none c r h.1)
rpartition-append c (d ∷ l) r h = ground (arith, rpartition-append c l r h)

-- The first place of `c` is found where what stands before does not hold it.
pub partition-append :
    (c : ℕ) (l r : Text) → All (λ x. x ≢ c) l → partition c (l ++ c ∷ r) ≡ some (l, r)
unfolding partition
partition-append c [] r h = ground arith
partition-append c (d ∷ l) r h = ground (arith, partition-append c l r h.1)

pub rstrip-append_space : (s : Text) (c : ℕ) → is_space c ≡ true → rstrip (s ++ c ∷ []) ≡ rstrip s
unfolding rstrip
rstrip-append_space [] c h = ground arith
rstrip-append_space (d ∷ s) c h = ground (arith, rstrip-append_space s c h)

-- A text that holds no space is not changed by `strip`.
pub rstrip_no_space : (s : Text) → All (λ c. is_space c ≡ false) s → rstrip s ≡ s
unfolding rstrip
rstrip_no_space [] h = refl
rstrip_no_space (c ∷ s) h = ground (arith, rstrip_no_space s h.1)

lstrip_no_space : (s : Text) → All (λ c. is_space c ≡ false) s → lstrip s ≡ s
unfolding lstrip
lstrip_no_space [] h = refl
lstrip_no_space (c ∷ s) h = ground arith

pub strip_no_space : (s : Text) → All (λ c. is_space c ≡ false) s → strip s ≡ s
unfolding strip
strip_no_space s h = rw (rstrip_no_space s h) (lstrip_no_space s h)

pub ends_with-append : (s : Text) (c : ℕ) → ends_with (c ∷ []) (s ++ c ∷ []) ≡ true
unfolding ends_with
ends_with-append [] c = ground (arith)
ends_with-append (d ∷ s) c = ground (arith, ends_with-append s c)
