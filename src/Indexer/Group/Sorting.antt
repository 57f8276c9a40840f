-- ===== src/Indexer/Group/Sorting.antt =====
-- Sorting the parts of a group, and which part numbers a sorted run of them can hold.
use lore_x.Prelude.{
  ℕ, zero, suc, ◌+◌, ◌≤◌, ◌<◌, ◌≡◌, refl, ◌∙◌, false, ◌||◌, List, [], ◌∷◌, arith, length, All, leb,
  ◌==◌, nat_eq, inl, inr, Bool-cases,
}
use lore_x.Dict.{Dict, contains}
use lore_x.Domain.{ArticleHeader}
use lore_x.Indexer.Group.{insert_part, sort_parts}

abbrev pub keys {ℓ} : {V : Type ℓ} → Dict ℕ V → List ℕ
keys [] = []
keys ((k, v) ∷ d) = k ∷ keys d

-- The numbers `lo + 1`, …, `lo + n`.
abbrev pub counted : ℕ → ℕ → List ℕ
counted lo zero = []
counted lo (suc n) = suc lo ∷ counted (suc lo) n

-- Strictly ascending, from above `lo`.
abbrev pub Ascends : ℕ → List ℕ → Type 0
Ascends lo [] = Unit
Ascends lo (x ∷ xs) = (lo < x) × Ascends x xs

-- The keys are different from one another.
abbrev pub Distinct {ℓ} : {V : Type ℓ} → Dict ℕ V → Type 0
Distinct [] = Unit
Distinct ((k, v) ∷ d) = (contains k d ≡ false) × Distinct d

pub Ascends-length :
    (lo hi : ℕ) (xs : List ℕ) → lo ≤ hi → Ascends lo xs → All (λ x. x ≤ hi) xs → length xs + lo ≤ hi
Ascends-length lo hi [] l a h = omega arith
Ascends-length lo hi (x ∷ xs) l a h = omega (arith, Ascends-length x hi xs h.0 a.1 h.1)

-- So many numbers in so small a range leave no gap.
pub Ascends-counted :
    (lo hi : ℕ) (xs : List ℕ)
    → lo ≤ hi
    → Ascends lo xs
    → All (λ x. x ≤ hi) xs
    → hi ≤ length xs + lo
    → xs ≡ counted lo (length xs)
Ascends-counted lo hi [] l a h n = refl
Ascends-counted lo hi (x ∷ xs) l a h n =
    let first : x ≡ suc lo = omega (arith, Ascends-length x hi xs h.0 a.1 h.1) in
    ground (arith, first, Ascends-counted x hi xs h.0 a.1 h.1 (omega arith))

pub length-insert_part :
    (e : ℕ × ArticleHeader) (d : Dict ℕ ArticleHeader) → length (insert_part e d) ≡ suc (length d)
unfolding insert_part
length-insert_part e [] = refl
length-insert_part e (f ∷ d) = ground (arith, length-insert_part e d)

pub length-sort_parts : (d : Dict ℕ ArticleHeader) → length (sort_parts d) ≡ length d
unfolding sort_parts
length-sort_parts [] = refl
length-sort_parts (e ∷ d) = ground (arith, length-insert_part e (sort_parts d), length-sort_parts d)

contains-insert_part :
    (k : ℕ) (e : ℕ × ArticleHeader) (d : Dict ℕ ArticleHeader)
    → contains k (insert_part e d) ≡ ((e.0 == k) || contains k d)
unfolding insert_part contains
contains-insert_part k e [] = refl
contains-insert_part k e (f ∷ d) = ground (arith, contains-insert_part k e d)

pub contains-sort_parts :
    (k : ℕ) (d : Dict ℕ ArticleHeader) → contains k (sort_parts d) ≡ contains k d
unfolding sort_parts contains
contains-sort_parts k [] = refl
contains-sort_parts k (e ∷ d) =
    ground (arith, contains-insert_part k e (sort_parts d), contains-sort_parts k d)

All-insert_part :
    (P : ℕ → Type 0) (e : ℕ × ArticleHeader) (d : Dict ℕ ArticleHeader)
    → P e.0
    → All P (keys d)
    → All P (keys (insert_part e d))
unfolding insert_part
All-insert_part P e [] p h = (p, tt)
All-insert_part P e (f ∷ d) p h = elim (Bool-cases (leb e.0 f.0)) [
  | inl first ↦ rw first (p, h)
  | inr later ↦ rw later (h.0, All-insert_part P e d p h.1)
]

insert_part-Ascends :
    (lo : ℕ) (e : ℕ × ArticleHeader) (d : Dict ℕ ArticleHeader)
    → lo < e.0
    → contains e.0 d ≡ false
    → Ascends lo (keys d)
    → Ascends lo (keys (insert_part e d))
unfolding insert_part contains
insert_part-Ascends lo e [] l c a = (l, tt)
insert_part-Ascends lo e (f ∷ d) l c a = ground (arith, insert_part-Ascends f.0 e d)

pub sort_parts-Ascends :
    (d : Dict ℕ ArticleHeader)
    → Distinct d
    → All (λ k. 0 < k) (keys d)
    → Ascends 0 (keys (sort_parts d))
unfolding sort_parts
sort_parts-Ascends [] h p = tt
sort_parts-Ascends (e ∷ d) h p =
    insert_part-Ascends 0 e (sort_parts d) p.0 (contains-sort_parts e.0 d ∙ h.0)
      (sort_parts-Ascends d h.1 p.1)

pub All-sort_parts :
    (P : ℕ → Type 0) (d : Dict ℕ ArticleHeader) → All P (keys d) → All P (keys (sort_parts d))
unfolding sort_parts
All-sort_parts P [] h = tt
All-sort_parts P (e ∷ d) h = All-insert_part P e (sort_parts d) h.0 (All-sort_parts P d h.1)
