-- ===== src/Indexer/Group/Complete.antt =====
-- What a complete group holds.
use lore_x.Prelude.{
  ℕ, suc, ◌-◌, ◌≤◌, ◌<◌, ◌≡◌, ◌≢◌, refl, ap, ◌∙◌, true, false, ◌||◌, Option, none, some, List, [],
  ◌∷◌, map, arith, length, All, leb, if◌then◌else◌, nat_eq, ◌=?◌, inl, inr, Bool-cases, any,
  list_eq, =?-ne,
}
use lore_x.Text.{Text, is_empty}
use lore_x.Dict.{Dict, contains, put}
use lore_x.Domain.{ArticleHeader}
use lore_x.Indexer.Group.{
  PendingGroup, new_group, or_total, add_part, add, is_complete, sort_parts, to_candidate,
}
use lore_x.Indexer.Group.Sorting.{
  keys, counted, Ascends, Distinct, Ascends-counted, Ascends-length, length-sort_parts,
  sort_parts-Ascends, All-sort_parts,
}

-- A group that has grown by `add` from an empty one, where every counter that was read names the
-- same total, with part numbers between 1 and it.
pub data Gathered (t : ℕ) : PendingGroup → Type 0 where
  started : (stem : Text) → Gathered t (new_group stem (some t))
  untold : (stem : Text) → Gathered t (new_group stem none)
  part :
      {g : PendingGroup} (h : ArticleHeader) (p : ℕ)
      → 1 ≤ p
      → p ≤ t
      → Gathered t g
      → Gathered t (add h (some p) (some t) g)
  loose : {g : PendingGroup} (h : ArticleHeader) → Gathered t g → Gathered t (add h none none g)

abbrev InRange : ℕ → ℕ → Type 0
InRange t k = (1 ≤ k) × (k ≤ t)

abbrev TotalIs : ℕ → Option ℕ → Type 0
TotalIs t none = Unit
TotalIs t (some u) = u ≡ t

record IsGroup (t : ℕ) (g : PendingGroup) : Type 0 where
  distinct : Distinct g.numbered_parts
  ranged : All (InRange t) (keys g.numbered_parts)
  total : TotalIs t g.total_parts

contains-put :
    (k j : ℕ) (h : ArticleHeader) (d : Dict ℕ ArticleHeader)
    → contains j (put k h d) ≡ ((k =? j) || contains j d)
unfolding contains put
contains-put k j h [] = refl
contains-put k j h ((i, w) ∷ d) = ground (arith, contains-put k j h d)

put-Distinct :
    (k : ℕ) (h : ArticleHeader) (d : Dict ℕ ArticleHeader) → Distinct d → Distinct (put k h d)
unfolding put contains
put-Distinct k h [] x = (refl, tt)
put-Distinct k h ((i, w) ∷ d) x = ground (arith, put-Distinct k h d x.1, contains-put k i h d)

put-keys :
    (P : ℕ → Type 0) (k : ℕ) (h : ArticleHeader) (d : Dict ℕ ArticleHeader)
    → P k
    → All P (keys d)
    → All P (keys (put k h d))
unfolding put
put-keys P k h [] p x = (p, tt)
put-keys P k h ((i, w) ∷ d) p x = elim (Bool-cases (i =? k)) [
  | inl same ↦ rw same x
  | inr other ↦ rw other (x.0, put-keys P k h d p x.1)
]

add_part-Distinct :
    (p : ℕ) (h : ArticleHeader) (d : Dict ℕ ArticleHeader) → Distinct d → Distinct (add_part p h d)
unfolding add_part
add_part-Distinct p h d x = elim (Bool-cases (contains p d)) [
  | inl old ↦ rw old x
  | inr new ↦ rw new (put-Distinct p h d x)
]

add_part-keys :
    (P : ℕ → Type 0) (k : ℕ) (h : ArticleHeader) (d : Dict ℕ ArticleHeader)
    → P k
    → All P (keys d)
    → All P (keys (add_part k h d))
unfolding add_part
add_part-keys P k h d p x = elim (Bool-cases (contains k d)) [
  | inl old ↦ rw old x
  | inr new ↦ rw new (put-keys P k h d p x)
]

or_total-TotalIs : (t : ℕ) (o : Option ℕ) → TotalIs t o → TotalIs t (or_total o t)
or_total-TotalIs t none h = refl
or_total-TotalIs t (some u) h = h

add-part :
    (t p : ℕ) (h : ArticleHeader) (g : PendingGroup)
    → InRange t p
    → IsGroup t g
    → IsGroup t (add h (some p) (some t) g)
unfolding add
add-part t p h g r i = elim (Bool-cases (any (λ m. m =? h.message_id) g.seen_message_ids)) [
  | inl seen ↦ rw seen i
  | inr fresh ↦ rw fresh (record {
    distinct = add_part-Distinct p h g.numbered_parts i.distinct;
    ranged = add_part-keys (InRange t) p h g.numbered_parts r i.ranged;
    total = or_total-TotalIs t g.total_parts i.total;
  })
]

add-loose :
    (t : ℕ) (h : ArticleHeader) (g : PendingGroup) → IsGroup t g → IsGroup t (add h none none g)
unfolding add
add-loose t h g i = elim (Bool-cases (any (λ m. m =? h.message_id) g.seen_message_ids)) [
  | inl seen ↦ rw seen i
  | inr fresh ↦ rw fresh (record { distinct = i.distinct; ranged = i.ranged; total = i.total })
]

Gathered-IsGroup : {t : ℕ} {g : PendingGroup} → Gathered t g → IsGroup t g
Gathered-IsGroup (started stem) = record { distinct = tt; ranged = tt; total = refl }
Gathered-IsGroup (untold stem) = record { distinct = tt; ranged = tt; total = tt }
Gathered-IsGroup {t} (part {g} h p lo hi r) = add-part t p h g (lo, hi) (Gathered-IsGroup r)
Gathered-IsGroup {t} (loose {g} h r) = add-loose t h g (Gathered-IsGroup r)

positive : (t : ℕ) (xs : List ℕ) → All (InRange t) xs → All (λ k. 0 < k) xs × All (λ k. k ≤ t) xs
positive t [] h = (tt, tt)
positive t (x ∷ xs) h = let r = positive t xs h.1 in ((h.0.0, r.0), (h.0.1, r.1))

length-keys : (d : Dict ℕ ArticleHeader) → length (keys d) ≡ length d
length-keys [] = refl
length-keys (e ∷ d) = ap suc (length-keys d)

reached :
    (t n : ℕ) (o : Option ℕ)
    → TotalIs t o
    → (elim o [ none ↦ false | some u ↦ leb u n ]) ≡ true
    → t ≤ n
reached t n none h c = cc
reached t n (some u) h c = ground arith

complete_reached :
    (t : ℕ) (g : PendingGroup) → IsGroup t g → is_complete g ≡ true → t ≤ length g.numbered_parts
unfolding is_complete
complete_reached t g i c = reached t (length g.numbered_parts) g.total_parts i.total c

sorted_keys :
    (t : ℕ) (d : Dict ℕ ArticleHeader)
    → Distinct d
    → All (InRange t) (keys d)
    → t ≤ length d
    → keys (sort_parts d) ≡ counted 0 t
sorted_keys t d x r n =
    let sorted = sort_parts d in
    let size : length (keys sorted) ≡ length d = length-keys sorted ∙ length-sort_parts d in
    let fits = positive t (keys d) r in
    let up : Ascends 0 (keys sorted) = sort_parts-Ascends d x fits.0 in
    let low : All (λ k. k ≤ t) (keys sorted) = All-sort_parts (λ k. k ≤ t) d fits.1 in
    let full : keys sorted ≡ counted 0 (length (keys sorted)) =
      Ascends-counted 0 t (keys sorted) (omega arith) up low (omega arith) in
    let all_parts : length (keys sorted) ≡ t =
      omega (arith, Ascends-length 0 t (keys sorted) (omega arith) up low) in
    full ∙ ap (counted 0) all_parts

listed :
    (d : Dict ℕ ArticleHeader) (others : List ArticleHeader)
    → 1 ≤ length d
    → (if is_empty d then others else map (λ e. e.1) (sort_parts d)) ≡ map (λ e. e.1) (sort_parts d)
listed [] others h = absurd (omega arith)
listed (e ∷ d) others h = refl

-- Where all counters of a group name the same total t ≥ 1, a complete group has the parts 1, …, t,
-- each once, and its candidate lists their headers in the order of the part numbers.
pub Gathered-complete :
    {t : ℕ} {g : PendingGroup}
    → Gathered t g
    → 1 ≤ t
    → is_complete g ≡ true
    → (keys (sort_parts g.numbered_parts) ≡ counted 0 t)
      × ((to_candidate g).headers ≡ map (λ e. e.1) (sort_parts g.numbered_parts))
unfolding to_candidate
Gathered-complete {t} {g} r some_part c =
    let i = Gathered-IsGroup r in
    let enough = complete_reached t g i c in
    (
      sorted_keys t g.numbered_parts i.distinct i.ranged enough,
      listed g.numbered_parts g.unnumbered_headers (omega arith),
    )

-- Where the counters name different totals a group can be complete with a part missing: after part
-- p of 2 any part q > 2 of u completes it, whatever the other part of 1 and 2.
pub mixed_totals_complete :
    (stem : Text) (h i : ArticleHeader) (p q u : ℕ)
    → h.message_id ≢ i.message_id
    → 1 ≤ p
    → p ≤ 2
    → 2 < q
    → let g = add i (some q) (some u) (add h (some p) (some 2) (new_group stem none)) in
      (is_complete g ≡ true) × (contains (3 - p) g.numbered_parts ≡ false)
unfolding add is_complete contains put
mixed_totals_complete stem h i p q u ne one lo hi =
    ground (arith, =?-ne h.message_id i.message_id ne)
