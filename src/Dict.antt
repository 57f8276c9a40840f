-- ===== src/Dict.antt =====
-- Python's `dict`, and `OrderedDict`: association lists in the order of insertion.
use lore_x.Prelude.{
  suc, ◌≤◌, ◌≡◌, refl, ◌≢◌, Bool, true, false, ◌||◌, Option, none, some, List, [], ◌∷◌, arith,
  length, if◌then◌else◌, Eq, ◌=?◌, =?-refl, =?-comm, Bool-cases, inl, inr, ◌∙◌,
}

abbrev pub Dict {ℓ κ} : Type ℓ → Type κ → Type (ℓ ⊔ κ)
Dict K V = List (K × V)

module _ {ℓ κ} {K : Type ℓ} {V : Type κ} ⦃e : Eq K⦄ where
  -- `d.get(k)`
  unfoldable pub get : K → Dict K V → Option V
  get k [] = none
  get k ((j, v) ∷ d) = if j =? k then some v else get k d

  -- `k in d`
  unfoldable pub contains : K → Dict K V → Bool
  contains k [] = false
  contains k ((j, v) ∷ d) = (j =? k) || contains k d

  -- `d[k] = v`: in place, or at the end
  unfoldable pub put : K → V → Dict K V → Dict K V
  put k v [] = (k, v) ∷ []
  put k v ((j, w) ∷ d) = if j =? k then (j, v) ∷ d else (j, w) ∷ put k v d

  -- `d.pop(k, None)`
  unfoldable pub remove : K → Dict K V → Dict K V
  remove k [] = []
  remove k ((j, w) ∷ d) = let rest = remove k d in if j =? k then rest else (j, w) ∷ rest

  pub get-put :
      (k j : K) (v : V) (d : Dict K V) → get j (put k v d) ≡ (if k =? j then some v else get j d)
  unfolding get put
  get-put k j v [] = refl
  get-put k j v ((i, w) ∷ d) =
      ground (arith, get-put k j v d, e.beq_iff i k, e.beq_iff i j, e.beq_iff k j)

  pub get-remove :
      (k j : K) (d : Dict K V) → get j (remove k d) ≡ (if k =? j then none else get j d)
  unfolding get remove
  get-remove k j [] = ground arith
  get-remove k j ((i, w) ∷ d) =
      ground (arith, get-remove k j d, e.beq_iff i k, e.beq_iff i j, e.beq_iff k j)

  pub get-put_self : (k : K) (v : V) (d : Dict K V) → get k (put k v d) ≡ some v
  get-put_self k v d = ground (arith, get-put k k v d, =?-refl k)

  pub get-put_ne : (k j : K) (v : V) (d : Dict K V) → k ≢ j → get j (put k v d) ≡ get j d
  get-put_ne k j v d h = ground (arith, get-put k j v d, e.beq_iff k j)

  pub put-put : (k : K) (v w : V) (d : Dict K V) → put k v (put k w d) ≡ put k v d
  unfolding put
  put-put k v w [] = ground (arith, =?-refl k)
  put-put k v w ((j, x) ∷ d) = ground (arith, put-put k v w d)

  pub get-remove_self : (k : K) (d : Dict K V) → get k (remove k d) ≡ none
  get-remove_self k d = ground (arith, get-remove k k d, =?-refl k)

  pub get-remove_ne : (k j : K) (d : Dict K V) → k ≢ j → get j (remove k d) ≡ get j d
  get-remove_ne k j d h = ground (arith, get-remove k j d, e.beq_iff k j)

  pub contains_iff-get :
      (k : K) (d : Dict K V) → contains k d ≡ (elim (get k d) [ none ↦ false | some v ↦ true ])
  unfolding contains get
  contains_iff-get k [] = refl
  contains_iff-get k ((j, v) ∷ d) = ground (arith, contains_iff-get k d)

  pub length-put :
      (k : K) (v : V) (d : Dict K V)
      → length (put k v d) ≡ (if contains k d then length d else suc (length d))
  unfolding contains put
  length-put k v [] = refl
  length-put k v ((j, w) ∷ d) = ground (arith, length-put k v d)

  pub length-remove : (k : K) (d : Dict K V) → length (remove k d) ≤ length d
  unfolding remove
  length-remove k [] = omega arith
  length-remove k ((j, w) ∷ d) = ground (arith, length-remove k d)

  -- No key stands twice.
  abbrev pub IsDistinct : Dict K V → Type (ℓ ⊔ κ)
  IsDistinct [] = Unit
  IsDistinct ((j, w) ∷ d) = (contains j d ≡ false) × IsDistinct d

  pub contains-put :
      (k j : K) (v : V) (d : Dict K V) → contains j (put k v d) ≡ ((k =? j) || contains j d)
  unfolding contains put
  contains-put k j v [] = ground arith
  contains-put k j v ((i, w) ∷ d) =
      ground (arith, contains-put k j v d, e.beq_iff i k, e.beq_iff i j, e.beq_iff k j)

  pub put-IsDistinct : (k : K) (v : V) (d : Dict K V) → IsDistinct d → IsDistinct (put k v d)
  unfolding put contains
  put-IsDistinct k v [] h = (refl, tt)
  put-IsDistinct k v ((j, w) ∷ d) h = elim (Bool-cases (j =? k)) [
    | inl same ↦ rw same h
    | inr other ↦
        rw other (contains-put k j v d ∙ rw (=?-comm k j, other) h.0, put-IsDistinct k v d h.1)
  ]

  -- What holds of every entry.
  abbrev pub Entries {ι} : (K → V → Type ι) → Dict K V → Type ι
  Entries P [] = Unit
  Entries P ((j, w) ∷ d) = P j w × Entries P d

  pub put-Entries {ι} :
      (P : K → V → Type ι) (k : K) (v : V) (d : Dict K V)
      → P k v
      → Entries P d
      → Entries P (put k v d)
  unfolding put
  put-Entries P k v [] p h = (p, tt)
  put-Entries P k v ((j, w) ∷ d) p h = elim (Bool-cases (j =? k)) [
    | inl same ↦ rw same (rw ((e.beq_iff j k).0 same) p, h.1)
    | inr other ↦ rw other (h.0, put-Entries P k v d p h.1)
  ]
