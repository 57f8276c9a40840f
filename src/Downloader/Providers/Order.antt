-- ===== src/Downloader/Providers/Order.antt =====
-- The order in which providers are asked.
use mathlib.Core.List.{Perm}
use mathlib.Core.List.Perm
use lore_x.Prelude.{
  ◌≡◌, ◌+◌, ◌≤◌, not, ◌&&◌, ◌<◌, ◌⊎◌, inl, inr, refl, Bool, true, false, List, [], ◌∷◌, keep, arith,
  if◌then◌else◌, Bool-cases,
}
use lore_x.Prelude.Int.{ℤ, pos, ◌+ℤ◌, ◌≤ℤ◌, ltb_ℤ, pos_part, neg_part, eq_of_parts, int_laws}
use lore_x.Text.{Text}
use lore_x.Indexer.Grouper.{text_le}
use lore_x.Downloader.Providers.{
  ProviderConfig, ProviderSet, config_le, insert_config, sort_enabled, ordered,
}

-- The lexicographic order of names by code points.
abbrev pub LexLe : Text → Text → Type 0
LexLe [] t = Unit
LexLe (c ∷ s) [] = 1 < 0
LexLe (c ∷ s) (d ∷ t) = (c < d) ⊎ ((c ≡ d) × LexLe s t)

-- A regular server before a fill server; of one kind, the smaller priority first; of one priority, by
-- the name.
abbrev pub Before : ProviderConfig → ProviderConfig → Type 0
Before c d =
    ((c.fill_server ≡ false) × (d.fill_server ≡ true))
    ⊎ ((c.fill_server ≡ d.fill_server)
        × (((c.priority +ℤ pos 1) ≤ℤ d.priority)
            ⊎ ((c.priority ≡ d.priority) × LexLe c.name d.name)))

text_le-LexLe : (s t : Text) → text_le s t ≡ true → LexLe s t
unfolding text_le
text_le-LexLe [] t h = tt
text_le-LexLe (c ∷ s) [] h = absurd cc
text_le-LexLe (c ∷ s) (d ∷ t) h = ground (arith, h, text_le-LexLe s t)

text_le_total : (s t : Text) → text_le s t ≡ false → text_le t s ≡ true
unfolding text_le
text_le_total [] t h = cc
text_le_total (c ∷ s) [] h = refl
text_le_total (c ∷ s) (d ∷ t) h = ground (arith, text_le_total s t)

config_le_total : (c d : ProviderConfig) → config_le c d ≡ false → config_le d c ≡ true
unfolding config_le
config_le_total c d h = ground (arith, text_le_total c.name d.name)

priorities :
    (a b : ℤ) (x : Bool)
    → (if ltb_ℤ a b then true else (if ltb_ℤ b a then false else x)) ≡ true
    → ((a +ℤ pos 1) ≤ℤ b) ⊎ ((a ≡ b) × (x ≡ true))
priorities a b x h = elim (Bool-cases (ltb_ℤ a b)) [
  | inl less ↦ inl (
      let less' : pos_part a + neg_part b < pos_part b + neg_part a = ground (arith, less) in
      omega int_laws)
  | inr more ↦ elim (Bool-cases (ltb_ℤ b a)) [
    | inl over ↦ absurd (ground (arith, h, more, over))
    | inr same ↦
        let up : pos_part b + neg_part a ≤ pos_part a + neg_part b = ground (arith, more) in
        let down : pos_part a + neg_part b ≤ pos_part b + neg_part a = ground (arith, same) in
        inr (eq_of_parts a b (omega (arith, up, down)), ground (arith, h, more, same))
  ]
]

kinds :
    (f g x : Bool)
    → (if f && not g then false else (if not f && g then true else x)) ≡ true
    → ((f ≡ false) × (g ≡ true)) ⊎ ((f ≡ g) × (x ≡ true))
kinds true true x h = inr (refl, h)
kinds true false x h = absurd cc
kinds false true x h = inl (refl, refl)
kinds false false x h = inr (refl, h)

config_le-Before : (c d : ProviderConfig) → config_le c d ≡ true → Before c d
unfolding config_le
config_le-Before c d h = elim (kinds c.fill_server d.fill_server _ h) [
  | inl apart ↦ inl apart
  | inr (kind, later) ↦ elim (priorities c.priority d.priority _ later) [
    | inl less ↦ inr (kind, inl less)
    | inr (same, names) ↦ inr (kind, inr (same, text_le-LexLe c.name d.name names))
  ]
]

-- Every config stands before the next one.
abbrev pub InOrder : List ProviderConfig → Type 0
InOrder [] = Unit
InOrder (c ∷ []) = Unit
InOrder (c ∷ d ∷ cs) = Before c d × InOrder (d ∷ cs)

insert_config-InOrder :
    (c : ProviderConfig) (cs : List ProviderConfig) → InOrder cs → InOrder (insert_config c cs)
unfolding insert_config
insert_config-InOrder c [] h = tt
insert_config-InOrder c (d ∷ []) h = elim (Bool-cases (config_le c d)) [
  | inl low ↦ rw low (config_le-Before c d low, tt)
  | inr high ↦ rw high (config_le-Before d c (config_le_total c d high), tt)
]
insert_config-InOrder c (d ∷ e ∷ cs) h =
    let later = insert_config-InOrder c (e ∷ cs) h.1 in
    elim (Bool-cases (config_le c d)) [
      | inl low ↦ rw low (config_le-Before c d low, h)
      | inr high ↦
          let back = config_le-Before d c (config_le_total c d high) in
          rw high (ahead d e (insert_config c cs) (config_le c e) back h.0 later)
    ]
  where
    ahead :
        (d e : ProviderConfig) (rest : List ProviderConfig) (b : Bool)
        → Before d c
        → Before d e
        → InOrder (if b then c ∷ e ∷ cs else e ∷ rest)
        → InOrder (d ∷ (if b then c ∷ e ∷ cs else e ∷ rest))
    ahead d e rest true back next h = (back, h)
    ahead d e rest false back next h = (next, h)

insert_config-Perm :
    (c : ProviderConfig) (cs : List ProviderConfig) → Perm (insert_config c cs) (c ∷ cs)
unfolding insert_config
insert_config-Perm c [] = Perm.refl (c ∷ [])
insert_config-Perm c (d ∷ cs) = elim (Bool-cases (config_le c d)) [
  | inl low ↦ rw low (Perm.refl (c ∷ d ∷ cs))
  | inr high ↦ rw high (Perm.trans (Perm.cons d (insert_config-Perm c cs)) (Perm.swap c d cs))
]

enabled-InOrder :
    (b : Bool) (c : ProviderConfig) (rest : List ProviderConfig)
    → InOrder rest
    → InOrder (if b then insert_config c rest else rest)
enabled-InOrder true c rest h = insert_config-InOrder c rest h
enabled-InOrder false c rest h = h

enabled-Perm :
    (b : Bool) (c : ProviderConfig) (rest kept : List ProviderConfig)
    → Perm rest kept
    → Perm
        (if b then insert_config c rest else rest)
        (elim b as (λ x. List ProviderConfig) [ true ↦ c ∷ kept | false ↦ kept ])
enabled-Perm true c rest kept h = Perm.trans (insert_config-Perm c rest) (Perm.cons c h)
enabled-Perm false c rest kept h = h

sort_enabled-InOrder : (cs : List ProviderConfig) → InOrder (sort_enabled cs)
unfolding sort_enabled
sort_enabled-InOrder [] = tt
sort_enabled-InOrder (c ∷ cs) =
    enabled-InOrder c.enabled c (sort_enabled cs) (sort_enabled-InOrder cs)

sort_enabled-Perm : (cs : List ProviderConfig) → Perm (sort_enabled cs) (keep (λ c. c.enabled) cs)
unfolding sort_enabled
sort_enabled-Perm [] = Perm.refl []
sort_enabled-Perm (c ∷ cs) =
    enabled-Perm c.enabled c (sort_enabled cs) (keep (λ d. d.enabled) cs) (sort_enabled-Perm cs)

-- The providers that are asked are the enabled ones, each as often as it is configured, regular servers
-- before fill servers, each kind by ascending priority, and those of one priority by their names in
-- lexicographic order.
pub ordered-InOrder :
    (s : ProviderSet) → InOrder (ordered s) × Perm (ordered s) (keep (λ c. c.enabled) s.configs)
unfolding ordered
ordered-InOrder s = (sort_enabled-InOrder s.configs, sort_enabled-Perm s.configs)
