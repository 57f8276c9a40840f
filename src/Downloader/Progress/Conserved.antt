-- ===== src/Downloader/Progress/Conserved.antt =====
-- What a `ProgressCoalescer` has given to its sink and what it still holds.
use lore_x.Prelude.{
  ◌≡◌, ◌+◌, ◌<◌, ◌≤◌, refl, ap, ◌∙◌, sym, false, List, [], ◌∷◌, ◌++◌, arith, All, Bool-cases, inl,
  inr,
}
use lore_x.Prelude.Int.{ℤ, pos, pos_part, neg_part, ◌+ℤ◌, ◌≤ℤ◌, leb_ℤ, sum_ℤ, int_laws, eq_of_parts}
use lore_x.Result.{ok}
use lore_x.Downloader.Progress.{
  ProgressCoalescer, new_coalescer, record_bytes, should_flush, flush, flush_if_needed,
  record_progress, record_all,
}

-- What the sink has and what waits to be flushed.
abbrev pub reported : ProgressCoalescer × List ℤ → ℤ
reported (c, sink) = sum_ℤ sink +ℤ c.pending_bytes

sum_ℤ-append : (xs : List ℤ) (y : ℤ) → sum_ℤ (xs ++ y ∷ []) ≡ sum_ℤ xs +ℤ y
sum_ℤ-append [] y = eq_of_parts _ _ (omega int_laws)
sum_ℤ-append (x ∷ xs) y = rw (sum_ℤ-append xs y) (eq_of_parts _ _ (omega int_laws))

reported-flush : (now : ℤ) (s : ProgressCoalescer × List ℤ) → reported (flush now s) ≡ reported s
unfolding flush
reported-flush now (c, sink) = elim (Bool-cases (leb_ℤ c.pending_bytes (pos 0))) [
  | inl nothing ↦ rw (nothing, flush) refl
  | inr waiting ↦
      rw (waiting, flush)
        (rw (sum_ℤ-append sink c.pending_bytes) (eq_of_parts _ _ (omega int_laws)))
]

-- The threshold, and what may wait below it.
pub record IsBelow (t : ℤ) (s : ProgressCoalescer × List ℤ) : Type 0 where
  pub threshold : s.0.byte_threshold ≡ t
  pub low : pos 0 ≤ℤ s.0.pending_bytes
  pub high : (s.0.pending_bytes +ℤ pos 1) ≤ℤ t

zero-below : (t : ℤ) → pos 1 ≤ℤ t → (pos 0 +ℤ pos 1) ≤ℤ t
zero-below t h = omega int_laws

flush-IsBelow :
    (t now : ℤ) (s : ProgressCoalescer × List ℤ)
    → s.0.byte_threshold ≡ t
    → pos 1 ≤ℤ t
    → pos 0 ≤ℤ s.0.pending_bytes
    → IsBelow t (flush now s) × ((flush now s).0.pending_bytes ≡ pos 0)
unfolding flush
flush-IsBelow t now (c, sink) th one low = elim (Bool-cases (leb_ℤ c.pending_bytes (pos 0))) [
  | inl nothing ↦
      let zero_left : c.pending_bytes ≡ pos 0 = eq_of_parts _ _ (ground (arith, nothing)) in
      rw (nothing, flush)
        (record { threshold = th; low = low; high = rw zero_left (zero-below t one) }, zero_left)
  | inr waiting ↦
      rw (waiting, flush)
        (record { threshold = th; low = omega arith; high = zero-below t one }, refl)
]

below_of : (a b : ℤ) → leb_ℤ a b ≡ false → (b +ℤ pos 1) ≤ℤ a
below_of a b h =
    let k : pos_part b + neg_part a < pos_part a + neg_part b = ground (arith, h) in omega int_laws

quiet_below :
    (now : ℤ) (c : ProgressCoalescer) (t : ℤ)
    → c.byte_threshold ≡ t
    → pos 1 ≤ℤ t
    → should_flush now c ≡ false
    → (c.pending_bytes +ℤ pos 1) ≤ℤ t
unfolding should_flush
quiet_below now c t th one early = elim (Bool-cases (leb_ℤ c.pending_bytes (pos 0))) [
  | inl nothing ↦
      let k : pos_part c.pending_bytes + 0 ≤ 0 + neg_part c.pending_bytes =
        ground (arith, nothing) in
      omega int_laws
  | inr waiting ↦
      let short : leb_ℤ c.byte_threshold c.pending_bytes ≡ false = ground (arith, early, waiting) in
      rw th at (below_of c.byte_threshold c.pending_bytes short)
]

flush_if_needed-IsBelow :
    (t now : ℤ) (s : ProgressCoalescer × List ℤ)
    → s.0.byte_threshold ≡ t
    → pos 1 ≤ℤ t
    → pos 0 ≤ℤ s.0.pending_bytes
    → IsBelow t (flush_if_needed now s) × (reported (flush_if_needed now s) ≡ reported s)
unfolding flush_if_needed
flush_if_needed-IsBelow t now (c, sink) th one low = elim (Bool-cases (should_flush now c)) [
  | inl due ↦
      rw (due, flush_if_needed)
        ((flush-IsBelow t now (c, sink) th one low).0, reported-flush now (c, sink))
  | inr early ↦
      rw (early, flush_if_needed)
        (record { threshold = th; low = low; high = quiet_below now c t th one early }, refl)
]

record_progress-IsBelow :
    (t now bytes : ℤ) (s : ProgressCoalescer × List ℤ)
    → pos 1 ≤ℤ t
    → pos 0 ≤ℤ bytes
    → IsBelow t s
    → (s' : ProgressCoalescer × List ℤ) × (record_progress now bytes s ≡ ok s')
      × IsBelow t s'
      × (reported s' ≡ reported s +ℤ bytes)
unfolding record_progress record_bytes
record_progress-IsBelow t now bytes (c, sink) one counted i =
    let c' : ProgressCoalescer = record c { pending_bytes = c.pending_bytes +ℤ bytes } in
    let (below, same) =
      flush_if_needed-IsBelow t now (c', sink) i.threshold one (omega (int_laws, i.low)) in
    (
      flush_if_needed now (c', sink),
      ground (arith, counted),
      below,
      same ∙ eq_of_parts _ _ (omega int_laws),
    )

abbrev pub chunk_bytes : List (ℤ × ℤ) → List ℤ
chunk_bytes [] = []
chunk_bytes (e ∷ chunks) = e.1 ∷ chunk_bytes chunks

record_all-IsBelow :
    (t : ℤ) (chunks : List (ℤ × ℤ)) (s : ProgressCoalescer × List ℤ)
    → pos 1 ≤ℤ t
    → All (λ e. pos 0 ≤ℤ e.1) chunks
    → IsBelow t s
    → (s' : ProgressCoalescer × List ℤ) × (record_all chunks s ≡ ok s')
      × IsBelow t s'
      × (reported s' ≡ reported s +ℤ sum_ℤ (chunk_bytes chunks))
unfolding record_all
record_all-IsBelow t [] s one counted i = (s, refl, i, eq_of_parts _ _ (omega int_laws))
record_all-IsBelow t ((now, bytes) ∷ chunks) s one counted i =
    let (s1, recorded, i1, r1) = record_progress-IsBelow t now bytes s one counted.0 i in
    let (s2, ran, i2, r2) = record_all-IsBelow t chunks s1 one counted.1 i1 in
    (
      s2,
      ground (arith, recorded, ran),
      i2,
      r2 ∙ (ap (λ x. x +ℤ sum_ℤ (chunk_bytes chunks)) r1 ∙ eq_of_parts _ _ (omega int_laws)),
    )

plain_sum : (a y : ℤ) → a +ℤ pos 0 ≡ (pos 0 +ℤ pos 0) +ℤ y → a ≡ y
plain_sum a y k =
    let l : a +ℤ pos 0 ≡ a = eq_of_parts _ _ (omega int_laws) in
    let r : (pos 0 +ℤ pos 0) +ℤ y ≡ y = eq_of_parts _ _ (omega int_laws) in sym l ∙ (k ∙ r)

settled :
    (a : ProgressCoalescer × List ℤ) (p y : ℤ)
    → a.0.pending_bytes ≡ pos 0
    → p ≡ pos 0
    → reported a ≡ (pos 0 +ℤ p) +ℤ y
    → sum_ℤ a.1 ≡ y
settled a p y e q h =
    let k : sum_ℤ a.1 +ℤ pos 0 ≡ (pos 0 +ℤ pos 0) +ℤ y =
      ap (λ x. sum_ℤ a.1 +ℤ x) (sym e) ∙ (h ∙ ap (λ x. (pos 0 +ℤ x) +ℤ y) q) in
    plain_sum (sum_ℤ a.1) y k

-- Of a new coalescer, whatever the times at which chunks of non-negative sizes arrive: none of them is
-- refused, what waits stays below the byte threshold, and after the last flush the sink has been
-- given exactly the sum of the sizes.
pub record_all-conserved :
    (t d start end : ℤ) (chunks : List (ℤ × ℤ)) (c : ProgressCoalescer)
    → new_coalescer t d start ≡ ok c
    → All (λ e. pos 0 ≤ℤ e.1) chunks
    → (s : ProgressCoalescer × List ℤ) × (record_all chunks (c, []) ≡ ok s)
      × IsBelow t s
      × (sum_ℤ (flush end s).1 ≡ sum_ℤ (chunk_bytes chunks))
unfolding new_coalescer
record_all-conserved t d start end chunks c made counted =
    let one : pos 1 ≤ℤ t = ground (arith, made) in
    let fresh : record {
      byte_threshold = t;
      time_threshold = d;
      pending_bytes = pos 0;
      last_flush = start;
    }
        ≡ c =
      ground (arith, made) in
    let i : IsBelow t (c, []) =
      rw (← fresh) (record { threshold = refl; low = omega arith; high = zero-below t one }) in
    let (s, ran, below, kept) = record_all-IsBelow t chunks (c, []) one counted i in
    let (_, empty) = flush-IsBelow t end s below.threshold one below.low in
    let none_left : c.pending_bytes ≡ pos 0 = ap (λ x. x.pending_bytes) (sym fresh) in
    let total = reported-flush end s ∙ kept in
    (
      s,
      ran,
      below,
      settled (flush end s) c.pending_bytes (sum_ℤ (chunk_bytes chunks)) empty none_left total,
    )
