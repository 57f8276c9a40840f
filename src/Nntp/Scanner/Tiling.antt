-- ===== src/Nntp/Scanner/Tiling.antt =====
-- `_scan_range` on repeated scans of a group.
use lore_x.Prelude.{
  ℕ, zero, suc, ◌≡◌, refl, true, false, Option, none, some, List, [], ◌∷◌, arith, Bool-cases, inl,
  inr, ◌+◌, ◌<◌, ◌≤◌,
}
use lore_x.Prelude.Int.{
  ℤ, pos, ◌+ℤ◌, ◌-ℤ◌, ◌≤ℤ◌, leb_ℤ, ltb_ℤ, max_ℤ, min_ℤ, int_laws, eq_of_parts, pos_part, neg_part,
}
use lore_x.Result.{ok, err}
use lore_x.Text.{Text, codes}
use lore_x.Domain.{IndexCheckpoint}
use lore_x.Nntp.Models.{GroupInfo}
use lore_x.Nntp.Scanner.{scan_start, scan_window, scan_range}
use lore_x.Nntp.Scanner.Window.{min_ℤ-least, min_ℤ-below}

module _ (info : GroupInfo) (b : ℤ) (source group : Text) where
  abbrev pub at_number : ℤ → IndexCheckpoint
  at_number n = record { source = source; group = group; article_number = n }

  -- The windows of so many scans while the group stays as it is, each with the last one's end as its
  -- checkpoint.
  unfoldable pub windows : ℕ → Text → Option IndexCheckpoint → List (ℤ × ℤ)
  windows zero mode cp = []
  windows (suc n) mode cp = elim (scan_range cp info b mode) [
    | err e ↦ []
    | ok none ↦ []
    | ok (some (s, e)) ↦ (s, e) ∷ windows n mode (some (at_number e))
  ]

-- The windows follow each other without a gap or an overlap, from `lo` up to `hi`.
abbrev pub Tiles : ℤ → ℤ → List (ℤ × ℤ) → Type 0
Tiles lo hi [] = (hi +ℤ pos 1) ≤ℤ lo
Tiles lo hi ((s, e) ∷ ws) = (s ≡ lo) × (s ≤ℤ e) × (e ≤ℤ hi) × Tiles (e +ℤ pos 1) hi ws

window_end : GroupInfo → ℤ → ℤ → ℤ
window_end info b s = min_ℤ info.high ((s +ℤ b) -ℤ pos 1)

scan_range-past :
    (c : IndexCheckpoint) (info : GroupInfo) (b : ℤ) (mode : Text)
    → leb_ℤ info.high c.article_number ≡ true
    → scan_range (some c) info b mode ≡ ok none
unfolding scan_range scan_start
scan_range-past c info b mode h = ground (arith, h)

max_ℤ-eq : (a b : ℤ) → a ≤ℤ b → max_ℤ a b ≡ b
unfolding max_ℤ
max_ℤ-eq a b h = ground (arith, eq_of_parts a b)

scan_window-at :
    (info : GroupInfo) (b start : ℤ)
    → start ≤ℤ info.high
    → scan_window info b start ≡ some (start, window_end info b start)
unfolding scan_window window_end
scan_window-at info b start h = ground arith

past_end : (a b : ℤ) → leb_ℤ a b ≡ true → (a +ℤ pos 1) ≤ℤ (b +ℤ pos 1)
past_end a b h =
    let k : pos_part a + neg_part b ≤ pos_part b + neg_part a = ground (arith, h) in omega int_laws

below_low : (a b : ℤ) → ltb_ℤ a b ≡ true → (a +ℤ pos 1) ≤ℤ b
below_low a b h =
    let k : pos_part a + neg_part b < pos_part b + neg_part a = ground (arith, h) in omega int_laws

not_past : (a b : ℤ) → leb_ℤ a b ≡ false → (b +ℤ pos 1) ≤ℤ a
not_past a b h =
    let k : pos_part b + neg_part a < pos_part a + neg_part b = ground (arith, h) in omega int_laws

scan_range-next :
    (c : IndexCheckpoint) (info : GroupInfo) (b : ℤ) (mode : Text)
    → leb_ℤ info.high c.article_number ≡ false
    → info.low ≤ℤ (c.article_number +ℤ pos 1)
    → scan_range (some c) info b mode
      ≡ ok (some (c.article_number +ℤ pos 1, window_end info b (c.article_number +ℤ pos 1)))
unfolding scan_range scan_start
scan_range-next c info b mode h low =
    let start = max_ℤ-eq info.low (c.article_number +ℤ pos 1) low in
    let window =
      scan_window-at info b (c.article_number +ℤ pos 1) (not_past info.high c.article_number h) in
    ground (arith, h, start, window)

module _ (info : GroupInfo) (b : ℤ) (source group : Text) (positive : pos 1 ≤ℤ b) where
  window_end-bounds :
      (s : ℤ) → s ≤ℤ info.high → (s ≤ℤ window_end info b s) × (window_end info b s ≤ℤ info.high)
  unfolding window_end
  window_end-bounds s h = (
    min_ℤ-least info.high ((s +ℤ b) -ℤ pos 1) s h (omega int_laws),
    (min_ℤ-below info.high ((s +ℤ b) -ℤ pos 1)).0,
  )

  windows_end :
      (n : ℕ) (mode : Text) (cp : Option IndexCheckpoint)
      → scan_range cp info b mode ≡ ok none
      → windows info b source group (suc n) mode cp ≡ []
  unfolding windows
  windows_end n mode cp h = ground (arith, h)

  windows_more :
      (n : ℕ) (mode : Text) (cp : Option IndexCheckpoint) (s e : ℤ)
      → scan_range cp info b mode ≡ ok (some (s, e))
      → windows info b source group (suc n) mode cp
        ≡ (s, e) ∷ windows info b source group n mode (some (at_number info b source group e))
  unfolding windows
  windows_more n mode cp s e h = ground (arith, h)

  windows-Tiles :
      (n : ℕ) (mode : Text) (c : ℤ)
      → info.low ≤ℤ (c +ℤ pos 1)
      → info.high ≤ℤ (c +ℤ pos n)
      → Tiles
          (c +ℤ pos 1)
          info.high
          (windows info b source group n mode (some (at_number info b source group c)))
  unfolding windows
  windows-Tiles zero mode c low enough = omega int_laws
  windows-Tiles (suc n) mode c low enough = elim (Bool-cases (leb_ℤ info.high c)) [
    | inl past ↦
        rw
          (windows_end n mode _
            (scan_range-past (at_number info b source group c) info b mode past))
          (past_end info.high c past)
    | inr more ↦
        let s = c +ℤ pos 1 in
        let (some_left, below) = window_end-bounds s (not_past info.high c more) in
        rw
          (windows_more n mode _ s _
            (scan_range-next (at_number info b source group c) info b mode more low))
          (
            refl,
            some_left,
            below,
            windows-Tiles n mode (window_end info b s) (omega int_laws) (omega int_laws),
          )
  ]

  first_window :
      (w : Option (ℤ × ℤ))
      → scan_window info b info.low ≡ w
      → scan_range none info b (codes "backfill") ≡ ok w
  unfolding scan_range scan_start
  first_window w h = ground (arith, h)

  no_window : ltb_ℤ info.high info.low ≡ true → scan_window info b info.low ≡ none
  unfolding scan_window
  no_window h = ground (arith, h)

  -- Without a checkpoint, in the mode `backfill`, and with a batch size of at least 1, so many scans
  -- as the group has numbers read it from its low to its high number, without a gap or an overlap.
  pub backfill-Tiles :
      (n : ℕ)
      → info.high ≤ℤ ((info.low +ℤ pos n) -ℤ pos 1)
      → Tiles info.low info.high (windows info b source group n (codes "backfill") none)
  backfill-Tiles zero enough = unfold windows in omega int_laws
  backfill-Tiles (suc n) enough = elim (Bool-cases (ltb_ℤ info.high info.low)) [
    | inl nothing ↦
        rw (windows_end n (codes "backfill") none (first_window none (no_window nothing)))
          (below_low info.high info.low nothing)
    | inr group_there ↦
        let s = info.low in
        let room : s ≤ℤ info.high = ground (arith, group_there) in
        let (some_left, below) = window_end-bounds s room in
        rw
          (windows_more n (codes "backfill") none s _
            (first_window _ (scan_window-at info b s room)))
          (
            refl,
            some_left,
            below,
            windows-Tiles n (codes "backfill") (window_end info b s) (omega int_laws)
                (omega int_laws),
          )
  ]
