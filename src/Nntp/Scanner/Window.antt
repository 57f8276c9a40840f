-- ===== src/Nntp/Scanner/Window.antt =====
-- The windows that `_scan_range` chooses.
use lore_x.Prelude.{◌≡◌, refl, Option, none, some, arith, nat_eq, list_eq}
use lore_x.Prelude.Int.{ℤ, pos, ◌+ℤ◌, ◌-ℤ◌, ◌≤ℤ◌, max_ℤ, min_ℤ, int_laws}
use lore_x.Result.{Result, ok, err}
use lore_x.Text.{Text}
use lore_x.Domain.{IndexCheckpoint}
use lore_x.Nntp.Models.{GroupInfo}
use lore_x.Nntp.Scanner.{scan_start, scan_window, scan_range}

-- Nothing at or below the checkpoint is asked for again.
abbrev pub Beyond : Option IndexCheckpoint → ℤ → Type 0
Beyond none start = Unit
Beyond (some c) start = (c.article_number +ℤ pos 1) ≤ℤ start

scan_start-lower :
    (cp : Option IndexCheckpoint) (info : GroupInfo) (b : ℤ) (mode : Text) (start : ℤ)
    → scan_start cp info b mode ≡ ok (some start)
    → (info.low ≤ℤ start) × Beyond cp start
unfolding scan_start max_ℤ
scan_start-lower none info b mode start h = ground (arith, h)
scan_start-lower (some c) info b mode start h = ground (arith, h)

scan_window-end :
    (info : GroupInfo) (b start s e : ℤ)
    → scan_window info b start ≡ some (s, e)
    → (s ≡ start) × (start ≤ℤ info.high) × (e ≡ min_ℤ info.high ((start +ℤ b) -ℤ pos 1))
unfolding scan_window
scan_window-end info b start s e h = ground (arith, h)

pub min_ℤ-least : (a b c : ℤ) → c ≤ℤ a → c ≤ℤ b → c ≤ℤ min_ℤ a b
unfolding min_ℤ
min_ℤ-least a b c h k = ground arith

pub min_ℤ-below : (a b : ℤ) → (min_ℤ a b ≤ℤ a) × (min_ℤ a b ≤ℤ b)
unfolding min_ℤ
min_ℤ-below a b = ground arith

scan_range-parts :
    (cp : Option IndexCheckpoint) (info : GroupInfo) (b : ℤ) (mode : Text) (s e : ℤ)
    → scan_range cp info b mode ≡ ok (some (s, e))
    → (scan_start cp info b mode ≡ ok (some s))
      × (s ≤ℤ info.high)
      × (e ≡ min_ℤ info.high ((s +ℤ b) -ℤ pos 1))
unfolding scan_range
scan_range-parts cp info b mode s e h = by_start (scan_start cp info b mode) refl
  where
    by_start :
        (r : Result (Option ℤ))
        → scan_start cp info b mode ≡ r
        → (scan_start cp info b mode ≡ ok (some s))
          × (s ≤ℤ info.high)
          × (e ≡ min_ℤ info.high ((s +ℤ b) -ℤ pos 1))
    by_start (err x) q = absurd (ground (arith, h, q))
    by_start (ok none) q = absurd (ground (arith, h, q))
    by_start (ok (some start)) q =
        let w : scan_window info b start ≡ some (s, e) = ground (arith, h, q) in
        let (same, below, last) = scan_window-end info b start s e w in rw same (q, below, last)

-- With a batch size of at least 1, a window that is chosen lies within the group, is not empty, is no
-- longer than the batch size, and begins behind the checkpoint, where there is one.
pub scan_range-bounds :
    (cp : Option IndexCheckpoint) (info : GroupInfo) (b : ℤ) (mode : Text) (s e : ℤ)
    → pos 1 ≤ℤ b
    → scan_range cp info b mode ≡ ok (some (s, e))
    → (info.low ≤ℤ s) × (s ≤ℤ e) × (e ≤ℤ info.high) × ((e -ℤ s) +ℤ pos 1 ≤ℤ b) × Beyond cp s
scan_range-bounds cp info b mode s e positive h =
    let (started, below, last) = scan_range-parts cp info b mode s e h in
    let (lower, beyond) = scan_start-lower cp info b mode s started in
    let (high, short) = min_ℤ-below info.high ((s +ℤ b) -ℤ pos 1) in
    let least = min_ℤ-least info.high ((s +ℤ b) -ℤ pos 1) s below (omega int_laws) in
    rw last (lower, least, high, omega int_laws, beyond)
