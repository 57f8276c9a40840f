-- ===== src/Indexer/Subject/Bounds.antt =====
-- The part numbers that `_split_part_suffix` returns.
use lore_x.Prelude.{ℕ, ◌≤◌, ◌≡◌, Option, none, some, arith, if◌then◌else◌}
use lore_x.Result.{Result, ok, err}
use lore_x.Text.{Text, rstrip, strip, ends_with, codes}
use lore_x.Indexer.Subject.{
  Split, unnumbered, checked_parts, split_yenc, split_bracket, split_part_suffix, yenc_search,
}

-- Both numbers are absent, or the part lies between 1 and the total.
abbrev pub InBounds : Option ℕ → Option ℕ → Type 0
InBounds none none = Unit
InBounds (some p) (some t) = (1 ≤ p) × (p ≤ t)
InBounds none (some t) = ⊥
InBounds (some p) none = ⊥

abbrev AllInBounds : Result Split → Type 0
AllInBounds (ok s) = InBounds s.part_number s.total_parts
AllInBounds (err e) = Unit

checked_parts-InBounds : (stem l r : Text) → AllInBounds (checked_parts stem l r)
unfolding checked_parts
checked_parts-InBounds stem l r = ground arith

split_yenc-InBounds : (name : Text) (m : Option (Text × Text)) → AllInBounds (split_yenc name m)
unfolding split_yenc
split_yenc-InBounds name none = ground arith
split_yenc-InBounds name (some (p, t)) = ground (arith, checked_parts-InBounds name p t)

split_bracket-InBounds : (subject stripped : Text) → AllInBounds (split_bracket subject stripped)
unfolding split_bracket
split_bracket-InBounds subject stripped = grind (arith, checked_parts-InBounds)

split-InBounds : (subject : Text) → AllInBounds (split_part_suffix subject)
unfolding split_part_suffix
split-InBounds subject =
    elim (yenc_search (rstrip subject))
      as (λ m. AllInBounds (elim m [
        | some (name, counted) ↦ split_yenc (strip name) counted
        | none ↦
            if ends_with (codes "]") (rstrip subject)
            then split_bracket subject (rstrip subject)
            else ok (unnumbered (strip subject))
      ])) [
        | some (name, counted) ↦ split_yenc-InBounds (strip name) counted
        | none ↦ ground (arith, split_bracket-InBounds subject (rstrip subject))
      ]

-- If a subject is parsed, its numbers are both absent, or the part lies between 1 and the total.
pub split_part_suffix-InBounds :
    (subject : Text) (s : Split)
    → split_part_suffix subject ≡ ok s
    → InBounds s.part_number s.total_parts
split_part_suffix-InBounds subject s h = rw h at (split-InBounds subject)
