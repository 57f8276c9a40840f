-- ===== src/Library/Archive/Tests.antt =====
-- An archive with a link (library/archive.py).
use lore_x.Prelude.{◌≡◌, refl, List, [], ◌∷◌, none, some, map, All, length}
use lore_x.Prelude.Int.{pos, ◌+ℤ◌, ◌≤ℤ◌, sum_ℤ}
use lore_x.Result.{ok, err, archive_safety}
use lore_x.Text.{codes, text_functions}
use lore_x.Text.Number.{words}
use lore_x.Library.Archive.{
  ArchiveLimits, archive_limits, ArchiveMember, ArchiveManifest, validate_archive_members,
}
use lore_x.Library.Archive.Safety.{IsSafe, validate_archive_members-IsSafe}

abbrev limits : ArchiveLimits
limits = record { max_files = pos 2; max_extracted_bytes = pos 100 }

abbrev members : List ArchiveMember
members =
    record { name = codes "Book\\part1.mp3"; size = pos 60; symlink_target = none }
    ∷ record {
      name = codes "Book/latest.mp3";
      size = pos 0;
      symlink_target = some (codes "part1.mp3");
    }
    ∷ []

abbrev manifest : ArchiveManifest
manifest = record { file_count = 2; extracted_bytes = pos 60 }

accepted : archive_limits (pos 2) (pos 100) ≡ ok limits
unfolding archive_limits
accepted = refl

passed : validate_archive_members members limits ≡ ok manifest
unfolding validate_archive_members text_functions words ◌+ℤ◌
passed = refl

climbs :
    validate_archive_members
      (record { name = codes "a\\..\\b"; size = pos 1; symlink_target = none } ∷ [])
      limits
    ≡ err (archive_safety "unsafe archive path")
unfolding validate_archive_members text_functions words ◌+ℤ◌
climbs = refl

validate_archive_members-IsSafe_example :
    All IsSafe members
    × (manifest.file_count ≡ length members)
    × (manifest.extracted_bytes ≡ sum_ℤ (map (λ m. m.size) members))
    × (pos manifest.file_count ≤ℤ pos 2)
    × (manifest.extracted_bytes ≤ℤ pos 100)
validate_archive_members-IsSafe_example =
    validate_archive_members-IsSafe (pos 2) (pos 100) limits members manifest accepted passed
