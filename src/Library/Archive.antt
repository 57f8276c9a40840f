-- ===== src/Library/Archive.antt =====
-- backend/lorex/library/archive.py: what an archive may hold before it is extracted.
pub mod Within
pub mod Safety
mod Tests
use lore_x.Prelude.{
  ℕ, suc, ◌+◌, Bool, true, false, not, ◌||◌, ◌&&◌, Option, none, some, List, [], ◌∷◌, any, keep,
  if◌then◌else◌, ◌==◌, ◌=?◌, nat_eq, list_eq,
}
use lore_x.Prelude.Int.{ℤ, pos, ◌+ℤ◌, ltb_ℤ, leb_ℤ}
use lore_x.Result.{Result, ok, err, Error, value_error, archive_safety, ◌>>=◌}
use lore_x.Process.{Work, after}
use lore_x.Text.{Text, codes, is_empty, starts_with}
use lore_x.Text.Number.{words}

pub record ArchiveLimits : Type 0 where
  pub max_files : ℤ
  pub max_extracted_bytes : ℤ

unfoldable pub archive_limits : ℤ → ℤ → Result ArchiveLimits
archive_limits max_files max_extracted_bytes =
    if leb_ℤ max_files (pos 0) || leb_ℤ max_extracted_bytes (pos 0)
    then err (value_error "archive limits must be positive")
    else ok (record { max_files = max_files; max_extracted_bytes = max_extracted_bytes })

pub record ArchiveMember : Type 0 where
  pub name : Text
  pub size : ℤ
  pub symlink_target : Option Text

pub record ArchiveManifest : Type 0 where
  pub file_count : ℕ
  pub extracted_bytes : ℤ

-- `value.replace("\\", "/")`
unfoldable pub with_slashes : Text → Text
with_slashes [] = []
with_slashes (c ∷ s) = (if c == 92 then 47 else c) ∷ with_slashes s

-- `PurePosixPath(…).parts` of a relative path, where no part is empty and none is a single dot.
unfoldable pub path_parts : Text → List Text
path_parts path = keep (λ p. not (p =? codes ".")) (words (λ c. c == 47) path)

unfoldable pub is_absolute : Text → Bool
is_absolute path = starts_with (codes "/") path

unfoldable pub is_safe_path : Text → Bool
unfolding with_slashes path_parts is_absolute
is_safe_path value =
    let normalized = with_slashes value in
    not (
      is_empty normalized
      || is_absolute normalized
      || any (λ p. p =? codes "..") (path_parts normalized))

unfoldable pub safe_relative_path : Text → Result (Unit {0})
unfolding is_safe_path
safe_relative_path value =
    if is_safe_path value then ok tt else err (archive_safety "unsafe archive path")

unfoldable pub safe_target : Option Text → Result (Unit {0})
unfolding safe_relative_path
safe_target none = ok tt
safe_target (some target) = safe_relative_path target

-- The tests on one member, with the counts that include it.
unfoldable pub check_member : ArchiveLimits → ArchiveMember → ℕ → ℤ → Result (Unit {0})
unfolding safe_relative_path safe_target
check_member limits member file_count extracted_bytes = safe_relative_path member.name >>= λ _.
    safe_target member.symlink_target >>= λ _.
    if ltb_ℤ member.size (pos 0)
    then err (archive_safety "archive member size cannot be negative")
    else if ltb_ℤ limits.max_files (pos file_count)
    then err (archive_safety "archive file-count limit exceeded")
    else if ltb_ℤ limits.max_extracted_bytes extracted_bytes
    then err (archive_safety "archive extracted-size limit exceeded")
    else ok tt

unfoldable pub validate_from : ArchiveLimits → List ArchiveMember → ℕ → ℤ → Result ArchiveManifest
unfolding check_member
validate_from limits [] file_count extracted_bytes =
    ok (record { file_count = file_count; extracted_bytes = extracted_bytes })
validate_from limits (m ∷ ms) file_count extracted_bytes =
    check_member limits m (suc file_count) (extracted_bytes +ℤ m.size) >>= λ _.
    validate_from limits ms (suc file_count) (extracted_bytes +ℤ m.size)

unfoldable pub validate_archive_members :
    List ArchiveMember → ArchiveLimits → Result ArchiveManifest
unfolding validate_from
validate_archive_members members limits = validate_from limits members 0 (pos 0)

-- `ArchiveExtractor.extract`, in a file system `F`
unfoldable pub extract :
    {F : Type 0}
    → ArchiveLimits
    → (Text → Result (List ArchiveMember))
    → (Text → Text → F → Work F (Unit {0}))
    → Text
    → Text
    → F
    → Work F ArchiveManifest
unfolding validate_archive_members
extract limits list_members extract_7z archive target files =
    elim (list_members archive >>= λ members. validate_archive_members members limits) [
      | err e ↦ (files, err e)
      | ok manifest ↦ after (extract_7z archive target files) (λ done files'. (files', ok manifest))
    ]
