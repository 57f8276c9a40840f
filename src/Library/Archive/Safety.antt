-- ===== src/Library/Archive/Safety.antt =====
-- Archives that pass the validation (library/archive.py).
use lore_x.Prelude.{
  ℕ, suc, ◌+◌, ◌≡◌, sym, ◌∙◌, Bool, false, Option, none, some, List, [], ◌∷◌, map, All, length,
  arith, if◌then◌else◌,
}
use lore_x.Prelude.Int.{ℤ, pos, ◌+ℤ◌, ◌≤ℤ◌, ltb_ℤ, sum_ℤ, int_laws, eq_of_parts}
use lore_x.Result.{Result, ok, err, Error, >>=-eq-ok}
use lore_x.Text.{Text}
use lore_x.Library.Archive.Within.{IsWithin, is_safe_path-IsWithin}
use lore_x.Library.Archive.{
  ArchiveLimits, archive_limits, ArchiveMember, ArchiveManifest, safe_relative_path, safe_target,
  check_member, validate_from, validate_archive_members,
}

abbrev pub IsSafeTarget : Option Text → Type 0
IsSafeTarget none = Unit
IsSafeTarget (some target) = IsWithin target

abbrev pub IsSafe : ArchiveMember → Type 0
IsSafe m = IsWithin m.name × IsSafeTarget m.symlink_target × (pos 0 ≤ℤ m.size)

safe_relative_path-IsWithin : (s : Text) {u : Unit {0}} → safe_relative_path s ≡ ok u → IsWithin s
unfolding safe_relative_path
safe_relative_path-IsWithin s h = is_safe_path-IsWithin s (ground (arith, h))

safe_target-IsSafeTarget : (o : Option Text) {u : Unit {0}} → safe_target o ≡ ok u → IsSafeTarget o
unfolding safe_target
safe_target-IsSafeTarget none h = tt
safe_target-IsSafeTarget (some s) h = safe_relative_path-IsWithin s h

limits_lem :
    (a b c : Bool) (e1 e2 e3 : Error) {u : Unit {0}}
    → ◌≡◌ {A = Result (Unit {0})}
        (if a then err e1 else (if b then err e2 else (if c then err e3 else ok tt)))
        (ok u)
    → (a ≡ false) × (b ≡ false) × (c ≡ false)
limits_lem a b c e1 e2 e3 h = ground (arith, h)

check_member-IsSafe :
    (limits : ArchiveLimits) (m : ArchiveMember) (n : ℕ) (b : ℤ) {u : Unit {0}}
    → check_member limits m n b ≡ ok u
    → IsSafe m × (pos n ≤ℤ limits.max_files) × (b ≤ℤ limits.max_extracted_bytes)
unfolding check_member
check_member-IsSafe limits m n b h =
    let (_, named, rest) = >>=-eq-ok (safe_relative_path m.name) _ h in
    let (_, linked, rest') = >>=-eq-ok (safe_target m.symlink_target) _ rest in
    let (whole, few, small) =
      limits_lem (ltb_ℤ m.size (pos 0)) (ltb_ℤ limits.max_files (pos n))
        (ltb_ℤ limits.max_extracted_bytes b) _ _ _ rest' in
    (
      (
        safe_relative_path-IsWithin m.name named,
        safe_target-IsSafeTarget m.symlink_target linked,
        ground (arith, whole),
      ),
      ground (arith, few),
      ground (arith, small),
    )

validate_from-IsSafe :
    (limits : ArchiveLimits) (ms : List ArchiveMember) (n : ℕ) (b : ℤ) (manifest : ArchiveManifest)
    → validate_from limits ms n b ≡ ok manifest
    → pos n ≤ℤ limits.max_files
    → b ≤ℤ limits.max_extracted_bytes
    → All IsSafe ms
      × (manifest.file_count ≡ n + length ms)
      × (manifest.extracted_bytes ≡ b +ℤ sum_ℤ (map (λ m. m.size) ms))
      × (pos manifest.file_count ≤ℤ limits.max_files)
      × (manifest.extracted_bytes ≤ℤ limits.max_extracted_bytes)
unfolding validate_from
validate_from-IsSafe limits [] n b manifest h few small =
    let count : n ≡ manifest.file_count = ground (arith, h) in
    let bytes : b ≡ manifest.extracted_bytes = ground (arith, h) in
    (
      tt,
      omega (arith, count),
      sym bytes ∙ eq_of_parts _ _ (omega int_laws),
      rw (sym count) few,
      rw (sym bytes) small,
    )
validate_from-IsSafe limits (m ∷ ms) n b manifest h few small =
    let (_, checked, rest) = >>=-eq-ok (check_member limits m (suc n) (b +ℤ m.size)) _ h in
    let (safe, few', small') = check_member-IsSafe limits m (suc n) (b +ℤ m.size) checked in
    let (others, count, total, most, bytes) =
      validate_from-IsSafe limits ms (suc n) (b +ℤ m.size) manifest rest few' small' in
    ((safe, others), omega (arith, count), total ∙ eq_of_parts _ _ (omega int_laws), most, bytes)

archive_limits_lem :
    (max_files max_bytes : ℤ) (limits : ArchiveLimits)
    → archive_limits max_files max_bytes ≡ ok limits
    → (limits.max_files ≡ max_files)
      × (limits.max_extracted_bytes ≡ max_bytes)
      × (pos 0 ≤ℤ max_files)
      × (pos 0 ≤ℤ max_bytes)
unfolding archive_limits
archive_limits_lem max_files max_bytes limits h = ground (arith, h)

-- An archive that passes, under limits that were accepted, has only safe members: every name and every
-- link is a path that is not empty and leads from any directory, part by part, with slashes and
-- backslashes between the parts, to that directory or below it, and no size is negative. Its manifest
-- counts them all and adds their sizes up, and keeps both limits.
pub validate_archive_members-IsSafe :
    (max_files max_bytes : ℤ) (limits : ArchiveLimits) (members : List ArchiveMember)
    (manifest : ArchiveManifest)
    → archive_limits max_files max_bytes ≡ ok limits
    → validate_archive_members members limits ≡ ok manifest
    → All IsSafe members
      × (manifest.file_count ≡ length members)
      × (manifest.extracted_bytes ≡ sum_ℤ (map (λ m. m.size) members))
      × (pos manifest.file_count ≤ℤ max_files)
      × (manifest.extracted_bytes ≤ℤ max_bytes)
unfolding validate_archive_members
validate_archive_members-IsSafe max_files max_bytes limits members manifest accepted passed =
    let (files, bytes, few, small) = archive_limits_lem max_files max_bytes limits accepted in
    let (safe, count, total, most, size) =
      validate_from-IsSafe limits members 0 (pos 0) manifest passed (rw files few)
        (rw bytes small) in
    (
      safe,
      omega (arith, count),
      total ∙ eq_of_parts _ _ (omega int_laws),
      rw (sym files) most,
      rw (sym bytes) size,
    )
