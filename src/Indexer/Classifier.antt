-- ===== src/Indexer/Classifier.antt =====
-- backend/lorex/indexer/classifier.py. A score is a number of tenths: every weight is one, and the
-- final rounding to three decimals removes what binary fractions add to it.
pub mod Bounds
mod Tests
use lore_x.Prelude.{
  ℕ, suc, ◌+◌, ◌-◌, ◌≡◌, refl, Bool, true, false, not, ◌&&◌, ◌||◌, List, [], ◌∷◌, any, leb, ltb,
  if◌then◌else◌, min,
}
use lore_x.Text.{Text, codes, casefold, has_part, ends_with, starts_with}
use lore_x.Domain.{ArticleHeader, ReleaseCandidate}

abbrev pub audio_extensions : List Text
audio_extensions = codes ".m4b" ∷ codes ".m4a" ∷ codes ".mp3" ∷ codes ".flac" ∷ codes ".aac" ∷ []

abbrev pub positive_terms : List Text
positive_terms = codes "audiobook" ∷ codes "unabridged" ∷ codes "narrated" ∷ codes "narrator" ∷ []

abbrev pub negative_terms : List Text
negative_terms =
    codes "1080p"
    ∷ codes "2160p"
    ∷ codes "x264"
    ∷ codes "x265"
    ∷ codes ".mkv"
    ∷ codes ".avi"
    ∷ codes "bluray"
    ∷ codes "web-dl"
    ∷ codes "software"
    ∷ []

abbrev pub software_archive_markers : List Text
software_archive_markers =
    codes "(x64)"
    ∷ codes "(x86)"
    ∷ codes " x64 "
    ∷ codes " x86 "
    ∷ codes "keygen"
    ∷ codes "crack"
    ∷ codes "activator"
    ∷ codes "+ fix"
    ∷ codes "license patch"
    ∷ codes "portable"
    ∷ codes "repack"
    ∷ []

-- `any(term in subject for term in terms)`
unfoldable pub mentions : List Text → Text → Bool
mentions terms subject = any (λ t. has_part t subject) terms

unfoldable pub has_suffix : List Text → Text → Bool
has_suffix suffixes subject = any (λ t. ends_with t subject) suffixes

-- `subject.count(" - ")`: occurrences that do not overlap, counted from the left; the first argument
-- is how many characters of the last occurrence are still to be passed.
unfoldable pub count_dashes : ℕ → Text → ℕ
count_dashes skip [] = 0
count_dashes (suc skip) (c ∷ s) = count_dashes skip s
count_dashes ℕ.zero (c ∷ s) =
    let inside = suc (count_dashes 2 s) in
    let outside = count_dashes 0 s in if starts_with (codes " - ") (c ∷ s) then inside else outside

abbrev weight : Bool → ℕ → ℕ
weight b n = if b then n else 0

-- What speaks for an audiobook.
unfoldable pub positive_score : ReleaseCandidate → Text → ℕ
positive_score candidate subject =
    weight (has_suffix audio_extensions subject || ends_with (codes ".archive") subject) 7
    + weight (mentions positive_terms subject) 2
    + weight (any (λ h. has_part (codes "audiobook") (casefold h.group)) candidate.headers) 2
    + weight (leb 2 (count_dashes 0 subject)) 1

-- An archive with a strong sign of software or video is rejected before its group counts.
unfoldable pub is_software_archive : Text → Bool
is_software_archive subject =
    ends_with (codes ".archive") subject
    && (mentions software_archive_markers subject || mentions negative_terms subject)

unfoldable pub classify_audiobook : ReleaseCandidate → ℕ
classify_audiobook candidate =
    let subject = casefold candidate.subject_stem in
    if is_software_archive subject
    then 0
    else min 10 (positive_score candidate subject - weight (mentions negative_terms subject) 8)
