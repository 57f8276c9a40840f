-- ===== src/Domain.antt =====
-- The records of backend/lorex/domain.py.
use lore_x.Prelude.{ℕ, Option, List, [], ◌∷◌, ◌++◌, map}
use lore_x.Prelude.Int.{ℤ, sum_ℤ}
use lore_x.Text.{Text, codes}

pub record ArticleHeader : Type 0 where
  pub message_id : Text
  pub subject : Text
  pub bytes : ℤ
  pub group : Text

pub record IndexCheckpoint : Type 0 where
  pub source : Text
  pub group : Text
  pub article_number : ℤ

pub record ReleaseCandidate : Type 0 where
  pub subject_stem : Text
  pub headers : List ArticleHeader

-- `sep.join(parts)`
unfoldable pub join : Text → List Text → Text
join sep [] = []
join sep (p ∷ []) = p
join sep (p ∷ q ∷ ps) = p ++ (sep ++ join sep (q ∷ ps))

-- The text that `ReleaseCandidate.id` hashes.
unfoldable pub id_source : ReleaseCandidate → Text
unfolding join
id_source c = c.subject_stem ++ (codes "|" ++ join (codes "|") (map (λ h. h.message_id) c.headers))

unfoldable pub candidate_size : ReleaseCandidate → ℤ
candidate_size c = sum_ℤ (map (λ h. h.bytes) c.headers)

-- The completion is a share in thousandths: the code only ever writes 1.0.
pub record IndexedRelease : Type 0 where
  pub id : Text
  pub title : Text
  pub author : Text
  pub narrator : Option Text
  pub format : Text
  pub size : ℤ
  pub completion : ℕ
  pub nzb : Text
  pub source_subject : Text

pub record DownloadJob : Type 0 where
  pub id : Text
  pub release_id : Text
  pub status : Text

pub record DownloadArticleState : Type 0 where
  pub job_id : Text
  pub message_id : Text
  pub status : Text
  pub provider : Option Text
  pub attempts : ℕ
  pub bytes_completed : ℤ

pub record ProviderHealthSnapshot : Type 0 where
  pub provider : Text
  pub attempts : ℕ
  pub successes : ℕ
  pub failures : ℕ
  pub fallbacks : ℕ
  pub bytes_delivered : ℤ
  pub elapsed_ms_total : ℤ

pub record DownloadResult : Type 0 where
  pub release_id : Text
  pub title : Text
  pub author : Text
  pub narrator : Option Text
  pub format : Text
  pub file_name : Text
  pub size : ℤ
  pub staging_dir : Option Text
  pub article_paths : List Text
  pub article_subjects : List Text

pub record LibraryBook : Type 0 where
  pub id : Text
  pub title : Text
  pub author : Text
  pub narrator : Option Text
  pub format : Text
  pub path : Text
  pub size : ℤ
