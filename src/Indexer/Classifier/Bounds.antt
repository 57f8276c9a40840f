-- ===== src/Indexer/Classifier/Bounds.antt =====
-- The range and the thresholds of `classify_audiobook`.
use lore_x.Prelude.{◌≤◌, ◌≡◌, true, false, ◌&&◌, arith, leb, ◌⊎◌}
use lore_x.Text.{codes, casefold, ends_with}
use lore_x.Domain.{ReleaseCandidate}
use lore_x.Indexer.Classifier.{
  classify_audiobook, positive_score, mentions, has_suffix, negative_terms, audio_extensions,
}

-- A score is at most 1.0 (it cannot be negative), and with a term of video or software in the
-- subject it stays below the threshold of 0.8.
pub classify_audiobook_bounds :
    (c : ReleaseCandidate)
    → (classify_audiobook c ≤ 10)
      × ((mentions negative_terms (casefold c.subject_stem) && leb 8 (classify_audiobook c))
          ≡ false)
unfolding classify_audiobook positive_score
classify_audiobook_bounds c = (ground arith, ground arith)

-- A candidate reaches the threshold of 0.8 only if its subject names an audio file or an archive.
pub classify_audiobook-needs_media :
    (c : ReleaseCandidate)
    → 8 ≤ classify_audiobook c
    → (has_suffix audio_extensions (casefold c.subject_stem) ≡ true)
      ⊎ (ends_with (codes ".archive") (casefold c.subject_stem) ≡ true)
unfolding classify_audiobook positive_score
classify_audiobook-needs_media c h = ground arith
