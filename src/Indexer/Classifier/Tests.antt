-- ===== src/Indexer/Classifier/Tests.antt =====
-- Runs of the classifier at concrete candidates.
use lore_x.Prelude.{◌≡◌, refl, [], ◌∷◌}
use lore_x.Prelude.Int.{pos}
use lore_x.Text.{codes, text_functions}
use lore_x.Domain.{ReleaseCandidate}
use lore_x.Indexer.Classifier.{
  classify_audiobook, is_software_archive, positive_score, count_dashes, mentions, has_suffix,
}

abbrev book : ReleaseCandidate
book = record {
  subject_stem = codes "A - B - C.m4b";
  headers =
      record {
        message_id = codes "<1@x>";
        subject = codes "A";
        bytes = pos 9;
        group = codes "alt.binaries.audiobooks";
      }
      ∷ [];
}

book-score : classify_audiobook book ≡ 10
unfolding classify_audiobook is_software_archive positive_score has_suffix mentions count_dashes
    text_functions
book-score = refl
