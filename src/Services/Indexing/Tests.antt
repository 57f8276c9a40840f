-- ===== src/Services/Indexing/Tests.antt =====
-- `index_batches` on a batch without headers, and on one whose checkpoint is refused.
use lore_x.Prelude.{◌≡◌, refl, [], ◌∷◌, some}
use lore_x.Prelude.Int.{pos, ◌+ℤ◌}
use lore_x.Result.{Result, ok}
use lore_x.Process.{Process, returns}
use lore_x.Text.{Text, codes, text_functions}
use lore_x.Dict.{put, get, contains}
use lore_x.Domain.{IndexCheckpoint, IndexedRelease, ArticleHeader, id_source, join, candidate_size}
use lore_x.Repository.Releases.{
  empty_repository, commit_index_batch, check_checkpoint, insert_records, set_checkpoint,
}
use lore_x.Indexer.Grouper.{new_grouper, flush, feed_one, feed_split, make_room, add_last}
use lore_x.Indexer.Group.{add, is_complete, sort_parts, to_candidate}
use lore_x.Indexer.Subject.{split_part_suffix}
use lore_x.Indexer.Classifier.{
  classify_audiobook, is_software_archive, positive_score, has_suffix, mentions, count_dashes,
}
use lore_x.Services.Indexing.{
  Indexing, IndexBatch, index_batches, process_batches, process_headers, process_header,
  process_candidate, finish_indexing, process_candidates, commit_records, release_record,
  parse_identity,
}
use lore_x.Services.Indexing.Counts.{IsCounted, index_batches-IsCounted}
use lore_x.Services.Indexing.Checkpoints.{Moved, index_batches-Moved}

abbrev digest : Text → Text
digest s = s

identity : parse_identity (codes "A - B - C.M4B") ≡ record {
  author = codes "A";
  title = codes "B";
  narrator = some (codes "C");
  format = codes "m4b";
}
unfolding parse_identity text_functions
identity = refl

abbrev book : ArticleHeader
book = record {
  message_id = codes "<1>";
  subject = codes "A - B - C.m4b [1/1]";
  bytes = pos 5;
  group = codes "audiobooks";
}

abbrev checkpoint : IndexCheckpoint
checkpoint = record { source = codes "p"; group = codes "g"; article_number = pos 9 }

abbrev batch : IndexBatch
batch = record { headers = book ∷ []; checkpoint = some checkpoint }

abbrev run : Result (Process Indexing)
run = index_batches digest 512 64 (batch ∷ []) empty_repository

abbrev release_id : Text
release_id = codes "A - B - C.m4b|<1>"

abbrev release : IndexedRelease
release = record {
  id = release_id;
  title = codes "B";
  author = codes "A";
  narrator = some (codes "C");
  format = codes "m4b";
  size = pos 5;
  completion = 1000;
  nzb = [];
  source_subject = codes "A - B - C.m4b";
}

abbrev result : Indexing
result = record {
  grouper = record {
    max_pending_groups = 64;
    pending = [];
    inspected = record { subject_stem = codes "A - B - C.m4b"; headers = book ∷ [] } ∷ [];
  };
  repository = record {
    items = (release_id, release) ∷ [];
    articles = (release_id, book ∷ []) ∷ [];
    checkpoints = ((codes "p", codes "g"), checkpoint) ∷ [];
    nzb_cache = [];
  };
  records = [];
  headers_received = 1;
  candidates_completed = 1;
  releases_indexed = 1;
  releases_rejected = 0;
  duplicate_releases = 0;
}

ran : run ≡ ok (returns result)
unfolding index_batches process_batches process_headers process_header process_candidate
    release_record commit_records finish_indexing process_candidates commit_index_batch
    check_checkpoint insert_records set_checkpoint new_grouper flush feed_one feed_split make_room
    add_last add is_complete sort_parts to_candidate split_part_suffix classify_audiobook
    is_software_archive positive_score has_suffix mentions count_dashes parse_identity id_source
    join candidate_size put get contains ◌+ℤ◌ text_functions
ran = refl

index_batches-IsCounted_example : IsCounted empty_repository result
index_batches-IsCounted_example =
    index_batches-IsCounted digest 512 64 (batch ∷ []) empty_repository (returns result) ran

index_batches-Moved_example : Moved checkpoint empty_repository.checkpoints (returns result)
index_batches-Moved_example =
    index_batches-Moved digest 512 64 batch checkpoint empty_repository (returns result) refl ran
