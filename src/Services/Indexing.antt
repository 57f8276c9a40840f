-- ===== src/Services/Indexing.antt =====
-- backend/lorex/services/indexing.py. The digest of a candidate's id (the first 16 digits of a SHA-1)
-- is a parameter; the calls of `inspect_candidate` go into the grouper's log.
pub mod Checkpoints
pub mod Counts
mod Tests
use lore_x.Prelude.{
  ℕ, zero, suc, ◌+◌, ◌-◌, ◌≡◌, Bool, true, false, not, ◌&&◌, Option, none, some, List, [], ◌∷◌,
  ◌++◌, any, leb, ltb, if◌then◌else◌, length, min, max, ◌=?◌, nat_eq, list_eq,
}
use lore_x.Result.{Result, ok, err, value_error}
use lore_x.Process.{Process, returns, raises, next}
use lore_x.Text.{Text, codes, is_empty, strip, casefold, rpartition, starts_with}
use lore_x.Domain.{
  ArticleHeader, IndexCheckpoint, IndexedRelease, ReleaseCandidate, id_source, candidate_size,
}
use lore_x.Indexer.Classifier.{classify_audiobook}
use lore_x.Indexer.Grouper.{Grouper, new_grouper, feed_one, flush}
use lore_x.Repository.Releases.{Records, ReleaseRepository, commit_index_batch}

abbrev pub indexable_formats : List Text
indexable_formats =
    codes "m4b" ∷ codes "m4a" ∷ codes "mp3" ∷ codes "flac" ∷ codes "aac" ∷ codes "archive" ∷ []

-- `clean.split(" - ")`; the first argument is how much of a separator is still to be passed.
unfoldable pub split_dashes : ℕ → Text → Text × List Text
split_dashes skip [] = ([], [])
split_dashes (suc skip) (c ∷ s) = split_dashes skip s
split_dashes zero (c ∷ s) =
    let behind = split_dashes 2 s in
    let within = split_dashes 0 s in
    if starts_with (codes " - ") (c ∷ s)
    then ([], behind.0 ∷ behind.1)
    else (c ∷ within.0, within.1)

-- `[part.strip() for part in … if part.strip()]`
unfoldable pub stripped_parts : List Text → List Text
stripped_parts [] = []
stripped_parts (p ∷ ps) =
    let rest = stripped_parts ps in if is_empty (strip p) then rest else strip p ∷ rest

pub record Identity : Type 0 where
  pub author : Text
  pub title : Text
  pub narrator : Option Text
  pub format : Text

abbrev pub or_unknown : Text → Text
or_unknown [] = codes "unknown"
or_unknown (c ∷ s) = c ∷ s

-- The format and the text without its suffix.
unfoldable pub format_of : Text → Text × Text
format_of subject = elim (rpartition b'.' subject) [
  | none ↦ (codes "unknown", strip subject)
  | some (stem, suffix) ↦
      let fmt = or_unknown (casefold suffix) in
      (fmt, if any (λ f. f =? fmt) indexable_formats then strip stem else strip subject)
]

unfoldable pub identity_of : Text → Text → List Text → Identity
identity_of fmt clean (author ∷ title ∷ narrator ∷ more) = record {
  author = author;
  title = title;
  narrator = some narrator;
  format = fmt;
}
identity_of fmt clean (author ∷ title ∷ []) = record {
  author = author;
  title = title;
  narrator = none;
  format = fmt;
}
identity_of fmt clean (only ∷ []) = record {
  author = codes "Unknown Author";
  title = clean;
  narrator = none;
  format = fmt;
}
identity_of fmt clean [] = record {
  author = codes "Unknown Author";
  title = clean;
  narrator = none;
  format = fmt;
}

unfoldable pub parse_identity : Text → Identity
unfolding format_of identity_of split_dashes stripped_parts
parse_identity subject =
    let (fmt, clean) = format_of subject in
    let (first, rest) = split_dashes 0 clean in
    identity_of fmt clean (stripped_parts (first ∷ rest))

-- The state of `index_batches`.
pub record Indexing : Type 0 where
  pub grouper : Grouper
  pub repository : ReleaseRepository
  pub records : Records
  pub headers_received : ℕ
  pub candidates_completed : ℕ
  pub releases_indexed : ℕ
  pub releases_rejected : ℕ
  pub duplicate_releases : ℕ

pub record IndexBatch : Type 0 where
  pub headers : List ArticleHeader
  pub checkpoint : Option IndexCheckpoint

module _ (digest : Text → Text) where
  -- `_release_record`, behind the call of `inspect_candidate`.
  unfoldable pub release_record : ReleaseCandidate → Option (IndexedRelease × List ArticleHeader)
  unfolding parse_identity
  release_record candidate =
      if ltb (classify_audiobook candidate) 8
      then none
      else let identity = parse_identity candidate.subject_stem in
        some (
          record {
            id = digest (id_source candidate);
            title = identity.title;
            author = identity.author;
            narrator = identity.narrator;
            format = identity.format;
            size = candidate_size candidate;
            completion = 1000;
            nzb = [];
            source_subject = candidate.subject_stem;
          },
          candidate.headers,
        )

  -- `commit_records`
  unfoldable pub commit_records : Option IndexCheckpoint → Indexing → Process Indexing
  commit_records checkpoint s = elim (commit_index_batch s.records checkpoint s.repository) [
    | err e ↦ raises e s
    | ok (inserted, repository) ↦ returns (record s {
      repository = repository;
      releases_indexed = s.releases_indexed + inserted;
      duplicate_releases = s.duplicate_releases + (length s.records - inserted);
      records = [];
    })
  ]

  abbrev pub inspected_one : ReleaseCandidate → Indexing → Indexing
  inspected_one candidate s = record s {
    grouper = record s.grouper { inspected = s.grouper.inspected ++ candidate ∷ [] };
    candidates_completed = suc s.candidates_completed;
  }

  unfoldable pub process_candidate : ℕ → ReleaseCandidate → Indexing → Process Indexing
  unfolding release_record commit_records
  process_candidate batch_size candidate s =
      let s1 = inspected_one candidate s in
      elim (release_record candidate) [
        | none ↦ returns (record s1 { releases_rejected = suc s.releases_rejected })
        | some r ↦
            let s2 : Indexing = record s1 { records = s.records ++ r ∷ [] } in
            let committed = commit_records none s2 in
            if leb batch_size (length s2.records) then committed else returns s2
      ]

  unfoldable pub process_candidates : ℕ → List ReleaseCandidate → Indexing → Process Indexing
  process_candidates batch_size [] s = returns s
  process_candidates batch_size (c ∷ cs) s =
      next (process_candidate batch_size c s) (λ s'. process_candidates batch_size cs s')

  -- One header of a batch.
  unfoldable pub process_header : ℕ → ArticleHeader → Indexing → Process Indexing
  unfolding process_candidate
  process_header batch_size h s =
      let s1 : Indexing = record s { headers_received = suc s.headers_received } in
      elim (feed_one h s.grouper) [
        | err e ↦ raises e s1
        | ok (g, none) ↦ returns (record s1 { grouper = g })
        | ok (g, some candidate) ↦
            process_candidate batch_size candidate (record s1 { grouper = g })
      ]

  unfoldable pub process_headers : ℕ → List ArticleHeader → Indexing → Process Indexing
  process_headers batch_size [] s = returns s
  process_headers batch_size (h ∷ hs) s =
      next (process_header batch_size h s) (λ s'. process_headers batch_size hs s')

  -- The loop over the batches.
  unfoldable pub process_batches : ℕ → List IndexBatch → Indexing → Process Indexing
  process_batches batch_size [] s = returns s
  process_batches batch_size (b ∷ bs) s =
      next (process_headers batch_size b.headers s)
        (λ s1. next (commit_records b.checkpoint s1) (λ s2. process_batches batch_size bs s2))

  -- What follows the loop.
  unfoldable pub finish_indexing : ℕ → Indexing → Process Indexing
  unfolding process_candidates commit_records
  finish_indexing batch_size s =
      let (g, candidates) = flush s.grouper in
      next (process_candidates batch_size candidates (record s { grouper = g }))
        (λ s1. if is_empty s1.records then returns s1 else commit_records none s1)

  abbrev pub start_indexing : Grouper → ReleaseRepository → Indexing
  start_indexing grouper repository = record {
    grouper = grouper;
    repository = repository;
    records = [];
    headers_received = 0;
    candidates_completed = 0;
    releases_indexed = 0;
    releases_rejected = 0;
    duplicate_releases = 0;
  }

  -- `index_batches`; a failing argument leaves no state, only the error.
  unfoldable pub index_batches :
      ℕ → ℕ → List IndexBatch → ReleaseRepository → Result (Process Indexing)
  unfolding process_batches finish_indexing
  index_batches batch_size max_pending_groups batches repository =
      if ltb batch_size 1
      then err (value_error "batch_size must be at least 1")
      else (elim (new_grouper max_pending_groups) [
        | err e ↦ err e
        | ok grouper ↦ ok (
            next (process_batches batch_size batches (start_indexing grouper repository))
              (λ s. finish_indexing batch_size s))
      ])
