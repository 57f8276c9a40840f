-- ===== src/Services/Indexing/Counts.antt =====
-- What the counters of `index_batches` say of the repository.
use lore_x.Prelude.{
  ℕ, suc, ◌+◌, ◌≡◌, refl, ap, ◌∙◌, sym, true, Option, none, some, List, [], ◌∷◌, ◌++◌, leb,
  if◌then◌else◌, length, arith, length-append, inl, inr, Bool-cases, Option-cases,
}
use lore_x.Result.{ok, Result-cases}
use lore_x.Process.{Process, returns, next, next_keeps, next-returned}
use lore_x.Text.{Text, is_empty}
use lore_x.Domain.{ArticleHeader, IndexCheckpoint, ReleaseCandidate}
use lore_x.Indexer.Grouper.{Grouper, new_grouper, feed_one, flush}
use lore_x.Repository.Releases.{Records, ReleaseRepository, commit_index_batch}
use lore_x.Repository.Releases.Commit.{commit_index_batch_lem}
use lore_x.Services.Indexing.{
  Indexing, IndexBatch, release_record, commit_records, inspected_one, process_candidate,
  process_candidates, process_header, process_headers, process_batches, finish_indexing,
  start_indexing, index_batches,
}

-- Every candidate that was processed has been rejected, indexed, found a duplicate or still waits to
-- be committed, and the repository has grown by the indexed ones.
pub record IsCounted (before : ReleaseRepository) (s : Indexing) : Type 0 where
  pub candidates :
      s.candidates_completed
      ≡ s.releases_rejected + s.releases_indexed + s.duplicate_releases + length s.records
  pub stored : length s.repository.items ≡ length before.items + s.releases_indexed

module _ (digest : Text → Text) (before : ReleaseRepository) where
  commit_records-IsCounted :
      (c : Option IndexCheckpoint) (s : Indexing)
      → IsCounted before s
      → IsCounted before (commit_records digest c s).0
  unfolding commit_records
  commit_records-IsCounted c s i =
      elim (Result-cases (commit_index_batch s.records c s.repository)) [
        | inl ((n, r'), done) ↦
            let (grown, few, _) = commit_index_batch_lem s.records c s.repository n r' done in
            rw (done, commit_records)
              (record {
                candidates = omega (arith, i.candidates);
                stored = omega (arith, i.stored);
              })
        | inr (e, failed) ↦ rw (failed, commit_records) i
      ]

  process_candidate-IsCounted :
      (n : ℕ) (c : ReleaseCandidate) (s : Indexing)
      → IsCounted before s
      → IsCounted before (process_candidate digest n c s).0
  unfolding process_candidate
  process_candidate-IsCounted n c s i = elim (Option-cases (release_record digest c)) [
    | inl rejected ↦
        rw (rejected, process_candidate)
          (record { candidates = omega (arith, i.candidates); stored = i.stored })
    | inr (r, accepted) ↦
        let s2 : Indexing = record (inspected_one digest c s) { records = s.records ++ r ∷ [] } in
        let i2 : IsCounted before s2 = record {
          candidates = omega (arith, i.candidates, length-append s.records (r ∷ []));
          stored = i.stored;
        } in
        elim (Bool-cases (leb n (length s2.records))) [
          | inl full ↦ rw (accepted, full, process_candidate) (commit_records-IsCounted none s2 i2)
          | inr more ↦ rw (accepted, more, process_candidate) i2
        ]
  ]

  process_candidates-IsCounted :
      (n : ℕ) (cs : List ReleaseCandidate) (s : Indexing)
      → IsCounted before s
      → IsCounted before (process_candidates digest n cs s).0
  unfolding process_candidates
  process_candidates-IsCounted n [] s i = i
  process_candidates-IsCounted n (c ∷ cs) s i =
      next_keeps (IsCounted before) (process_candidate digest n c s) _
        (process_candidate-IsCounted n c s i) (λ s' i'. process_candidates-IsCounted n cs s' i')

  process_header-IsCounted :
      (n : ℕ) (h : ArticleHeader) (s : Indexing)
      → IsCounted before s
      → IsCounted before (process_header digest n h s).0
  unfolding process_header
  process_header-IsCounted n h s i = elim (Result-cases (feed_one h s.grouper)) [
    | inl ((g, none), fed) ↦
        rw (fed, process_header) (record { candidates = i.candidates; stored = i.stored })
    | inl ((g, some c), fed) ↦
        rw (fed, process_header)
          (process_candidate-IsCounted n c
            (record s { headers_received = suc s.headers_received; grouper = g })
            (record { candidates = i.candidates; stored = i.stored }))
    | inr (e, failed) ↦
        rw (failed, process_header) (record { candidates = i.candidates; stored = i.stored })
  ]

  process_headers-IsCounted :
      (n : ℕ) (hs : List ArticleHeader) (s : Indexing)
      → IsCounted before s
      → IsCounted before (process_headers digest n hs s).0
  unfolding process_headers
  process_headers-IsCounted n [] s i = i
  process_headers-IsCounted n (h ∷ hs) s i =
      next_keeps (IsCounted before) (process_header digest n h s) _
        (process_header-IsCounted n h s i) (λ s' i'. process_headers-IsCounted n hs s' i')

  process_batches-IsCounted :
      (n : ℕ) (bs : List IndexBatch) (s : Indexing)
      → IsCounted before s
      → IsCounted before (process_batches digest n bs s).0
  unfolding process_batches
  process_batches-IsCounted n [] s i = i
  process_batches-IsCounted n (b ∷ bs) s i =
      next_keeps (IsCounted before) (process_headers digest n b.headers s) _
        (process_headers-IsCounted n b.headers s i)
        (λ s1 i1.
          next_keeps (IsCounted before) (commit_records digest b.checkpoint s1) _
            (commit_records-IsCounted b.checkpoint s1 i1)
            (λ s2 i2. process_batches-IsCounted n bs s2 i2))

  last_commit-IsCounted :
      (s : Indexing)
      → IsCounted before s
      → IsCounted before (if is_empty s.records then returns s else commit_records digest none s).0
  last_commit-IsCounted s i = elim (Bool-cases (is_empty s.records)) [
    | inl nothing ↦ rw nothing i
    | inr some_left ↦ rw some_left (commit_records-IsCounted none s i)
  ]

  finish_indexing-IsCounted :
      (n : ℕ) (s : Indexing) → IsCounted before s → IsCounted before (finish_indexing digest n s).0
  unfolding finish_indexing
  finish_indexing-IsCounted n s i =
      next_keeps (IsCounted before)
        (process_candidates digest n (flush s.grouper).1
          (record s { grouper = (flush s.grouper).0 }))
        _
        (process_candidates-IsCounted n (flush s.grouper).1
          (record s { grouper = (flush s.grouper).0 })
          (record { candidates = i.candidates; stored = i.stored }))
        last_commit-IsCounted

  run-IsCounted :
      (n : ℕ) (bs : List IndexBatch) (g : Grouper)
      → IsCounted before
          (next
            (process_batches digest n bs (start_indexing digest g before))
            (λ s. finish_indexing digest n s)).0
  run-IsCounted n bs g =
      next_keeps (IsCounted before) (process_batches digest n bs (start_indexing digest g before)) _
        (process_batches-IsCounted n bs (start_indexing digest g before)
          (record { candidates = refl; stored = omega arith }))
        (finish_indexing-IsCounted n)

-- Whether it returns or raises half-way, at every moment at which `index_batches` stops each
-- candidate that it has processed was rejected, indexed, found a duplicate, or still stands in the
-- list of records to commit, and the repository has grown by exactly the releases counted as indexed.
pub index_batches-IsCounted :
    (digest : Text → Text) (n m : ℕ) (bs : List IndexBatch) (r : ReleaseRepository)
    (p : Process Indexing)
    → index_batches digest n m bs r ≡ ok p
    → IsCounted r p.0
unfolding index_batches
index_batches-IsCounted digest n m bs r p h = elim (Result-cases (new_grouper m)) [
  | inl (g, made) ↦
      let same : next (process_batches digest n bs (start_indexing digest g r))
            (λ s. finish_indexing digest n s)
          ≡ p =
        ground (arith, h, made) in
      rw (← same) (run-IsCounted digest r n bs g)
  | inr (e, bad) ↦ absurd (ground (arith, h, bad))
]

module _ (digest : Text → Text) where
  empty-nil : (batch : Records) → is_empty batch ≡ true → batch ≡ []
  empty-nil [] h = refl
  empty-nil (e ∷ batch) h = cc

  committed-records :
      (c : Option IndexCheckpoint) (s : Indexing)
      → (commit_records digest c s).1 ≡ ok tt
      → (commit_records digest c s).0.records ≡ []
  unfolding commit_records
  committed-records c s h = elim (Result-cases (commit_index_batch s.records c s.repository)) [
    | inl (r, done) ↦ rw (done, commit_records) refl
    | inr (e, failed) ↦ absurd (ground (arith, h, failed))
  ]

  last_commit-records :
      (s s' : Indexing)
      → (if is_empty s.records then returns s else commit_records digest none s) ≡ returns s'
      → s'.records ≡ []
  last_commit-records s s' h = elim (Bool-cases (is_empty s.records)) [
    | inl nothing ↦
        let same : returns s ≡ returns s' = rw nothing at h in
        ap (λ p. p.0.records) (sym same) ∙ empty-nil s.records nothing
    | inr waiting ↦
        let same : commit_records digest none s ≡ returns s' = rw waiting at h in
        ap (λ p. p.0.records) (sym same) ∙ committed-records none s (ap (λ p. p.1) same)
  ]

-- When `index_batches` returns, no record waits any more: the processed candidates are the rejected,
-- the indexed and the duplicate ones, and the repository has grown by the indexed ones.
pub index_batches-returned :
    (digest : Text → Text) (n m : ℕ) (bs : List IndexBatch) (r : ReleaseRepository) (s : Indexing)
    → index_batches digest n m bs r ≡ ok (returns s)
    → (s.candidates_completed ≡ s.releases_rejected + s.releases_indexed + s.duplicate_releases)
      × (length s.repository.items ≡ length r.items + s.releases_indexed)
unfolding index_batches finish_indexing
index_batches-returned digest n m bs r s h = elim (Result-cases (new_grouper m)) [
  | inl (g, made) ↦
      let same : next (process_batches digest n bs (start_indexing digest g r))
            (λ s. finish_indexing digest n s)
          ≡ returns s =
        ground (arith, h, made) in
      let (_, finished) =
        next-returned (process_batches digest n bs (start_indexing digest g r)) _ same in
      let s1 = (process_batches digest n bs (start_indexing digest g r)).0 in
      let rest =
        process_candidates digest n (flush s1.grouper).1
          (record s1 { grouper = (flush s1.grouper).0 }) in
      let (_, last) =
        next-returned rest
          (λ s2. if is_empty s2.records then returns s2 else commit_records digest none s2)
          finished in
      let nothing = last_commit-records digest rest.0 s last in
      let i = index_batches-IsCounted digest n m bs r (returns s) h in
      (omega (arith, i.candidates, ap length nothing), i.stored)
  | inr (e, bad) ↦ absurd (ground (arith, h, bad))
]
