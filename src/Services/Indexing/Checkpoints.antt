-- ===== src/Services/Indexing/Checkpoints.antt =====
-- When `index_batches` moves a checkpoint.
use lore_x.Prelude.{
  ℕ, suc, ◌≡◌, ◌⊎◌, refl, ap, ◌∙◌, none, some, List, [], ◌∷◌, ◌++◌, leb, length, arith, inl, inr,
  Bool-cases, Option-cases, list_eq, nat_eq, pair_eq,
}
use lore_x.Result.{ok, err, Error, Result-cases}
use lore_x.Process.{Process, next, next_keeps}
use lore_x.Text.{Text, is_empty}
use lore_x.Dict.{Dict, put}
use lore_x.Domain.{ArticleHeader, IndexCheckpoint, ReleaseCandidate}
use lore_x.Indexer.Grouper.{new_grouper, feed_one, flush}
use lore_x.Repository.Releases.{
  ReleaseRepository, commit_index_batch, check_checkpoint, set_checkpoint,
}
use lore_x.Repository.Releases.Commit.{insert_records-checkpoints, commit-checkpoints}
use lore_x.Services.Indexing.{
  Indexing, IndexBatch, release_record, commit_records, inspected_one, process_candidate,
  process_candidates, process_header, process_headers, process_batches, finish_indexing,
  start_indexing, index_batches,
}

abbrev pub Checkpoints : Type 0
Checkpoints = Dict (Text × Text) IndexCheckpoint

-- A process that returns and leaves the checkpoints alone.
abbrev Quiet : Checkpoints → Process Indexing → Type 0
Quiet cs p = (p.0.repository.checkpoints ≡ cs) × (p.1 ≡ ok tt)

next-Quiet :
    (cs : Checkpoints) (m : Process Indexing) (f : Indexing → Process Indexing)
    → Quiet cs m
    → ((s : Indexing) → s.repository.checkpoints ≡ cs → Quiet cs (f s))
    → Quiet cs (next m f)
next-Quiet cs (s, err e) f (_, h) later = absurd cc
next-Quiet cs (s, ok tt) f (same, _) later = later s same

module _ (digest : Text → Text) (cs : Checkpoints) where
  -- Without a checkpoint a commit cannot fail.
  commit_records-Quiet :
      (s : Indexing) → s.repository.checkpoints ≡ cs → Quiet cs (commit_records digest none s)
  unfolding commit_records commit_index_batch check_checkpoint set_checkpoint
  commit_records-Quiet s h = (insert_records-checkpoints s.records s.repository ∙ h, refl)

  process_candidate-Quiet :
      (n : ℕ) (c : ReleaseCandidate) (s : Indexing)
      → s.repository.checkpoints ≡ cs
      → Quiet cs (process_candidate digest n c s)
  unfolding process_candidate
  process_candidate-Quiet n c s h = elim (Option-cases (release_record digest c)) [
    | inl rejected ↦ rw (rejected, process_candidate) (h, refl)
    | inr (r, accepted) ↦
        let s2 : Indexing = record (inspected_one digest c s) { records = s.records ++ r ∷ [] } in
        elim (Bool-cases (leb n (length s2.records))) [
          | inl full ↦ rw (accepted, full, process_candidate) (commit_records-Quiet s2 h)
          | inr more ↦ rw (accepted, more, process_candidate) (h, refl)
        ]
  ]

  process_candidates-Quiet :
      (n : ℕ) (xs : List ReleaseCandidate) (s : Indexing)
      → s.repository.checkpoints ≡ cs
      → Quiet cs (process_candidates digest n xs s)
  unfolding process_candidates
  process_candidates-Quiet n [] s h = (h, refl)
  process_candidates-Quiet n (c ∷ xs) s h =
      next-Quiet cs (process_candidate digest n c s) _ (process_candidate-Quiet n c s h)
        (λ s' h'. process_candidates-Quiet n xs s' h')

  finish_indexing-Quiet :
      (n : ℕ) (s : Indexing) → s.repository.checkpoints ≡ cs → Quiet cs (finish_indexing digest n s)
  unfolding finish_indexing
  finish_indexing-Quiet n s h =
      next-Quiet cs
        (process_candidates digest n (flush s.grouper).1
          (record s { grouper = (flush s.grouper).0 }))
        _
        (process_candidates-Quiet n (flush s.grouper).1 (record s { grouper = (flush s.grouper).0 })
          h)
        (λ s1 h1. elim (Bool-cases (is_empty s1.records)) [
          | inl nothing ↦ rw nothing (h1, refl)
          | inr waiting ↦ rw waiting (commit_records-Quiet s1 h1)
        ])

  process_headers-checkpoints :
      (n : ℕ) (hs : List ArticleHeader) (s : Indexing)
      → s.repository.checkpoints ≡ cs
      → (process_headers digest n hs s).0.repository.checkpoints ≡ cs
  unfolding process_headers process_header
  process_headers-checkpoints n [] s h = h
  process_headers-checkpoints n (x ∷ hs) s h =
      next_keeps (λ t. t.repository.checkpoints ≡ cs) (process_header digest n x s) _
        (elim (Result-cases (feed_one x s.grouper)) [
          | inl ((g, none), fed) ↦ rw (fed, process_header) h
          | inl ((g, some c), fed) ↦
              rw (fed, process_header)
                (process_candidate-Quiet n c
                  (record s { headers_received = suc s.headers_received; grouper = g }) h).0
          | inr (e, failed) ↦ rw (failed, process_header) h
        ])
        (λ s' h'. process_headers-checkpoints n hs s' h')

-- The run over one batch: the checkpoint is the batch's if it returns, and the old one if not.
abbrev pub Moved : IndexCheckpoint → Checkpoints → Process Indexing → Type 0
Moved c cs p =
    ((p.1 ≡ ok tt) × (p.0.repository.checkpoints ≡ put (c.source, c.group) c cs))
    ⊎ ((e : Error) × (p.1 ≡ err e) × (p.0.repository.checkpoints ≡ cs))

Moved-next :
    (c : IndexCheckpoint) (cs : Checkpoints) (m : Process Indexing)
    (f : Indexing → Process Indexing)
    → Moved c cs m
    → ((s : Indexing)
        → s.repository.checkpoints ≡ put (c.source, c.group) c cs
        → Quiet (put (c.source, c.group) c cs) (f s))
    → Moved c cs (next m f)
Moved-next c cs (s, err e) f (inl (h, _)) later = absurd cc
Moved-next c cs (s, err e) f (inr h) later = inr h
Moved-next c cs (s, ok tt) f (inl (_, h)) later = inl ((later s h).1, (later s h).0)
Moved-next c cs (s, ok tt) f (inr (e, h, _)) later = absurd cc

next-Moved :
    (c : IndexCheckpoint) (cs : Checkpoints) (m : Process Indexing)
    (f : Indexing → Process Indexing)
    → m.0.repository.checkpoints ≡ cs
    → ((s : Indexing) → s.repository.checkpoints ≡ cs → Moved c cs (f s))
    → Moved c cs (next m f)
next-Moved c cs (s, err e) f h later = inr (e, refl, h)
next-Moved c cs (s, ok tt) f h later = later s h

commit_records-Moved :
    (digest : Text → Text) (c : IndexCheckpoint) (cs : Checkpoints) (s : Indexing)
    → s.repository.checkpoints ≡ cs
    → Moved c cs (commit_records digest (some c) s)
unfolding commit_records
commit_records-Moved digest c cs s h =
    elim (Result-cases (commit_index_batch s.records (some c) s.repository)) [
      | inl ((n, r'), done) ↦
          rw (done, commit_records)
            (inl (
              refl,
              commit-checkpoints s.records c s.repository n r' done
                  ∙ ap (put (c.source, c.group) c) h,
            ))
      | inr (e, failed) ↦ rw (failed, commit_records) (inr (e, refl, h))
    ]

run-Moved :
    (digest : Text → Text) (n : ℕ) (b : IndexBatch) (c : IndexCheckpoint) (s : Indexing)
    → b.checkpoint ≡ some c
    → Moved c s.repository.checkpoints
        (next (process_batches digest n (b ∷ []) s) (λ s3. finish_indexing digest n s3))
unfolding process_batches
run-Moved digest n b c s named =
    let cs = s.repository.checkpoints in
    Moved-next c cs (process_batches digest n (b ∷ []) s) _
      (rw (named, process_batches)
        (next-Moved c cs (process_headers digest n b.headers s) _
          (process_headers-checkpoints digest cs n b.headers s refl)
          (λ s1 h.
            Moved-next c cs (commit_records digest (some c) s1) _
              (commit_records-Moved digest c cs s1 h) (λ s2 k. (k, refl)))))
      (λ s3 k. finish_indexing-Quiet digest (put (c.source, c.group) c cs) n s3 k)

-- A run over one batch with a checkpoint either returns, and then the repository has that checkpoint
-- and every other one as before, or it raises, and then every checkpoint is as before.
pub index_batches-Moved :
    (digest : Text → Text) (n m : ℕ) (b : IndexBatch) (c : IndexCheckpoint) (r : ReleaseRepository)
    (p : Process Indexing)
    → b.checkpoint ≡ some c
    → index_batches digest n m (b ∷ []) r ≡ ok p
    → Moved c r.checkpoints p
unfolding index_batches
index_batches-Moved digest n m b c r p named h = elim (Result-cases (new_grouper m)) [
  | inl (g, made) ↦
      let same : next (process_batches digest n (b ∷ []) (start_indexing digest g r))
            (λ s. finish_indexing digest n s)
          ≡ p =
        ground (arith, h, made) in
      rw (← same) (run-Moved digest n b c (start_indexing digest g r) named)
  | inr (e, bad) ↦ absurd (ground (arith, h, bad))
]

-- A run over one batch that names no checkpoint leaves every checkpoint as it was.
pub index_batches-unmoved :
    (digest : Text → Text) (n m : ℕ) (b : IndexBatch) (r : ReleaseRepository) (p : Process Indexing)
    → b.checkpoint ≡ none
    → index_batches digest n m (b ∷ []) r ≡ ok p
    → p.0.repository.checkpoints ≡ r.checkpoints
unfolding index_batches process_batches
index_batches-unmoved digest n m b r p unnamed h = elim (Result-cases (new_grouper m)) [
  | inl (g, made) ↦
      let same : next (process_batches digest n (b ∷ []) (start_indexing digest g r))
            (λ s. finish_indexing digest n s)
          ≡ p =
        ground (arith, h, made) in
      rw (← same) (
        next_keeps (λ t. t.repository.checkpoints ≡ r.checkpoints)
          (process_batches digest n (b ∷ []) (start_indexing digest g r)) _
          (next_keeps (λ t. t.repository.checkpoints ≡ r.checkpoints)
            (process_headers digest n b.headers (start_indexing digest g r)) _
            (process_headers-checkpoints digest r.checkpoints n b.headers
              (start_indexing digest g r) refl)
            (λ s1 h1. rw unnamed (
              next_keeps (λ t. t.repository.checkpoints ≡ r.checkpoints)
                (commit_records digest none s1) _
                (commit_records-Quiet digest r.checkpoints s1 h1).0 (λ t k. k))))
          (λ s h1. (finish_indexing-Quiet digest r.checkpoints n s h1).0))
  | inr (e, bad) ↦ absurd (ground (arith, h, bad))
]
