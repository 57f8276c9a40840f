-- ===== src/Services/Downloads/Finished.antt =====
-- What becomes of a claimed job (services/download_jobs.py).
use lore_x.Prelude.{
  ℕ, ◌≡◌, ◌⊎◌, refl, sym, ap, ◌∙◌, Bool, true, false, not, inl, inr, Option, none, some,
  Option-cases, List, if◌then◌else◌, ◌=?◌, nat_eq, list_eq,
}
use lore_x.Result.{Result, ok, err, Error, runtime_error, Result-cases}
use lore_x.Text.{Text, codes, is_empty}
use lore_x.Dict.{get, put, get-put, get-put_self, put-put}
use lore_x.Process.{Work}
use lore_x.Downloader.Engine.{Engine}
use lore_x.Downloader.Engine.Kept.{IsDownloaded, download_job-IsDownloaded, mark_eq}
use lore_x.Domain.{ArticleHeader, DownloadJob, DownloadResult, IndexedRelease, LibraryBook}
use lore_x.Repository.Jobs.{
  JobRepository, queued, downloading, completed, failed, with_status, claim_next, mark_completed,
  mark_failed,
}
use lore_x.Repository.Jobs.Claims.{IsQueue, NotQueued, Claimed, claim_next-Claimed}
use lore_x.Services.Downloads.{
  DownloadProcessResult, OptionalMethods, Container, download_release, is_explicit_mock_release,
  set_status, live_download, cancel_requested, marked, failed_result, completed_result,
  import_result, completed_with, finish_download, failed_with, process_claimed, process_claim,
  processed, process_next_download,
}

abbrev pub no_methods : OptionalMethods
no_methods = record {
  set_runtime_status = none;
  is_cancel_requested = none;
  mark_canceled = none;
  find_active_for_release = none;
}

-- The call has returned, and the job has ended as the result says.
abbrev pub Ended :
    DownloadJob → JobRepository → JobRepository × Result DownloadProcessResult → Type 0
Ended job before w =
    (result : DownloadProcessResult) × (w.1 ≡ ok result)
    × (result.job_id ≡ job.id)
    × ((result.status ≡ completed) ⊎ (result.status ≡ failed))
    × (w.0.jobs ≡ put job.id (with_status result.status job) before.jobs)

-- The same; or an exception, with the jobs as they were or this one failed.
abbrev pub Tried :
    DownloadJob → JobRepository → JobRepository × Result DownloadProcessResult → Type 0
Tried job before w =
    Ended job before w
    ⊎ ((e : Error) × (w.1 ≡ err e)
        × ((w.0.jobs ≡ before.jobs) ⊎ (w.0.jobs ≡ put job.id (with_status failed job) before.jobs)))

module _ (container : Container) (job : DownloadJob) (before : JobRepository) where
  failed-Ended :
      (e : Error) (r : JobRepository)
      → r.jobs ≡ before.jobs
      → get job.id before.jobs ≡ some job
      → Ended job before (marked container r (mark_failed job.id r) (failed_result container job e))
  unfolding mark_failed
  failed-Ended e r same there = rw (mark_eq failed job.id r job (ap (get job.id) same ∙ there)) (
    failed_result container job e,
    refl,
    refl,
    inr refl,
    ap (put job.id (with_status failed job)) same,
  )

  failed_again-Ended :
      (e : Error) (r : JobRepository)
      → r.jobs ≡ put job.id (with_status failed job) before.jobs
      → Ended job before (marked container r (mark_failed job.id r) (failed_result container job e))
  unfolding mark_failed
  failed_again-Ended e r same =
      let there : get job.id r.jobs ≡ some (with_status failed job) =
        ap (get job.id) same ∙ get-put_self job.id (with_status failed job) before.jobs in
      rw (mark_eq failed job.id r (with_status failed job) there) (
        failed_result container job e,
        refl,
        refl,
        inr refl,
        ap (put job.id (with_status failed job)) same ∙ put-put job.id _ _ before.jobs,
      )

  completed_with-Tried :
      (w : JobRepository × Result LibraryBook)
      → w.0.jobs ≡ before.jobs
      → get job.id before.jobs ≡ some job
      → Tried job before (completed_with container job w)
  unfolding mark_completed
  completed_with-Tried (r, err e) same there = inr (e, refl, inl same)
  completed_with-Tried (r, ok book) same there =
      rw (mark_eq completed job.id r job (ap (get job.id) same ∙ there)) (
        inl (
          completed_result container job book,
          refl,
          refl,
          inl refl,
          ap (put job.id (with_status completed job)) same,
        ))

  failed_with-Ended :
      (w : JobRepository × Result DownloadProcessResult)
      → Tried job before w
      → get job.id before.jobs ≡ some job
      → Ended job before (failed_with container job w)
  failed_with-Ended (r, ok result) (inl h) there = h
  failed_with-Ended (r, ok result) (inr (e, h, _)) there = absurd cc
  failed_with-Ended (r, err e) (inl (_, h, _, _, _)) there = absurd cc
  failed_with-Ended (r, err e) (inr (_, _, inl same)) there = failed-Ended e r same there
  failed_with-Ended (r, err e) (inr (_, _, inr same)) there = failed_again-Ended e r same

imported_jobs :
    (b : Bool) (o : Option (DownloadResult → Result Text)) (result : DownloadResult)
    (f : Text → Result LibraryBook) (x : Result LibraryBook) (r first second : JobRepository)
    → first ≡ r
    → second ≡ r
    → (if b then (second, x) else (elim o as (λ p. JobRepository × Result LibraryBook) [
      | none ↦ (first, err (runtime_error "Physical post-processing is unavailable"))
      | some process ↦ elim (process result) as (λ p. JobRepository × Result LibraryBook) [
        | err e ↦ (first, err e)
        | ok path ↦ (second, f path)
      ]
    ])).0.jobs
      ≡ r.jobs
imported_jobs true o result f x r first second a b = ap (λ t. t.jobs) b
imported_jobs false none result f x r first second a b = ap (λ t. t.jobs) a
imported_jobs false (some process) result f x r first second a b =
    elim (Result-cases (process result)) [
      | inl (path, done) ↦ rw done (ap (λ t. t.jobs) b)
      | inr (e, refused) ↦ rw refused (ap (λ t. t.jobs) a)
    ]

module _ (container : Container) (plain : container.optional ≡ no_methods) where
  set_status-plain : (id status : Text) (r : JobRepository) → set_status container id status r ≡ r
  unfolding set_status
  set_status-plain id status r =
      ap
        (λ o. elim o.set_runtime_status as (λ x. JobRepository) [
          | none ↦ r
          | some setter ↦ setter id status r
        ])
        plain

  cancel_requested-plain : (id : Text) (r : JobRepository) → cancel_requested container id r ≡ false
  unfolding cancel_requested
  cancel_requested-plain id r =
      ap
        (λ o. elim o.is_cancel_requested as (λ x. Bool) [
          | none ↦ false
          | some checker ↦ checker id r
        ])
        plain

  import_result-jobs :
      (job : DownloadJob) (release : IndexedRelease) (result : DownloadResult) (r : JobRepository)
      → (import_result container job release result r).0.jobs ≡ r.jobs
  unfolding import_result
  import_result-jobs job release result r =
      let first = set_status-plain job.id (codes "postprocessing") r in
      let second =
        set_status-plain job.id (codes "importing")
          (set_status container job.id (codes "postprocessing") r) in
      imported_jobs (is_explicit_mock_release container release.id) container.postprocessor result
        (container.import_file result) (container.import_download result) r _ _ first
        (second ∙ first)

  finish_download-Tried :
      (job : DownloadJob) (release : IndexedRelease) (before : JobRepository)
      (w : JobRepository × Result DownloadResult)
      → IsDownloaded job before.jobs w.0.jobs w.1
      → get job.id before.jobs ≡ some job
      → Tried job before (finish_download container job release w)
  unfolding finish_download
  finish_download-Tried job release before (r, err e) (inl same) there = inr (e, refl, inl same)
  finish_download-Tried job release before (r, err e) (inr (_, _, same)) there =
      inr (e, refl, inr same)
  finish_download-Tried job release before (r, ok result) (inr (_, bad, _)) there = absurd cc
  finish_download-Tried job release before (r, ok result) (inl same) there =
      rw (cancel_requested-plain job.id r, finish_download)
        (completed_with-Tried container job before (import_result container job release result r)
          (import_result-jobs job release result r ∙ same) there)

  live_download-IsDownloaded :
      (job : DownloadJob) (release : IndexedRelease) (articles : List ArticleHeader)
      (r : JobRepository) (built : Result Engine)
      → get job.id r.jobs ≡ some job
      → let w = live_download container job release articles r built in
        IsDownloaded job r.jobs w.0.jobs w.1
  live_download-IsDownloaded job release articles r (err e) there = inl refl
  live_download-IsDownloaded job release articles r (ok engine) there =
      download_job-IsDownloaded engine job release articles _ there

  -- The ways to a download, of which only the live one touches the jobs.
  chosen-IsDownloaded :
      (mock no_storage no_key no_articles : Bool)
      (given : Option (IndexedRelease → Result DownloadResult)) (job : DownloadJob)
      (release : IndexedRelease) (r : JobRepository) (mocked : Result DownloadResult)
      (e1 e2 e3 : Error) (live : Work JobRepository DownloadResult)
      → IsDownloaded job r.jobs live.0.jobs live.1
      → let w : Work JobRepository DownloadResult =
          if mock then (r, mocked) else elim given as (λ x. Work JobRepository DownloadResult) [
            | some download ↦ (r, download release)
            | none ↦
                if no_storage
                then (r, err e1)
                else if no_key
                then (r, err e2)
                else if no_articles
                then (r, err e3)
                else live
          ] in
        IsDownloaded job r.jobs w.0.jobs w.1
  chosen-IsDownloaded true b c d o job release r m e1 e2 e3 live h = inl refl
  chosen-IsDownloaded false b c d (some download) job release r m e1 e2 e3 live h = inl refl
  chosen-IsDownloaded false true c d none job release r m e1 e2 e3 live h = inl refl
  chosen-IsDownloaded false false true d none job release r m e1 e2 e3 live h = inl refl
  chosen-IsDownloaded false false false true none job release r m e1 e2 e3 live h = inl refl
  chosen-IsDownloaded false false false false none job release r m e1 e2 e3 live h = h

  download_release-IsDownloaded :
      (job : DownloadJob) (release : IndexedRelease) (r : JobRepository)
      → get job.id r.jobs ≡ some job
      → let w = download_release container job release r in IsDownloaded job r.jobs w.0.jobs w.1
  unfolding download_release
  download_release-IsDownloaded job release r there =
      chosen-IsDownloaded (is_explicit_mock_release container release.id)
        (not container.has_nntp_providers) (not container.credential_key_available)
        (is_empty (container.get_articles release.id)) container.downloader job release r
        (container.mock_downloader release) _ _ _
        (live_download container job release (container.get_articles release.id) r container.engine)
        (live_download-IsDownloaded job release (container.get_articles release.id) r
          container.engine there)

  process_claimed-Ended :
      (job : DownloadJob) (r : JobRepository)
      → get job.id r.jobs ≡ some job
      → Ended job r (process_claimed container job r)
  unfolding process_claimed
  process_claimed-Ended job r there = elim (Option-cases (get job.release_id container.releases)) [
    | inl gone ↦
        rw (gone, process_claimed)
          (failed-Ended container job r (runtime_error "Queued release no longer exists") r refl
            there)
    | inr (release, stored) ↦
        rw (stored, cancel_requested-plain job.id r, process_claimed)
          (failed_with-Ended container job r
            (finish_download container job release (download_release container job release r))
            (finish_download-Tried job release r (download_release container job release r)
              (download_release-IsDownloaded job release r there) there)
            there)
  ]

-- Nothing was queued and no job has changed; or a queued job has ended, and no other has changed.
abbrev pub Outcome : JobRepository → JobRepository → Option DownloadProcessResult → Type 0
Outcome r r' none = (r'.jobs ≡ r.jobs) × ((id : Text) → NotQueued (get id r.jobs))
Outcome r r' (some result) =
    (old : DownloadJob) × (get result.job_id r.jobs ≡ some old)
    × ((old.status =? queued) ≡ true)
    × ((result.status ≡ completed) ⊎ (result.status ≡ failed))
    × ((id : Text)
        → get id r'.jobs
          ≡ (if result.job_id =? id then some (with_status result.status old) else get id r.jobs))

abbrev pub Finished : JobRepository → JobRepository × Result (Option DownloadProcessResult) → Type 0
Finished r w = (o : Option DownloadProcessResult) × (w.1 ≡ ok o) × Outcome r w.0 o

put_twice :
    (b : Bool) (o g h : Option DownloadJob) (j1 j j2 : DownloadJob)
    → o ≡ (if b then some j1 else g)
    → g ≡ (if b then some j else h)
    → j1 ≡ j2
    → o ≡ (if b then some j2 else h)
put_twice true o g h j1 j j2 a b e = a ∙ ap some e
put_twice false o g h j1 j j2 a b e = a ∙ b

claimed_end :
    (container : Container) (r t : JobRepository) (job old : DownloadJob)
    (w : JobRepository × Result DownloadProcessResult)
    → get job.id r.jobs ≡ some old
    → (old.status =? queued) ≡ true
    → job ≡ with_status downloading old
    → t.jobs ≡ put job.id job r.jobs
    → Ended job t w
    → Finished r (processed container w)
claimed_end container r t job old (r', err e) found waits same jobs (_, bad, _, _, _) = absurd cc
claimed_end container r t job old (r', ok result) found waits same jobs
      (result', returned, named, status, left) =
    (
      some result',
      ap
          (λ x. elim x as (λ y. Result (Option DownloadProcessResult)) [
            | err e ↦ err e
            | ok y ↦ ok (some y)
          ])
          returned,
      (
        old,
        ap (λ k. get k r.jobs) named ∙ found,
        waits,
        status,
        λ id.
            put_twice (result'.job_id =? id) _ _ _ _ _ _
              (ap (get id) left
                ∙ get-put job.id id _ t.jobs
                ∙ ap (λ k. if k =? id then some (with_status result'.status job) else get id t.jobs)
                    (sym named))
              (ap (get id) jobs
                ∙ get-put job.id id job r.jobs
                ∙ ap (λ k. if k =? id then some job else get id r.jobs) (sym named))
              (ap (with_status result'.status) same),
      ),
    )

process_claim-Finished :
    (container : Container) (r : JobRepository) (claim : JobRepository × Option DownloadJob)
    → Claimed r claim
    → ((job : DownloadJob) (t : JobRepository)
        → get job.id t.jobs ≡ some job
        → Ended job t (process_claimed container job t))
    → Finished r (process_claim container claim)
process_claim-Finished container r (t, none) h ended = (none, refl, h)
process_claim-Finished container r (t, some job) (old, found, waits, same, jobs) ended =
    let there : get job.id t.jobs ≡ some job =
      ap (get job.id) jobs ∙ get-put_self job.id job r.jobs in
    claimed_end container r t job old (process_claimed container job t) found waits same jobs
      (ended job t there)

-- On a job repository without the optional methods, where every queued job stands in the queue, a call
-- of `process_next_download` never raises. If it returns nothing, no job was queued. Else the job of
-- its result was queued and is now completed or failed, as the result says, whatever the download, the
-- post-processing and the import did, so that it is not left as downloading; and no other job has
-- changed.
pub process_next_download-Finished :
    (container : Container) (now : ℕ) (r : JobRepository)
    → container.optional ≡ no_methods
    → IsQueue r
    → Finished r (process_next_download container now r)
unfolding process_next_download
process_next_download-Finished container now r plain h =
    process_claim-Finished container r (claim_next now r) (claim_next-Claimed now r h).1
      (process_claimed-Ended container plain)
