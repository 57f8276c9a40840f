-- ===== src/Services/Downloads.antt =====
-- backend/lorex/services/download_jobs.py, on the job repository in memory. The container is a record of
-- what it answers; the log of activities, which nothing reads, is left out.
pub mod Finished
mod Tests
use lore_x.Prelude.{
  ℕ, Bool, true, false, not, ◌&&◌, Option, none, some, List, [], ◌∷◌, any, if◌then◌else◌, ◌=?◌,
  nat_eq, list_eq,
}
use lore_x.Result.{Result, ok, err, Error, key_error, runtime_error, configuration_error, ◌>>=◌}
use lore_x.Process.{Work}
use lore_x.Text.{Text, codes, is_empty}
use lore_x.Dict.{Dict, get}
use lore_x.Nntp.Stream.{Bytes}
use lore_x.Downloader.Engine.{Engine, download_job}
use lore_x.Domain.{ArticleHeader, DownloadJob, DownloadResult, IndexedRelease, LibraryBook}
use lore_x.Repository.Jobs.{
  JobRepository, queued, completed, failed, add_job, claim_next, mark_completed, mark_failed,
}

pub record DownloadProcessResult : Type 0 where
  pub job_id : Text
  pub release_id : Text
  pub status : Text
  pub book : Option LibraryBook
  pub error : Option Error

-- The methods that a job repository may have or not.
pub record OptionalMethods : Type 0 where
  pub set_runtime_status : Option (Text → Text → JobRepository → JobRepository)
  pub is_cancel_requested : Option (Text → JobRepository → Bool)
  pub mark_canceled : Option (Text → JobRepository → Result JobRepository)
  pub find_active_for_release : Option (Text → JobRepository → Option DownloadJob)

pub record Container : Type 0 where
  pub releases : Dict Text IndexedRelease
  pub get_articles : Text → List ArticleHeader
  pub optional : OptionalMethods
  pub mock_api_enabled : Bool
  pub mock_release_ids : List Text
  pub mock_downloader : IndexedRelease → Result DownloadResult
  pub downloader : Option (IndexedRelease → Result DownloadResult)
  pub has_nntp_providers : Bool
  pub credential_key_available : Bool
  -- `build_live_downloader`, which raises where no provider is configured
  pub engine : Result Engine
  -- the articles that stand complete in the directory of a job
  pub complete_files : Text → Dict Text Bytes
  -- the answers to the downloader's checks for a cancellation of a job
  pub cancels : Text → List Bool
  pub postprocessor : Option (DownloadResult → Result Text)
  pub import_download : DownloadResult → Result LibraryBook
  pub import_file : DownloadResult → Text → Result LibraryBook

abbrev pub canceled : Text
canceled = codes "canceled"

module _ (container : Container) where
  unfoldable pub set_status : Text → Text → JobRepository → JobRepository
  set_status id status jobs = elim container.optional.set_runtime_status [
    | none ↦ jobs
    | some setter ↦ setter id status jobs
  ]

  unfoldable pub cancel_requested : Text → JobRepository → Bool
  cancel_requested id jobs = elim container.optional.is_cancel_requested [
    | none ↦ false
    | some checker ↦ checker id jobs
  ]

  unfoldable pub cancel : Text → JobRepository → Result JobRepository
  unfolding mark_failed
  cancel id jobs = elim container.optional.mark_canceled [
    | none ↦ mark_failed id jobs
    | some marker ↦ marker id jobs
  ]

  unfoldable pub is_explicit_mock_release : Text → Bool
  is_explicit_mock_release release_id =
      container.mock_api_enabled && any (λ id. id =? release_id) container.mock_release_ids

  -- `queue_release`, with the identifier that it draws
  unfoldable pub queue_release : Text → Text → JobRepository → Result (JobRepository × DownloadJob)
  unfolding add_job
  queue_release new_id release_id jobs = elim (get release_id container.releases) [
    | none ↦ err (key_error "release")
    | some release ↦
        let job : DownloadJob = record { id = new_id; release_id = release_id; status = queued } in
        elim (elim container.optional.find_active_for_release as (λ x. Option DownloadJob) [
          | none ↦ none
          | some find ↦ find release_id jobs
        ]) [ some active ↦ ok (jobs, active) | none ↦ ok (add_job job jobs, job) ]
  ]

  abbrev pub live_download :
      DownloadJob
      → IndexedRelease
      → List ArticleHeader
      → JobRepository
      → Result Engine
      → Work JobRepository DownloadResult
  live_download job release articles jobs (err e) = (jobs, err e)
  live_download job release articles jobs (ok engine) =
      let (d, outcome) = download_job engine job release articles (record {
        jobs = jobs;
        cancels = container.cancels job.id;
        partials = [];
        completes = container.complete_files job.id;
        progress = [];
      }) in
      (d.jobs, outcome)

  unfoldable pub download_release :
      DownloadJob → IndexedRelease → JobRepository → Work JobRepository DownloadResult
  unfolding is_explicit_mock_release
  download_release job release jobs =
      let articles = container.get_articles release.id in
      if is_explicit_mock_release release.id
      then (jobs, container.mock_downloader release)
      else elim container.downloader [
        | some download ↦ (jobs, download release)
        | none ↦
            if not container.has_nntp_providers
            then (jobs, err (configuration_error "NNTP provider storage is unavailable"))
            else if not container.credential_key_available
            then (
              jobs,
              err (configuration_error "LOREX_CREDENTIAL_KEY is required for live NNTP downloads"),
            )
            else if is_empty articles
            then (jobs, err (configuration_error "Release has no persisted NNTP articles"))
            else live_download job release articles jobs container.engine
      ]

  -- A call that marks the job, and the result if it returns.
  abbrev pub marked :
      JobRepository
      → Result JobRepository
      → DownloadProcessResult
      → Work JobRepository DownloadProcessResult
  marked jobs (err e) result = (jobs, err e)
  marked jobs (ok jobs') result = (jobs', ok result)

  abbrev pub canceled_result : DownloadJob → DownloadProcessResult
  canceled_result job = record {
    job_id = job.id;
    release_id = job.release_id;
    status = canceled;
    book = none;
    error = none;
  }

  abbrev pub failed_result : DownloadJob → Error → DownloadProcessResult
  failed_result job e = record {
    job_id = job.id;
    release_id = job.release_id;
    status = failed;
    book = none;
    error = some e;
  }

  abbrev pub completed_result : DownloadJob → LibraryBook → DownloadProcessResult
  completed_result job book = record {
    job_id = job.id;
    release_id = job.release_id;
    status = completed;
    book = some book;
    error = none;
  }

  -- Post-processing and import.
  unfoldable pub import_result :
      DownloadJob → IndexedRelease → DownloadResult → JobRepository → Work JobRepository LibraryBook
  unfolding set_status is_explicit_mock_release
  import_result job release result jobs =
      let jobs1 = set_status job.id (codes "postprocessing") jobs in
      let jobs2 = set_status job.id (codes "importing") jobs1 in
      if is_explicit_mock_release release.id
      then (jobs2, container.import_download result)
      else elim container.postprocessor [
        | none ↦ (jobs1, err (runtime_error "Physical post-processing is unavailable"))
        | some process ↦ elim (process result) [
          | err e ↦ (jobs1, err e)
          | ok path ↦ (jobs2, container.import_file result path)
        ]
      ]

  abbrev pub completed_with :
      DownloadJob → Work JobRepository LibraryBook → Work JobRepository DownloadProcessResult
  completed_with job (jobs, err e) = (jobs, err e)
  completed_with job (jobs, ok book) =
      marked jobs (mark_completed job.id jobs) (completed_result job book)

  -- What follows the download, inside the `try`.
  unfoldable pub finish_download :
      DownloadJob
      → IndexedRelease
      → Work JobRepository DownloadResult
      → Work JobRepository DownloadProcessResult
  unfolding import_result cancel cancel_requested mark_completed
  finish_download job release (jobs, err e) = (jobs, err e)
  finish_download job release (jobs, ok result) =
      if cancel_requested job.id jobs
      then marked jobs (cancel job.id jobs) (canceled_result job)
      else completed_with job (import_result job release result jobs)

  -- `except Exception`
  abbrev pub failed_with :
      DownloadJob
      → Work JobRepository DownloadProcessResult
      → Work JobRepository DownloadProcessResult
  failed_with job (jobs, ok result) = (jobs, ok result)
  failed_with job (jobs, err e) = marked jobs (mark_failed job.id jobs) (failed_result job e)

  -- What follows the claim of a job.
  unfoldable pub process_claimed :
      DownloadJob → JobRepository → Work JobRepository DownloadProcessResult
  unfolding finish_download download_release cancel cancel_requested mark_failed
  process_claimed job jobs = elim (get job.release_id container.releases) [
    | none ↦
        marked jobs (mark_failed job.id jobs)
          (failed_result job (runtime_error "Queued release no longer exists"))
    | some release ↦
        if cancel_requested job.id jobs
        then marked jobs (cancel job.id jobs) (canceled_result job)
        else failed_with job (finish_download job release (download_release job release jobs))
  ]

  abbrev pub processed :
      Work JobRepository DownloadProcessResult → Work JobRepository (Option DownloadProcessResult)
  processed (jobs, err e) = (jobs, err e)
  processed (jobs, ok result) = (jobs, ok (some result))

  abbrev pub process_claim :
      JobRepository × Option DownloadJob → Work JobRepository (Option DownloadProcessResult)
  process_claim (jobs, none) = (jobs, ok none)
  process_claim (jobs, some job) = processed (process_claimed job jobs)

  unfoldable pub process_next_download :
      ℕ → JobRepository → Work JobRepository (Option DownloadProcessResult)
  unfolding process_claimed claim_next
  process_next_download now jobs = process_claim (claim_next now jobs)
