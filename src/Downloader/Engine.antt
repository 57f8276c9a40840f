-- ===== src/Downloader/Engine.antt =====
-- `StreamingDownloader.download_job` of backend/lorex/downloader/engine.py. An article's download is one
-- step, taken when its future is done; the order in which the futures are done is a parameter. What
-- the articles report of their progress is written to the jobs at the end (Downloader/Progress models
-- when the coalescer does so).
pub mod Kept
mod Turns
mod Tests
use lore_x.Prelude.{
  ℕ, zero, suc, ◌+◌, Bool, true, false, not, ◌||◌, Option, none, some, List, [], ◌∷◌, ◌++◌, map,
  any, keep, length, if◌then◌else◌, ◌=?◌, nat_eq, list_eq,
}
use lore_x.Prelude.Int.{ℤ, pos, sum_ℤ}
use lore_x.Result.{Result, ok, err, Error, key_error, download_cancelled, ◌>>=◌}
use lore_x.Process.{Work}
use lore_x.Text.{Text, codes, is_empty}
use lore_x.Dict.{Dict, get, put, contains}
use lore_x.Nntp.Stream.{Bytes}
use lore_x.Domain.{ArticleHeader, DownloadJob, DownloadResult, IndexedRelease}
use lore_x.Repository.Jobs.{JobRepository, mark_failed, pending_articles, persist_job_progress}
use lore_x.Downloader.Providers.{ProviderSet}
use lore_x.Downloader.Article.{Download, cancel_requested, is_cancelled, download_article}

-- The local variables of `download_job` while its articles are downloaded.
pub record Pool : Type 0 where
  pub download : Download
  pub pending : List ArticleHeader
  pub active : List ArticleHeader
  pub output_paths : Dict Text Text

-- What the downloader has: its providers and its configuration, the digest of a message id, the time
-- that an attempt takes, and the place of the future that is done next among the active ones, with as
-- many articles left as the number says.
pub record Engine : Type 0 where
  pub providers : ProviderSet
  pub download_root : Text
  pub max_active_articles : ℕ
  pub digest : Text → Text
  pub elapsed : Text → ℤ
  pub order : ℕ → ℕ

unfoldable pub submit_next : Pool → Work Pool Bool
unfolding cancel_requested
submit_next p =
    let (asked, d) = cancel_requested p.download in
    if asked then (record p { download = d }, err download_cancelled) else elim p.pending [
      | [] ↦ (record p { download = d }, ok false)
      | article ∷ rest ↦
          (record p { download = d; pending = rest; active = p.active ++ article ∷ [] }, ok true)
    ]

-- The first futures, as many as may be active.
abbrev pub fill_after : (Pool → Work Pool (Unit {0})) → Work Pool Bool → Work Pool (Unit {0})
fill_after go_on (p, err e) = (p, err e)
fill_after go_on (p, ok false) = (p, ok tt)
fill_after go_on (p, ok true) = go_on p

unfoldable pub fill : ℕ → Pool → Work Pool (Unit {0})
fill zero p = (p, ok tt)
fill (suc n) p = fill_after (fill n) (submit_next p)

-- The future at a place, or the last one.
unfoldable pub take_at : ℕ → ArticleHeader → List ArticleHeader → ArticleHeader × List ArticleHeader
take_at n a [] = (a, [])
take_at zero a (b ∷ rest) = (a, b ∷ rest)
take_at (suc n) a (b ∷ rest) = let (chosen, others) = take_at n b rest in (chosen, a ∷ others)

module _ (engine : Engine) (job : DownloadJob) where
  abbrev pub job_dir : Text
  job_dir = engine.download_root ++ (codes "/" ++ job.id)

  -- `_article_complete_path`
  abbrev pub complete_path : Text → Text
  complete_path message_id =
      job_dir ++ (codes "/article-" ++ (engine.digest message_id ++ codes ".part.complete"))

  abbrev pub is_file : Download → ArticleHeader → Bool
  is_file d article = contains (engine.digest article.message_id) d.completes

  abbrev pub fetch : ArticleHeader → Download → Work Download (ℕ × Text)
  fetch article d =
      download_article engine.digest engine.elapsed job.id article.message_id engine.providers d

  -- `future.result()` and the next article, with what is done after it.
  abbrev pub collected :
      ArticleHeader
      → Pool
      → (Pool → Work Pool (Unit {0}))
      → Work Download (ℕ × Text)
      → Work Pool (Unit {0})
  collected article p go_on (d, err e) = (record p { download = d }, err e)
  collected article p go_on (d, ok done) = go_on (record p {
    download = d;
    output_paths = put article.message_id (complete_path article.message_id) p.output_paths;
  })

  abbrev pub submitted : (Pool → Work Pool (Unit {0})) → Work Pool Bool → Work Pool (Unit {0})
  submitted go_on (p, err e) = (p, err e)
  submitted go_on (p, ok more) = go_on p

  -- `while active`, on as many turns as there are articles
  unfoldable pub run_active : ℕ → Pool → Work Pool (Unit {0})
  unfolding take_at
  run_active zero p = (p, ok tt)
  run_active (suc n) p = elim p.active [
    | [] ↦ (p, ok tt)
    | first ∷ rest ↦
        let (article, others) = take_at (engine.order n) first rest in
        collected article (record p { active = others })
          (λ p1. submitted (run_active n) (submit_next p1)) (fetch article p.download)
  ]

  -- The end of the `with`: the articles that are active are downloaded, and their ends not looked at.
  unfoldable pub drain : List ArticleHeader → Download → Download
  drain [] d = d
  drain (article ∷ rest) d = drain rest (fetch article d).0

  abbrev pub ended_pool : Work Pool (Unit {0}) → Work Pool (Unit {0})
  ended_pool (p, outcome) =
      (record p { download = drain p.active p.download; active = [] }, outcome)

  abbrev pub filled : ℕ → Work Pool (Unit {0}) → Work Pool (Unit {0})
  filled articles (p, err e) = (p, err e)
  filled articles (p, ok done) = run_active articles p

  unfoldable pub run_pool : Pool → Work Pool (Unit {0})
  unfolding drain
  run_pool p = ended_pool (filled (length p.pending) (fill engine.max_active_articles p))

  -- `output_paths`, of the articles whose files are there already
  unfoldable pub found_paths : Download → List ArticleHeader → Dict Text Text
  found_paths d [] = []
  found_paths d (article ∷ rest) =
      let later = found_paths d rest in
      if is_file d article
      then put article.message_id (complete_path article.message_id) later
      else later

  unfoldable pub first_pool : List ArticleHeader → Download → Pool
  unfolding found_paths pending_articles
  first_pool articles d =
      let (jobs, waiting) = pending_articles job.id articles d.jobs in
      record {
        download = record d { jobs = jobs };
        pending =
            keep (λ a. any (λ w. w.message_id =? a.message_id) waiting || not (is_file d a))
              articles;
        active = [];
        output_paths = found_paths d articles;
      }

  -- `finally: flush_progress()`
  unfoldable pub flushed : Download → Download
  unfolding persist_job_progress
  flushed d = if is_empty d.progress then d else record d {
    jobs = persist_job_progress job.id (sum_ℤ (map pos d.progress)) (pos 0) d.jobs;
  }

  unfoldable pub ordered_paths : Dict Text Text → List ArticleHeader → Result (List Text)
  ordered_paths output_paths [] = ok []
  ordered_paths output_paths (article ∷ rest) = elim (get article.message_id output_paths) [
    | none ↦ err (key_error "message_id")
    | some path ↦ ordered_paths output_paths rest >>= λ paths. ok (path ∷ paths)
  ]

  abbrev pub download_result : IndexedRelease → List ArticleHeader → List Text → DownloadResult
  download_result release articles paths = record {
    release_id = release.id;
    title = release.title;
    author = release.author;
    narrator = release.narrator;
    format = release.format;
    file_name = release.title ++ (codes "." ++ release.format);
    size = sum_ℤ (map (λ a. a.bytes) articles);
    staging_dir = some job_dir;
    article_paths = paths;
    article_subjects = map (λ a. a.subject) articles;
  }

  -- `mark_failed(job.id)`, and the exception again
  abbrev pub failed_download :
      Download → Error → Result JobRepository → Work Download DownloadResult
  failed_download d e (err missing) = (flushed d, err missing)
  failed_download d e (ok jobs) = (flushed (record d { jobs = jobs }), err e)

  unfoldable pub settled :
      IndexedRelease → List ArticleHeader → Work Pool (Unit {0}) → Work Download DownloadResult
  unfolding flushed ordered_paths is_cancelled mark_failed
  settled release articles (p, ok done) = (
    flushed p.download,
    ordered_paths p.output_paths articles >>= λ paths. ok (download_result release articles paths),
  )
  settled release articles (p, err e) =
      if is_cancelled e
      then (flushed p.download, err e)
      else failed_download p.download e (mark_failed job.id p.download.jobs)

  unfoldable pub download_job :
      IndexedRelease → List ArticleHeader → Download → Work Download DownloadResult
  unfolding first_pool run_pool settled
  download_job release articles d = settled release articles (run_pool (first_pool articles d))
