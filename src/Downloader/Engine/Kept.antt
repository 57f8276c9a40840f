-- ===== src/Downloader/Engine/Kept.antt =====
-- What becomes of the jobs while one is downloaded (downloader/engine.py).
use lore_x.Prelude.{
  ℕ, zero, suc, ◌≡◌, ◌⊎◌, inl, inr, refl, ap, ◌∙◌, Bool, true, false, none, some, List, [], ◌∷◌,
  ◌++◌, length, arith, nat_eq, list_eq, pair_eq, Bool-cases,
}
use lore_x.Result.{Result, ok, err, Error, key_error}
use lore_x.Process.{Work}
use lore_x.Text.{Text}
use lore_x.Dict.{Dict, get, put}
use lore_x.Domain.{ArticleHeader, DownloadJob, DownloadResult, IndexedRelease}
use lore_x.Repository.Jobs.{
  JobRepository, new_state, failed, with_status, mark, mark_failed, ensure_articles,
  pending_articles, persist_job_progress,
}
use lore_x.Downloader.Article.{Download, cancel_requested, is_cancelled}
use lore_x.Downloader.Engine.{
  Pool, Engine, complete_path, submit_next, fill, fill_after, fetch, collected, submitted,
  run_active, drain, ended_pool, filled, run_pool, first_pool, flushed, settled, take_at,
  download_job,
}
use lore_x.Downloader.Article.Held.{held, cancel_requested-held, download_article-held}

submit_next-held : (p : Pool) → held (submit_next p).0.download ≡ held p.download
unfolding submit_next
submit_next-held p = elim (Bool-cases (cancel_requested p.download).0) [
  | inl asked ↦ rw asked (cancel_requested-held p.download)
  | inr goes ↦ rw goes (by_pending p.pending)
]
  where
    by_pending :
        (l : List ArticleHeader)
        → held
            (elim l as (λ x. Work Pool Bool) [
              | [] ↦ (record p { download = (cancel_requested p.download).1 }, ok false)
              | a ∷ rest ↦ (
                record p {
                  download = (cancel_requested p.download).1;
                  pending = rest;
                  active = p.active ++ a ∷ [];
                },
                ok true,
              )
            ]).0.download
          ≡ held p.download
    by_pending [] = cancel_requested-held p.download
    by_pending (a ∷ rest) = cancel_requested-held p.download

fill-held : (n : ℕ) (p : Pool) → held (fill n p).0.download ≡ held p.download
unfolding fill
fill-held zero p = refl
fill-held (suc n) p = by_next (submit_next p) (submit_next-held p) (fill-held n)
  where
    by_next :
        (w : Work Pool Bool)
        → held w.0.download ≡ held p.download
        → ((q : Pool) → held (fill n q).0.download ≡ held q.download)
        → held (fill_after (fill n) w).0.download ≡ held p.download
    by_next (q, err e) h later = h
    by_next (q, ok false) h later = h
    by_next (q, ok true) h later = later q ∙ h

module _ (engine : Engine) (job : DownloadJob) where
  fetch-held : (a : ArticleHeader) (d : Download) → held (fetch engine job a d).0 ≡ held d
  fetch-held a d =
      download_article-held engine.digest engine.elapsed job.id a.message_id engine.providers d

  drain-held : (l : List ArticleHeader) (d : Download) → held (drain engine job l d) ≡ held d
  unfolding drain
  drain-held [] d = refl
  drain-held (a ∷ l) d = drain-held l (fetch engine job a d).0 ∙ fetch-held a d

  run_active-held :
      (n : ℕ) (p : Pool) → held (run_active engine job n p).0.download ≡ held p.download
  unfolding run_active
  run_active-held zero p = refl
  run_active-held (suc n) p = by_active p.active (run_active-held n)
    where
      after_next :
          (w : Work Pool Bool)
          → ((q : Pool) → held (run_active engine job n q).0.download ≡ held q.download)
          → held (submitted engine job (run_active engine job n) w).0.download ≡ held w.0.download
      after_next (q, err e) later = refl
      after_next (q, ok more) later = later q

      by_fetch :
          (a : ArticleHeader) (p1 : Pool) (w : Work Download (ℕ × Text))
          → ((q : Pool) → held (run_active engine job n q).0.download ≡ held q.download)
          → held
              (collected engine job a p1
                (λ p2. submitted engine job (run_active engine job n) (submit_next p2))
                w).0.download
            ≡ held w.0
      by_fetch a p1 (d, err e) later = refl
      by_fetch a p1 (d, ok done) later =
          let p2 : Pool = record p1 {
            download = d;
            output_paths = put a.message_id (complete_path engine job a.message_id) p1.output_paths;
          } in
          after_next (submit_next p2) later ∙ submit_next-held p2

      by_active :
          (l : List ArticleHeader)
          → ((q : Pool) → held (run_active engine job n q).0.download ≡ held q.download)
          → held
              (elim l as (λ x. Work Pool (Unit {0})) [
                | [] ↦ (p, ok tt)
                | first ∷ rest ↦
                    collected engine job
                      (take_at (engine.order n) first rest).0
                      (record p { active = (take_at (engine.order n) first rest).1 })
                      (λ p1. submitted engine job (run_active engine job n) (submit_next p1))
                      (fetch engine job (take_at (engine.order n) first rest).0 p.download)
              ]).0.download
            ≡ held p.download
      by_active [] later = refl
      by_active (first ∷ rest) later =
          by_fetch (take_at (engine.order n) first rest).0
            (record p { active = (take_at (engine.order n) first rest).1 })
            (fetch engine job (take_at (engine.order n) first rest).0 p.download) later
          ∙ fetch-held (take_at (engine.order n) first rest).0 p.download

  run_pool-held : (p : Pool) → held (run_pool engine job p).0.download ≡ held p.download
  unfolding run_pool
  run_pool-held p =
      by_end (filled engine job (length p.pending) (fill engine.max_active_articles p))
      ∙ by_fill (fill engine.max_active_articles p)
      ∙ fill-held engine.max_active_articles p
    where
      by_end :
          (w : Work Pool (Unit {0})) → held (ended_pool engine job w).0.download ≡ held w.0.download
      by_end (q, r) = drain-held q.active q.download

      by_fill :
          (w : Work Pool (Unit {0}))
          → held (filled engine job (length p.pending) w).0.download ≡ held w.0.download
      by_fill (q, err e) = refl
      by_fill (q, ok done) = run_active-held (length p.pending) q

  flushed-held : (d : Download) → held (flushed engine job d) ≡ held d
  unfolding flushed persist_job_progress
  flushed-held d = ground arith

ensure_articles-jobs :
    (job_id : Text) (articles : List ArticleHeader) (r : JobRepository)
    → (ensure_articles job_id articles r).0.jobs ≡ r.jobs
unfolding ensure_articles
ensure_articles-jobs job_id [] r = refl
ensure_articles-jobs job_id (a ∷ others) r =
    let r1 : JobRepository = record r {
      articles = put (job_id, a.message_id) (new_state job_id a.message_id) r.articles;
    } in
    ground (arith, ensure_articles-jobs job_id others r, ensure_articles-jobs job_id others r1)

first_pool-held :
    (engine : Engine) (job : DownloadJob) (articles : List ArticleHeader) (d : Download)
    → held (first_pool engine job articles d).download ≡ held d
unfolding first_pool pending_articles
first_pool-held engine job articles d = ensure_articles-jobs job.id articles d.jobs

pub mark_eq :
    (status id : Text) (r : JobRepository) (job : DownloadJob)
    → get id r.jobs ≡ some job
    → mark status id r ≡ ok (record r { jobs = put id (with_status status job) r.jobs })
unfolding mark
mark_eq status id r job there =
    ap
      (λ o. elim o as (λ x. Result JobRepository) [
        | none ↦ err (key_error "job")
        | some j ↦ ok (record r { jobs = put id (with_status status j) r.jobs })
      ])
      there

-- The jobs are as they were; or the call has raised, and this one is failed.
abbrev pub IsDownloaded :
    DownloadJob → Dict Text DownloadJob → Dict Text DownloadJob → Result DownloadResult → Type 0
IsDownloaded job before after outcome =
    (after ≡ before)
    ⊎ ((e : Error) × (outcome ≡ err e) × (after ≡ put job.id (with_status failed job) before))

settled-IsDownloaded :
    (engine : Engine) (job : DownloadJob) (release : IndexedRelease) (articles : List ArticleHeader)
    (before : Dict Text DownloadJob) (w : Work Pool (Unit {0}))
    → get job.id before ≡ some job
    → held w.0.download ≡ before
    → let d = settled engine job release articles w in IsDownloaded job before (held d.0) d.1
unfolding settled mark_failed
settled-IsDownloaded engine job release articles before (p, ok done) there same =
    inl (flushed-held engine job p.download ∙ same)
settled-IsDownloaded engine job release articles before (p, err e) there same =
    elim (Bool-cases (is_cancelled e)) [
      | inl cancels ↦ rw cancels (inl (flushed-held engine job p.download ∙ same))
      | inr fails ↦
          rw (fails, mark_eq failed job.id p.download.jobs job (ap (get job.id) same ∙ there))
            (inr
              (e, refl, flushed-held engine job _ ∙ ap (put job.id (with_status failed job)) same))
    ]

-- A download of a job that the repository holds changes no job, unless it raises: then it may have
-- marked this one failed.
pub download_job-IsDownloaded :
    (engine : Engine) (job : DownloadJob) (release : IndexedRelease) (articles : List ArticleHeader)
    (d : Download)
    → get job.id (held d) ≡ some job
    → let w = download_job engine job release articles d in IsDownloaded job (held d) (held w.0) w.1
unfolding download_job
download_job-IsDownloaded engine job release articles d there =
    settled-IsDownloaded engine job release articles (held d)
      (run_pool engine job (first_pool engine job articles d)) there
      (run_pool-held engine job (first_pool engine job articles d)
        ∙ first_pool-held engine job articles d)
