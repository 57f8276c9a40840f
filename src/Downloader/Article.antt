-- ===== src/Downloader/Article.antt =====
-- `_download_article` of backend/lorex/downloader/engine.py: one article, tried at the providers in
-- their order. The answers to the checks for a cancellation are a list, in the order of the checks; a
-- list at its end answers no. Files are held by their key, the digest of a message id; the time that
-- an attempt took is a parameter.
pub mod Files
pub mod Content
pub mod Held
mod Tests
use lore_x.Prelude.{
  ℕ, ◌+◌, ◌≡◌, Bool, true, false, Option, none, some, List, [], ◌∷◌, ◌++◌, if◌then◌else◌, length,
  ◌=?◌, nat_eq, list_eq,
}
use lore_x.Prelude.Int.{ℤ, pos}
use lore_x.Result.{Result, ok, err, Error, article_unavailable, download_cancelled}
use lore_x.Text.{Text}
use lore_x.Dict.{Dict, get, put, remove}
use lore_x.Nntp.Stream.{Bytes, Gen}
use lore_x.Repository.Jobs.{
  JobRepository, mark_article_started, mark_article_completed, mark_article_failed,
  record_provider_attempt,
}
use lore_x.Downloader.Providers.{ProviderConfig, ProviderSet, ArticleProvider, ordered, falls_back}

pub record Download : Type 0 where
  pub jobs : JobRepository
  pub cancels : List Bool
  pub partials : Dict Text Bytes
  pub completes : Dict Text Bytes
  pub progress : List ℕ

-- `_cancel_requested`
unfoldable pub cancel_requested : Download → Bool × Download
cancel_requested d = elim d.cancels [ [] ↦ (false, d) | b ∷ bs ↦ (b, record d { cancels = bs }) ]

-- The loop over the chunks of a stream, with the bytes written so far.
unfoldable pub write_chunks :
    List Bytes → Result (Unit {0}) → Bytes → Download → Download × Bytes × Result (Unit {0})
unfolding cancel_requested
write_chunks [] end written d = (d, written, end)
write_chunks (chunk ∷ chunks) end written d =
    let (asked, d1) = cancel_requested d in
    let later =
      write_chunks chunks end (written ++ chunk)
        (record d1 { progress = d1.progress ++ length chunk ∷ [] }) in
    if asked then (d1, written, err download_cancelled) else later

-- `except DownloadCancelled`
unfoldable pub is_cancelled : Error → Bool
is_cancelled download_cancelled = true
is_cancelled _ = false

module _ (digest : Text → Text) (elapsed : Text → ℤ) (job_id message_id : Text) where
  abbrev pub key : Text
  key = digest message_id

  -- `partial.unlink(missing_ok=True)`
  abbrev pub unlinked : Download → Download
  unlinked d = record d { partials = remove key d.partials }

  abbrev pub with_jobs : (JobRepository → JobRepository) → Download → Download
  with_jobs f d = record d { jobs = f d.jobs }

  -- What follows a stream that was read and written to its end.
  unfoldable pub finished : Text → Bool → Bytes → Download → Download
  finished name fallback written d =
      with_jobs
        (λ j.
          record_provider_attempt name true fallback (pos (length written)) (elapsed name)
            (mark_article_completed job_id message_id name (pos (length written)) j))
        (record d { partials = remove key d.partials; completes = put key written d.completes })

  -- One provider: the article's size, or an exception.
  unfoldable pub attempt : Text → Bool → ArticleProvider → Download → Download × Result ℕ
  unfolding write_chunks finished is_cancelled
  attempt name fallback client d =
      let started =
        with_jobs (mark_article_started job_id message_id name)
          (record d { partials = put key [] d.partials }) in
      let (chunks, end) = client message_id in
      let (d1, written, outcome) = write_chunks chunks end [] started in
      let d2 = record d1 { partials = put key written d1.partials } in
      elim outcome [
        | ok _ ↦ (finished name fallback written d2, ok (length written))
        | err e ↦
            if is_cancelled e
            then (unlinked d2, err e)
            else (with_jobs (mark_article_failed job_id message_id name) (unlinked d2), err e)
      ]

  -- The loop over the providers; `fallback` tells whether one has been passed.
  unfoldable pub attempt_from :
      List ProviderConfig
      → Bool
      → Option Error
      → ProviderSet
      → Download
      → Download × Result (ℕ × Text)
  unfolding cancel_requested attempt
  attempt_from [] fallback (some e) s d = (d, err e)
  attempt_from [] fallback none s d = (d, err article_unavailable)
  attempt_from (c ∷ cs) fallback last_error s d =
      let (asked, d1) = cancel_requested d in
      let skipped = attempt_from cs true last_error s d1 in
      elim (get c.name s.pools) [
        | none ↦ if asked then (d1, err download_cancelled) else skipped
        | some client ↦
            let (d2, outcome) = attempt c.name fallback client d1 in
            if asked then (d1, err download_cancelled) else (elim outcome [
              | ok n ↦ (d2, ok (n, c.name))
              | err e ↦
                  let later = attempt_from cs true (some e) s (
                    with_jobs
                      (record_provider_attempt c.name false fallback (pos 0) (elapsed c.name))
                      d2) in
                  if falls_back e then later else (d2, err e)
            ])
      ]

  unfoldable pub download_article : ProviderSet → Download → Download × Result (ℕ × Text)
  unfolding attempt_from ordered
  download_article s d = attempt_from (ordered s) false none s d
