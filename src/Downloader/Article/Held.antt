-- ===== src/Downloader/Article/Held.antt =====
-- `_download_article` (downloader/engine.py) leaves the jobs themselves as they are.
use lore_x.Prelude.{
  ℕ, ◌≡◌, inl, inr, refl, Bool, true, false, Option, none, some, Option-cases, List, [], ◌∷◌, ◌++◌,
  length, arith, if◌then◌else◌, nat_eq, list_eq, pair_eq, Bool-cases,
}
use lore_x.Prelude.Int.{ℤ, pos}
use lore_x.Result.{Result, ok, err, Error}
use lore_x.Text.{Text}
use lore_x.Dict.{Dict, get, put, remove}
use lore_x.Nntp.Stream.{Bytes}
use lore_x.Domain.{DownloadJob}
use lore_x.Repository.Jobs.{
  mark_article_started, mark_article_completed, mark_article_failed, record_provider_attempt,
}
use lore_x.Downloader.Providers.{ordered, ProviderConfig, ProviderSet, ArticleProvider}
use lore_x.Downloader.Article.{
  Download, cancel_requested, is_cancelled, write_chunks, finished, attempt, attempt_from,
  download_article,
}

-- The jobs of a download.
abbrev pub held : Download → Dict Text DownloadJob
held d = d.jobs.jobs

pub cancel_requested-held : (d : Download) → held (cancel_requested d).1 ≡ held d
unfolding cancel_requested
cancel_requested-held d = ground arith

write_chunks-held :
    (chunks : List Bytes) (end : Result (Unit {0})) (written : Bytes) (d : Download)
    → held (write_chunks chunks end written d).0 ≡ held d
unfolding write_chunks
write_chunks-held [] end written d = refl
write_chunks-held (chunk ∷ chunks) end written d =
    let d1 = (cancel_requested d).1 in
    ground (
      arith,
      cancel_requested-held d,
      write_chunks-held chunks end (written ++ chunk)
          (record d1 { progress = d1.progress ++ length chunk ∷ [] }),
    )

module _ (digest : Text → Text) (elapsed : Text → ℤ) (job_id message_id : Text) where
  attempt-held :
      (name : Text) (fallback : Bool) (client : ArticleProvider) (d : Download)
      → held (attempt digest elapsed job_id message_id name fallback client d).0 ≡ held d
  unfolding attempt finished mark_article_started mark_article_completed mark_article_failed
      record_provider_attempt
  attempt-held name fallback client d =
      by_outcome (write_chunks (client message_id).0 (client message_id).1 [] _)
        (write_chunks-held (client message_id).0 (client message_id).1 [] _)
    where
      by_outcome :
          (w : Download × Bytes × Result (Unit {0}))
          → held w.0 ≡ held d
          → held
              (elim w.2 as (λ x. Download × Result ℕ) [
                | ok _ ↦ (
                  finished digest elapsed job_id message_id name fallback w.1
                      (record w.0 { partials = put (digest message_id) w.1 w.0.partials }),
                  ok (length w.1),
                )
                | err e ↦
                    if is_cancelled e
                    then (
                      record w.0 {
                        partials =
                            remove (digest message_id) (put (digest message_id) w.1 w.0.partials);
                      },
                      err e,
                    )
                    else (
                      record w.0 {
                        jobs = mark_article_failed job_id message_id name w.0.jobs;
                        partials =
                            remove (digest message_id) (put (digest message_id) w.1 w.0.partials);
                      },
                      err e,
                    )
              ]).0
            ≡ held d
      by_outcome (d1, written, ok done) h = h
      by_outcome (d1, written, err e) h = elim (Bool-cases (is_cancelled e)) [
        | inl cancels ↦ rw cancels h
        | inr fails ↦ rw fails h
      ]

  attempt_from-held :
      (cs : List ProviderConfig) (fallback : Bool) (last : Option Error) (s : ProviderSet)
      (d : Download)
      → held (attempt_from digest elapsed job_id message_id cs fallback last s d).0 ≡ held d
  unfolding attempt_from record_provider_attempt
  attempt_from-held [] fallback none s d = refl
  attempt_from-held [] fallback (some e) s d = refl
  attempt_from-held (c ∷ cs) fallback last s d = elim (Option-cases (get c.name s.pools)) [
    | inl absent ↦ ground (
      arith,
      absent,
      cancel_requested-held d,
      attempt_from-held cs true last s (cancel_requested d).1,
    )
    | inr (client, there) ↦
        let d1 = (cancel_requested d).1 in
        let w = attempt digest elapsed job_id message_id c.name fallback client d1 in
        let again : Download = record w.0 {
          jobs = record_provider_attempt c.name false fallback (pos 0) (elapsed c.name) w.0.jobs;
        } in
        elim w.1
            as (λ r.
              w.1 ≡ r
              → held (attempt_from digest elapsed job_id message_id (c ∷ cs) fallback last s d).0
                ≡ held d) [
                  | ok n ↦ λ q. ground (
                    arith,
                    there,
                    q,
                    cancel_requested-held d,
                    attempt-held c.name fallback client d1,
                  )
                  | err e ↦ λ q. ground (
                    arith,
                    there,
                    q,
                    cancel_requested-held d,
                    attempt-held c.name fallback client d1,
                    attempt_from-held cs true (some e) s again,
                  )
                ]
          refl
  ]

pub download_article-held :
    (digest : Text → Text) (elapsed : Text → ℤ) (job_id message_id : Text) (s : ProviderSet)
    (d : Download)
    → held (download_article digest elapsed job_id message_id s d).0 ≡ held d
unfolding download_article
download_article-held digest elapsed job_id message_id s d =
    attempt_from-held digest elapsed job_id message_id (ordered s) false none s d
