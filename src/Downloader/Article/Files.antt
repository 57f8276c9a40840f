-- ===== src/Downloader/Article/Files.antt =====
-- The files that an article's download leaves.
use lore_x.Prelude.{
  ℕ, ◌≡◌, ap, ◌∙◌, Bool, true, false, Option, none, some, List, [], ◌∷◌, ◌++◌, if◌then◌else◌,
  length, arith, nat_eq, list_eq, Bool-cases, Option-cases, inl, inr, =?-refl, append_assoc,
  append-nil,
}
use lore_x.Prelude.Int.{ℤ, pos}
use lore_x.Result.{Result, ok, err, Error, Result-cases}
use lore_x.Text.{Text}
use lore_x.Dict.{Dict, get, remove, get-remove}
use lore_x.Nntp.Stream.{Bytes, joined}
use lore_x.Repository.Jobs.{mark_article_failed, record_provider_attempt}
use lore_x.Downloader.Providers.{ProviderConfig, ProviderSet, ArticleProvider, ordered}
use lore_x.Downloader.Article.{
  Download, unlinked, with_jobs, is_cancelled, cancel_requested, write_chunks, key, finished,
  attempt, attempt_from, download_article,
}

cancel_requested-partials : (d : Download) → (cancel_requested d).1.partials ≡ d.partials
unfolding cancel_requested
cancel_requested-partials d = ground arith

-- A stream that is written to its end has written all of its chunks.
pub write_chunks-ok :
    (chunks : List Bytes) (end : Result (Unit {0})) (written : Bytes) (d : Download)
    → (write_chunks chunks end written d).2 ≡ ok tt
    → (end ≡ ok tt) × ((write_chunks chunks end written d).1 ≡ written ++ joined chunks)
unfolding write_chunks
write_chunks-ok [] end written d h = ground (arith, h, append-nil written)
write_chunks-ok (chunk ∷ chunks) end written d h = elim (Bool-cases (cancel_requested d).0) [
  | inl asked ↦ absurd (ground (arith, h, asked))
  | inr free ↦
      let d1 : Download = record (cancel_requested d).1 {
        progress = (cancel_requested d).1.progress ++ length chunk ∷ [];
      } in
      let later : (write_chunks chunks end (written ++ chunk) d1).2 ≡ ok tt =
        ground (arith, h, free) in
      let (fine, all_of) = write_chunks-ok chunks end (written ++ chunk) d1 later in
      rw free (fine, all_of ∙ append_assoc written chunk (joined chunks))
]

module _ (digest : Text → Text) (elapsed : Text → ℤ) (job_id message_id : Text) where
  abbrev k : Text
  k = key digest elapsed job_id message_id

  gone : (ps : Dict Text Bytes) → get k (remove k ps) ≡ none
  gone ps = ground (arith, get-remove k k ps, =?-refl k)

  -- How an attempt ends, once its stream has been written.
  unfoldable pub settle : Text → Bool → Bytes → Download → Result (Unit {0}) → Download × Result ℕ
  settle name fallback written d2 outcome = elim outcome [
    | ok _ ↦
        (finished digest elapsed job_id message_id name fallback written d2, ok (length written))
    | err e ↦ if is_cancelled e then (unlinked digest elapsed job_id message_id d2, err e) else (
      with_jobs digest elapsed job_id message_id (mark_article_failed job_id message_id name)
          (unlinked digest elapsed job_id message_id d2),
      err e,
    )
  ]

  settle-partial :
      (name : Text) (fallback : Bool) (written : Bytes) (d2 : Download)
      (outcome : Result (Unit {0}))
      → get k (settle name fallback written d2 outcome).0.partials ≡ none
  unfolding settle finished
  settle-partial name fallback written d2 (ok done) = gone d2.partials
  settle-partial name fallback written d2 (err e) = elim (Bool-cases (is_cancelled e)) [
    | inl stopped ↦ rw (stopped, settle) (gone d2.partials)
    | inr broken ↦ rw (broken, settle) (gone d2.partials)
  ]

  attempt-partial :
      (name : Text) (fallback : Bool) (client : ArticleProvider) (d : Download)
      → get k (attempt digest elapsed job_id message_id name fallback client d).0.partials ≡ none
  unfolding attempt settle
  attempt-partial name fallback client d = settle-partial name fallback _ _ _

  attempt_from-partial :
      (cs : List ProviderConfig) (fallback : Bool) (last : Option Error) (s : ProviderSet)
      (d : Download)
      → get k d.partials ≡ none
      → get k (attempt_from digest elapsed job_id message_id cs fallback last s d).0.partials ≡ none
  unfolding attempt_from
  attempt_from-partial [] fallback none s d h = h
  attempt_from-partial [] fallback (some e) s d h = h
  attempt_from-partial (c ∷ cs) fallback last s d h =
      let d1 = (cancel_requested d).1 in
      let h1 : get k d1.partials ≡ none = ap (get k) (cancel_requested-partials d) ∙ h in
      elim (Option-cases (get c.name s.pools)) [
        | inl absent ↦ ground (arith, absent, h1, attempt_from-partial cs true last s d1 h1)
        | inr (client, found) ↦
            let r = attempt digest elapsed job_id message_id c.name fallback client d1 in
            let h2 = attempt-partial c.name fallback client d1 in
            let later = λ (e : Error).
              attempt_from-partial cs true (some e) s
                (with_jobs digest elapsed job_id message_id
                  (record_provider_attempt c.name false fallback (pos 0) (elapsed c.name)) r.0)
                h2 in
            elim (Result-cases r.1) [
              | inl (n, done) ↦ ground (arith, found, done, h1, h2)
              | inr (e, failed) ↦ ground (arith, found, failed, h1, h2, later e)
            ]
      ]

-- However the download of an article ends, returned, failed or cancelled, it leaves no partial file
-- under the article's key, if there was none before.
pub download_article-no_partial :
    (digest : Text → Text) (elapsed : Text → ℤ) (job_id message_id : Text) (s : ProviderSet)
    (d : Download)
    → get (digest message_id) d.partials ≡ none
    → get (digest message_id) (download_article digest elapsed job_id message_id s d).0.partials
      ≡ none
unfolding download_article
download_article-no_partial digest elapsed job_id message_id s d h =
    attempt_from-partial digest elapsed job_id message_id (ordered s) false none s d h
