-- ===== src/Downloader/Article/Content.antt =====
-- The file that a returned download has written.
use lore_x.Prelude.{
  ℕ, ◌≡◌, refl, ap, ◌∙◌, sym, Bool, true, false, Option, none, some, List, [], ◌∷◌, length, arith,
  nat_eq, list_eq, Bool-cases, Option-cases, inl, inr,
}
use lore_x.Prelude.Int.{ℤ, pos}
use lore_x.Result.{Result, ok, err, Error, Result-cases}
use lore_x.Text.{Text}
use lore_x.Dict.{get, get-put_self}
use lore_x.Nntp.Stream.{Bytes, joined}
use lore_x.Repository.Jobs.{record_provider_attempt}
use lore_x.Downloader.Providers.{ProviderConfig, ProviderSet, ArticleProvider, ordered}
use lore_x.Downloader.Article.{
  Download, with_jobs, cancel_requested, finished, attempt, attempt_from, download_article,
}
use lore_x.Downloader.Article.Files.{settle, write_chunks-ok}

module _ (digest : Text → Text) (elapsed : Text → ℤ) (job_id message_id : Text) where
  settle-ok :
      (name : Text) (fallback : Bool) (written : Bytes) (d2 : Download)
      (outcome : Result (Unit {0})) (n : ℕ)
      → (settle digest elapsed job_id message_id name fallback written d2 outcome).1 ≡ ok n
      → (outcome ≡ ok tt)
        × (n ≡ length written)
        × (get
              (digest message_id)
              (settle digest elapsed job_id message_id name fallback written d2 outcome).0.completes
            ≡ some written)
  unfolding settle finished
  settle-ok name fallback written d2 (ok done) n h =
      (refl, ground (arith, h), get-put_self (digest message_id) written d2.completes)
  settle-ok name fallback written d2 (err e) n h = absurd (ground (arith, h))

  -- The whole article of one of the providers stands under the key.
  abbrev pub Delivered : ProviderSet → Download → ℕ → Text → Type 0
  Delivered s d n name =
      (client : ArticleProvider) × (get name s.pools ≡ some client)
      × ((client message_id).1 ≡ ok tt)
      × (n ≡ length (joined (client message_id).0))
      × (get (digest message_id) d.completes ≡ some (joined (client message_id).0))

  attempt-ok :
      (name : Text) (fallback : Bool) (client : ArticleProvider) (d : Download) (n : ℕ)
      → (attempt digest elapsed job_id message_id name fallback client d).1 ≡ ok n
      → ((client message_id).1 ≡ ok tt)
        × (n ≡ length (joined (client message_id).0))
        × (get
              (digest message_id)
              (attempt digest elapsed job_id message_id name fallback client d).0.completes
            ≡ some (joined (client message_id).0))
  unfolding attempt settle
  attempt-ok name fallback client d n h =
      let (done, size, there) = settle-ok name fallback _ _ _ n h in
      let (fine, all_of) = write_chunks-ok (client message_id).0 (client message_id).1 [] _ done in
      (fine, size ∙ ap length all_of, there ∙ ap some all_of)

  attempt_from-Delivered :
      (cs : List ProviderConfig) (fallback : Bool) (last : Option Error) (s : ProviderSet)
      (d d' : Download) (n : ℕ) (name : Text)
      → attempt_from digest elapsed job_id message_id cs fallback last s d ≡ (d', ok (n, name))
      → Delivered s d' n name
  unfolding attempt_from
  attempt_from-Delivered [] fallback none s d d' n name h = absurd (ground (arith, h))
  attempt_from-Delivered [] fallback (some e) s d d' n name h = absurd (ground (arith, h))
  attempt_from-Delivered (c ∷ cs) fallback last s d d' n name h =
      let d1 = (cancel_requested d).1 in
      elim (Bool-cases (cancel_requested d).0) [
        | inl asked ↦ absurd (elim (Option-cases (get c.name s.pools)) [
          | inl absent ↦ ground (arith, h, asked, absent)
          | inr (client, found) ↦ ground (arith, h, asked, found)
        ])
        | inr free ↦ elim (Option-cases (get c.name s.pools)) [
          | inl absent ↦
              attempt_from-Delivered cs true last s d1 d' n name (ground (arith, h, free, absent))
          | inr (client, found) ↦
              let r = attempt digest elapsed job_id message_id c.name fallback client d1 in
              elim (Result-cases r.1) [
                | inl (size, done) ↦
                    let (fine, long, there) = attempt-ok c.name fallback client d1 size done in
                    let same : r.0 ≡ d' = ground (arith, h, free, found, done) in
                    let count : size ≡ n = ground (arith, h, free, found, done) in
                    let who : c.name ≡ name = ground (arith, h, free, found, done) in
                    (
                      client,
                      ap (λ x. get x s.pools) (sym who) ∙ found,
                      fine,
                      sym count ∙ long,
                      ap (λ x. get (digest message_id) x.completes) (sym same) ∙ there,
                    )
                | inr (e, failed) ↦
                    attempt_from-Delivered cs true (some e) s
                      (with_jobs digest elapsed job_id message_id
                        (record_provider_attempt c.name false fallback (pos 0) (elapsed c.name))
                        r.0)
                      d' n name (ground (arith, h, free, found, failed))
              ]
        ]
      ]

-- If the download of an article returns a size and a provider, that provider's stream has ended well,
-- the file under the article's key holds exactly the bytes of that stream, and the size is theirs:
-- nothing of a provider that failed before is in it.
pub download_article-Delivered :
    (digest : Text → Text) (elapsed : Text → ℤ) (job_id message_id : Text) (s : ProviderSet)
    (d d' : Download) (n : ℕ) (name : Text)
    → download_article digest elapsed job_id message_id s d ≡ (d', ok (n, name))
    → Delivered digest elapsed job_id message_id s d' n name
unfolding download_article
download_article-Delivered digest elapsed job_id message_id s d d' n name h =
    attempt_from-Delivered digest elapsed job_id message_id (ordered s) false none s d d' n name h
