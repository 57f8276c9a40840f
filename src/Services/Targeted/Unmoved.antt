-- ===== src/Services/Targeted/Unmoved.antt =====
-- The checkpoints during a search for one book (services/targeted_nntp_search.py).
use lore_x.Prelude.{◌≡◌, refl, ◌∙◌, not, List, [], ◌∷◌, max, min, length, Bool-cases, inl, inr}
use lore_x.Prelude.Int.{ℤ, pos, pos_part, min_ℤ, ltb_ℤ}
use lore_x.Result.{Result, ok, err, Result-cases}
use lore_x.Process.{Process, after_keeps}
use lore_x.Text.{Text, is_empty}
use lore_x.Nntp.Models.{ProviderGroup, NntpProvider}
use lore_x.Nntp.Scanner.{ScannerClient}
use lore_x.Repository.Releases.{ReleaseRepository}
use lore_x.Services.Indexing.{Indexing, index_batches}
use lore_x.Services.Indexing.Checkpoints.{Checkpoints, index_batches-unmoved}
use lore_x.Services.Search.{BookSearchRequest}
use lore_x.Services.Targeted.{
  Found, TargetedAcquisitionStats, Store, read_windows, targeted_batch, indexed_stats,
  indexed_stats, index_found, scan_requested_book_group, add_stats, acquire_groups, acquire_from,
  no_totals, acquire_requested_book,
}

-- An operation that leaves the checkpoints as they were.
abbrev Unmoved : {A : Type 0} → Checkpoints → Store A → Type 0
Unmoved cs m = m.0.checkpoints ≡ cs

indexed_stats-Unmoved :
    (cs : Checkpoints) (f : Found) (r : ReleaseRepository) (m : Result (Process Indexing))
    → r.checkpoints ≡ cs
    → ((p : Process Indexing) → m ≡ ok p → p.0.repository.checkpoints ≡ cs)
    → Unmoved cs (indexed_stats f r m)
indexed_stats-Unmoved cs f r (err e) h done = h
indexed_stats-Unmoved cs f r (ok (s, err e)) h done = done (s, err e) refl
indexed_stats-Unmoved cs f r (ok (s, ok u)) h done = done (s, ok u) refl

module _ (digest : Text → Text) (cs : Checkpoints) where
  index_found-Unmoved :
      (group : ProviderGroup) (f : Found) (r : ReleaseRepository)
      → r.checkpoints ≡ cs
      → Unmoved cs (index_found digest group f r)
  unfolding index_found
  index_found-Unmoved group f r h = elim (Bool-cases (is_empty f.matching_headers)) [
    | inl none_found ↦ rw none_found h
    | inr some_found ↦ rw some_found (
        indexed_stats-Unmoved cs f r
          (index_batches digest (max 1 (pos_part (min_ℤ group.scan_batch_size (pos 512))))
            (max 1 (min (length f.matching_headers) 4096)) (targeted_batch f ∷ []) r)
          h (λ p done. index_batches-unmoved digest _ _ (targeted_batch f) r p refl done ∙ h))
  ]

  scan-Unmoved :
      (provider : NntpProvider) (group : ProviderGroup) (client : ScannerClient)
      (request : BookSearchRequest) (n : ℤ) (r : ReleaseRepository)
      → r.checkpoints ≡ cs
      → Unmoved cs (scan_requested_book_group digest provider group client request n r)
  unfolding scan_requested_book_group
  scan-Unmoved provider group client request n r h = elim (Bool-cases (ltb_ℤ n (pos 1))) [
    | inl few ↦ rw few h
    | inr enough ↦ elim (Result-cases (read_windows provider group client request (pos_part n))) [
      | inl (f, read) ↦
          rw (enough, read, scan_requested_book_group) (index_found-Unmoved group f r h)
      | inr (e, failed) ↦ rw (enough, failed, scan_requested_book_group) h
    ]
  ]

  module _ (client_factory : NntpProvider → ScannerClient) (request : BookSearchRequest)
      (n : ℤ) where
    acquire_groups-Unmoved :
        (provider : NntpProvider) (groups : List ProviderGroup) (totals : TargetedAcquisitionStats)
        (r : ReleaseRepository)
        → r.checkpoints ≡ cs
        → Unmoved cs (acquire_groups digest client_factory request n provider groups totals r)
    unfolding acquire_groups
    acquire_groups-Unmoved provider [] totals r h = h
    acquire_groups-Unmoved provider (g ∷ gs) totals r h = elim (Bool-cases (not g.enabled)) [
      | inl skipped ↦ rw skipped (acquire_groups-Unmoved provider gs totals r h)
      | inr searched ↦ rw searched (
          after_keeps (λ r. r.checkpoints ≡ cs)
            (scan_requested_book_group digest provider g (client_factory provider) request n r) _
            (scan-Unmoved provider g (client_factory provider) request n r h)
            (λ stats r' h'.
              acquire_groups-Unmoved provider gs (add_stats digest totals stats) r' h'))
    ]

    acquire_from-Unmoved :
        (providers : List NntpProvider) (totals : TargetedAcquisitionStats) (r : ReleaseRepository)
        → r.checkpoints ≡ cs
        → Unmoved cs (acquire_from digest client_factory request n providers totals r)
    unfolding acquire_from
    acquire_from-Unmoved [] totals r h = h
    acquire_from-Unmoved (p ∷ ps) totals r h =
        after_keeps (λ r. r.checkpoints ≡ cs)
          (acquire_groups digest client_factory request n p p.groups totals r) _
          (acquire_groups-Unmoved p p.groups totals r h)
          (λ totals' r' h'. acquire_from-Unmoved ps totals' r' h')

-- A search for a book never moves a checkpoint: whatever the servers answer and wherever it fails,
-- the repository that it leaves has the checkpoints it began with.
pub acquire_requested_book-unmoved :
    (digest : Text → Text) (client_factory : NntpProvider → ScannerClient)
    (request : BookSearchRequest) (max_windows : ℤ) (providers : List NntpProvider)
    (r : ReleaseRepository)
    → (acquire_requested_book digest client_factory request max_windows providers r).0.checkpoints
      ≡ r.checkpoints
unfolding acquire_requested_book
acquire_requested_book-unmoved digest client_factory request max_windows providers r =
    acquire_from-Unmoved digest r.checkpoints client_factory request max_windows providers
      (no_totals digest client_factory request max_windows) r refl
