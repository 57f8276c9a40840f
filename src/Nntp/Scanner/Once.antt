-- ===== src/Nntp/Scanner/Once.antt =====
-- What one scan leaves in the repository.
use lore_x.Prelude.{
  ℕ, ◌≡◌, refl, Option, none, some, List, [], ◌∷◌, inl, inr, max, list_eq, nat_eq, pair_eq,
}
use lore_x.Prelude.Int.{ℤ, pos, pos_part, min_ℤ}
use lore_x.Result.{Result, ok, err}
use lore_x.Process.{Process}
use lore_x.Text.{Text}
use lore_x.Dict.{put}
use lore_x.Nntp.Models.{ProviderGroup, NntpProvider, OverviewRecord}
use lore_x.Repository.Releases.{ReleaseRepository}
use lore_x.Services.Indexing.{Indexing, index_batches}
use lore_x.Services.Indexing.Checkpoints.{index_batches-Moved}
use lore_x.Nntp.Scanner.{
  ScannerClient, ScanStats, scan_stats, scan_batch, read_window, scan_group_once,
}

-- The checkpoints afterwards: the end of the scanned window is set, or nothing has changed.
abbrev pub Advanced :
    NntpProvider → ProviderGroup → ReleaseRepository → ReleaseRepository → Result ScanStats → Type 0
Advanced provider group before after (err e) = after.checkpoints ≡ before.checkpoints
Advanced provider group before after (ok stats) = elim stats.range [
  | none ↦ after ≡ before
  | some (start, end) ↦
      after.checkpoints
      ≡ put (provider.id, group.group_name)
          (record { source = provider.id; group = group.group_name; article_number = end })
          before.checkpoints
]

abbrev outcome :
    ReleaseRepository → ℤ → ℤ → Result (Process Indexing) → ReleaseRepository × Result ScanStats
outcome repository start end (err e) = (repository, err e)
outcome repository start end (ok (s, err e)) = (s.repository, err e)
outcome repository start end (ok (s, ok _)) = (s.repository, ok (scan_stats start end s))

module _ (digest : Text → Text) (provider : NntpProvider) (group : ProviderGroup)
    (r : ReleaseRepository) where
  indexed-Advanced :
      (start end : ℤ) (rows : List OverviewRecord) (n : ℕ) (p : Result (Process Indexing))
      → index_batches digest n 4096 (scan_batch provider group end rows ∷ []) r ≡ p
      → Advanced provider group r (outcome r start end p).0 (outcome r start end p).1
  indexed-Advanced start end rows n (err e) q = refl
  indexed-Advanced start end rows n (ok (s, err e)) q =
      elim (index_batches-Moved digest n 4096 (scan_batch provider group end rows) _ r (s, err e)
        refl q) [ inl (h, _) ↦ absurd cc | inr (x, h, same) ↦ same ]
  indexed-Advanced start end rows n (ok (s, ok tt)) q =
      elim (index_batches-Moved digest n 4096 (scan_batch provider group end rows) _ r (s, ok tt)
        refl q) [ inl (h, moved) ↦ moved | inr (x, h, same) ↦ absurd cc ]

  scanned-Advanced :
      (client : ScannerClient) (mode : Text) (w : Result (Option (ℤ × ℤ × List OverviewRecord)))
      → read_window provider group client mode r ≡ w
      → Advanced provider group r
          (scan_group_once digest provider group client mode r).0
          (scan_group_once digest provider group client mode r).1
  unfolding scan_group_once
  scanned-Advanced client mode (err e) q = rw (q, scan_group_once) refl
  scanned-Advanced client mode (ok none) q = rw (q, scan_group_once) refl
  scanned-Advanced client mode (ok (some (start, end, rows))) q =
      let n = max 1 (pos_part (min_ℤ group.scan_batch_size (pos 512))) in
      rw (q, scan_group_once)
        (indexed-Advanced start end rows n
          (index_batches digest n 4096 (scan_batch provider group end rows ∷ []) r) refl)

-- Whatever the server answers, a scan that returns with a range has set the checkpoint of the
-- provider and the group to the end of the range and left every other one; a scan that returns
-- without a range has changed nothing; and one that raises has moved no checkpoint.
pub scan_group_once-Advanced :
    (digest : Text → Text) (provider : NntpProvider) (group : ProviderGroup)
    (client : ScannerClient) (mode : Text) (r : ReleaseRepository)
    → Advanced provider group r
        (scan_group_once digest provider group client mode r).0
        (scan_group_once digest provider group client mode r).1
scan_group_once-Advanced digest provider group client mode r =
    scanned-Advanced digest provider group r client mode (read_window provider group client mode r)
      refl
