-- ===== src/Nntp/Scanner.antt =====
-- backend/lorex/nntp/scanner.py. The client is an interface: what the server answers to each request.
pub mod Window
pub mod Once
pub mod Tiling
mod Tests
use lore_x.Prelude.{
  ℕ, ◌≡◌, Bool, true, false, Option, none, some, List, map, if◌then◌else◌, length, [], ◌∷◌, max,
  min, ◌=?◌, nat_eq, list_eq,
}
use lore_x.Prelude.Int.{ℤ, pos, pos_part, ◌+ℤ◌, ◌-ℤ◌, leb_ℤ, ltb_ℤ, max_ℤ, min_ℤ}
use lore_x.Result.{Result, ok, err, Error, value_error, ◌>>=◌}
use lore_x.Text.{Text, codes}
use lore_x.Domain.{ArticleHeader, IndexCheckpoint}
use lore_x.Nntp.Models.{GroupInfo, OverviewRecord, ProviderGroup, NntpProvider}
use lore_x.Repository.Releases.{ReleaseRepository, get_checkpoint}
use lore_x.Services.Indexing.{Indexing, IndexBatch, index_batches}

pub record ScannerClient : Type 0 where
  pub connect : Result (Unit {0})
  pub authenticate : Text → Text → Result (Unit {0})
  pub group : Text → Result GroupInfo
  pub xover : ℤ → ℤ → Result (List OverviewRecord)

pub record ScanStats : Type 0 where
  pub range : Option (ℤ × ℤ)
  pub headers_received : ℕ
  pub releases_indexed : ℕ
  pub releases_rejected : ℕ
  pub duplicate_releases : ℕ

-- The first article to ask for; `none` where nothing is left.
unfoldable pub scan_start : Option IndexCheckpoint → GroupInfo → ℤ → Text → Result (Option ℤ)
scan_start (some checkpoint) info batch_size mode =
    if leb_ℤ info.high checkpoint.article_number
    then ok none
    else ok (some (max_ℤ info.low (checkpoint.article_number +ℤ pos 1)))
scan_start none info batch_size mode =
    if mode =? codes "live"
    then ok (some (max_ℤ info.low ((info.high -ℤ batch_size) +ℤ pos 1)))
    else if mode =? codes "backfill"
    then ok (some info.low)
    else err (value_error "mode must be 'live' or 'backfill'")

unfoldable pub scan_window : GroupInfo → ℤ → ℤ → Option (ℤ × ℤ)
scan_window info batch_size start =
    if ltb_ℤ info.high start
    then none
    else some (start, min_ℤ info.high ((start +ℤ batch_size) -ℤ pos 1))

unfoldable pub scan_range : Option IndexCheckpoint → GroupInfo → ℤ → Text → Result (Option (ℤ × ℤ))
unfolding scan_start scan_window
scan_range checkpoint info batch_size mode = elim (scan_start checkpoint info batch_size mode) [
  | err e ↦ err e
  | ok none ↦ ok none
  | ok (some start) ↦ ok (scan_window info batch_size start)
]

-- The credentials come together or not at all.
unfoldable pub log_in : NntpProvider → ScannerClient → Result (Unit {0})
log_in provider client = elim provider.username [
  | none ↦ elim provider.password [
    | none ↦ ok tt
    | some password ↦ err (value_error "NNTP username and password must be configured together")
  ]
  | some username ↦ elim provider.password [
    | none ↦ err (value_error "NNTP username and password must be configured together")
    | some password ↦ client.authenticate username password
  ]
]

abbrev pub header_of : ProviderGroup → OverviewRecord → ArticleHeader
header_of group row = record {
  message_id = row.message_id;
  subject = row.subject;
  bytes = row.bytes;
  group = group.group_name;
}

-- What is read from the server before anything is written: the range and its rows.
unfoldable pub read_window :
    NntpProvider
    → ProviderGroup
    → ScannerClient
    → Text
    → ReleaseRepository
    → Result (Option (ℤ × ℤ × List OverviewRecord))
unfolding scan_range log_in
read_window provider group client mode repository =
    let checkpoint = get_checkpoint provider.id group.group_name repository in
    client.connect >>= λ _. log_in provider client >>= λ _.
    client.group group.group_name >>= λ info.
    scan_range checkpoint info group.scan_batch_size mode >>= λ requested. elim requested [
      | none ↦ ok none
      | some (start, end) ↦ client.xover start end >>= λ rows. ok (some (start, end, rows))
    ]

abbrev pub scan_batch : NntpProvider → ProviderGroup → ℤ → List OverviewRecord → IndexBatch
scan_batch provider group end rows = record {
  headers = map (header_of group) rows;
  checkpoint =
      some (record { source = provider.id; group = group.group_name; article_number = end });
}

abbrev pub scan_stats : ℤ → ℤ → Indexing → ScanStats
scan_stats start end s = record {
  range = some (start, end);
  headers_received = s.headers_received;
  releases_indexed = s.releases_indexed;
  releases_rejected = s.releases_rejected;
  duplicate_releases = s.duplicate_releases;
}

abbrev pub nothing_scanned : ScanStats
nothing_scanned = record {
  range = none;
  headers_received = 0;
  releases_indexed = 0;
  releases_rejected = 0;
  duplicate_releases = 0;
}

-- `scan_group_once`: the repository that is left, and the statistics or the exception.
unfoldable pub scan_group_once :
    (Text → Text)
    → NntpProvider
    → ProviderGroup
    → ScannerClient
    → Text
    → ReleaseRepository
    → ReleaseRepository × Result ScanStats
unfolding read_window
scan_group_once digest provider group client mode repository =
    elim (read_window provider group client mode repository) [
      | err e ↦ (repository, err e)
      | ok none ↦ (repository, ok nothing_scanned)
      | ok (some (start, end, rows)) ↦
          elim (index_batches digest (max 1 (pos_part (min_ℤ group.scan_batch_size (pos 512)))) 4096
            (scan_batch provider group end rows ∷ []) repository) [
              | err e ↦ (repository, err e)
              | ok (s, err e) ↦ (s.repository, err e)
              | ok (s, ok _) ↦ (s.repository, ok (scan_stats start end s))
            ]
    ]
