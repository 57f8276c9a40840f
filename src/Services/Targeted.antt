-- ===== src/Services/Targeted.antt =====
-- backend/lorex/services/targeted_nntp_search.py: the search for one book in the groups of the providers.
pub mod Windows
pub mod Unmoved
pub mod Words
mod Tests
use lore_x.Prelude.{
  ℕ, zero, suc, ◌+◌, ◌-◌, min, max, Bool, true, false, not, Option, none, some, List, [], ◌∷◌, ◌++◌,
  map, any, keep, length, leb, if◌then◌else◌, ◌=?◌, nat_eq, list_eq,
}
use lore_x.Prelude.Int.{ℤ, pos, pos_part, ◌+ℤ◌, ◌-ℤ◌, ltb_ℤ, max_ℤ, min_ℤ}
use lore_x.Result.{Result, ok, err, value_error, ◌>>=◌}
use lore_x.Process.{Process, Work, after}
use lore_x.Text.{Text, codes, is_empty}
use lore_x.Domain.{ArticleHeader}
use lore_x.Nntp.Models.{GroupInfo, OverviewRecord, ProviderGroup, NntpProvider}
use lore_x.Nntp.Scanner.{ScannerClient, log_in, header_of}
use lore_x.Repository.Releases.{ReleaseRepository}
use lore_x.Services.Indexing.{Indexing, IndexBatch, index_batches}
use lore_x.Services.Search.{BookSearchRequest, tokens}

pub record TargetedScanStats : Type 0 where
  pub windows_scanned : ℕ
  pub headers_examined : ℕ
  pub headers_matched : ℕ
  pub releases_indexed : ℕ
  pub releases_rejected : ℕ
  pub duplicate_releases : ℕ

pub record TargetedAcquisitionStats : Type 0 where
  pub groups_searched : ℕ
  pub scanned : TargetedScanStats

abbrev pub minor_words : List Text
minor_words = codes "a" ∷ codes "an" ∷ codes "the" ∷ codes "of" ∷ codes "and" ∷ codes "to" ∷ []

abbrev pub is_one_of : List Text → Text → Bool
is_one_of words word = any (λ w. w =? word) words

-- The title's words that count: all of them, where every one is minor.
unfoldable pub required_words : Text → List Text
unfolding tokens
required_words title =
    let significant = keep (λ w. not (is_one_of minor_words w)) (tokens title) in
    if is_empty significant then tokens title else significant

-- How many words there must be in the subject, of so many.
abbrev pub minimum_words : ℕ → ℕ
minimum_words n = if leb n 2 then n else max 2 (n - 1)

unfoldable pub subject_matches_request : Text → BookSearchRequest → Bool
unfolding required_words
subject_matches_request subject request =
    let required = required_words request.title in
    if is_empty (tokens request.title)
    then false
    else leb (minimum_words (length required)) (length (keep (is_one_of (tokens subject)) required))

-- What has been read so far.
pub record Found : Type 0 where
  pub windows_scanned : ℕ
  pub headers_examined : ℕ
  pub matching_headers : List ArticleHeader

module _ (group : ProviderGroup) (client : ScannerClient) (request : BookSearchRequest) where
  abbrev pub window_start : GroupInfo → ℤ → ℤ
  window_start info window_end = max_ℤ info.low ((window_end -ℤ group.scan_batch_size) +ℤ pos 1)

  unfoldable pub window_matches : List OverviewRecord → List ArticleHeader
  unfolding subject_matches_request
  window_matches rows =
      map (header_of group) (keep (λ row. subject_matches_request row.subject request) rows)

  abbrev pub with_window : List OverviewRecord → Found → Found
  with_window rows f = record {
    windows_scanned = suc f.windows_scanned;
    headers_examined = f.headers_examined + length rows;
    matching_headers = f.matching_headers ++ window_matches rows;
  }

  -- The loop, for so many windows at most.
  unfoldable pub scan_windows : ℕ → GroupInfo → ℤ → Found → Result Found
  unfolding window_matches
  scan_windows zero info window_end f = ok f
  scan_windows (suc n) info window_end f =
      if ltb_ℤ window_end info.low
      then ok f
      else client.xover (window_start info window_end) window_end >>= λ rows.
          if is_empty (window_matches rows)
          then scan_windows n info (window_start info window_end -ℤ pos 1) (with_window rows f)
          else ok (with_window rows f)

abbrev pub nothing_found : Found
nothing_found = record { windows_scanned = 0; headers_examined = 0; matching_headers = [] }

-- The conversation with one server.
unfoldable pub read_windows :
    NntpProvider → ProviderGroup → ScannerClient → BookSearchRequest → ℕ → Result Found
unfolding log_in scan_windows
read_windows provider group client request max_windows = client.connect >>= λ _.
    log_in provider client >>= λ _. client.group group.group_name >>= λ info.
    scan_windows group client request (min max_windows 200) info info.high nothing_found

abbrev pub targeted_batch : Found → IndexBatch
targeted_batch f = record { headers = f.matching_headers; checkpoint = none }

abbrev pub unmatched_stats : Found → TargetedScanStats
unmatched_stats f = record {
  windows_scanned = f.windows_scanned;
  headers_examined = f.headers_examined;
  headers_matched = 0;
  releases_indexed = 0;
  releases_rejected = 0;
  duplicate_releases = 0;
}

abbrev pub matched_stats : Found → Indexing → TargetedScanStats
matched_stats f s = record {
  windows_scanned = f.windows_scanned;
  headers_examined = f.headers_examined;
  headers_matched = length f.matching_headers;
  releases_indexed = s.releases_indexed;
  releases_rejected = s.releases_rejected;
  duplicate_releases = s.duplicate_releases;
}

-- The repository that an operation leaves, and its result.
abbrev pub Store : Type 0 → Type 0
Store A = Work ReleaseRepository A

abbrev pub indexed_stats :
    Found → ReleaseRepository → Result (Process Indexing) → Store TargetedScanStats
indexed_stats f repository (err e) = (repository, err e)
indexed_stats f repository (ok (s, err e)) = (s.repository, err e)
indexed_stats f repository (ok (s, ok _)) = (s.repository, ok (matched_stats f s))

module _ (digest : Text → Text) where
  -- What follows the conversation.
  unfoldable pub index_found : ProviderGroup → Found → ReleaseRepository → Store TargetedScanStats
  unfolding index_batches
  index_found group f repository =
      let indexing =
        index_batches digest (max 1 (pos_part (min_ℤ group.scan_batch_size (pos 512))))
          (max 1 (min (length f.matching_headers) 4096)) (targeted_batch f ∷ []) repository in
      if is_empty f.matching_headers
      then (repository, ok (unmatched_stats f))
      else indexed_stats f repository indexing

  -- The repository that is left, and the statistics or the exception.
  unfoldable pub scan_requested_book_group :
      NntpProvider
      → ProviderGroup
      → ScannerClient
      → BookSearchRequest
      → ℤ
      → ReleaseRepository
      → Store TargetedScanStats
  unfolding read_windows index_found
  scan_requested_book_group provider group client request max_windows repository =
      if ltb_ℤ max_windows (pos 1)
      then (repository, err (value_error "max_windows must be at least 1"))
      else elim (read_windows provider group client request (pos_part max_windows)) [
        | err e ↦ (repository, err e)
        | ok f ↦ index_found group f repository
      ]

  abbrev pub add_stats : TargetedAcquisitionStats → TargetedScanStats → TargetedAcquisitionStats
  add_stats totals stats = record {
    groups_searched = suc totals.groups_searched;
    scanned = record {
      windows_scanned = totals.scanned.windows_scanned + stats.windows_scanned;
      headers_examined = totals.scanned.headers_examined + stats.headers_examined;
      headers_matched = totals.scanned.headers_matched + stats.headers_matched;
      releases_indexed = totals.scanned.releases_indexed + stats.releases_indexed;
      releases_rejected = totals.scanned.releases_rejected + stats.releases_rejected;
      duplicate_releases = totals.scanned.duplicate_releases + stats.duplicate_releases;
    };
  }

  module _ (client_factory : NntpProvider → ScannerClient) (request : BookSearchRequest)
      (max_windows : ℤ) where
    -- The groups of one provider.
    unfoldable pub acquire_groups :
        NntpProvider
        → List ProviderGroup
        → TargetedAcquisitionStats
        → ReleaseRepository
        → Store TargetedAcquisitionStats
    unfolding scan_requested_book_group
    acquire_groups provider [] totals repository = (repository, ok totals)
    acquire_groups provider (group ∷ groups) totals repository =
        if not group.enabled
        then acquire_groups provider groups totals repository
        else after
            (scan_requested_book_group provider group (client_factory provider) request max_windows
              repository)
            (λ stats repository'.
              acquire_groups provider groups (add_stats totals stats) repository')

    -- The enabled providers, in the order of their list.
    unfoldable pub acquire_from :
        List NntpProvider
        → TargetedAcquisitionStats
        → ReleaseRepository
        → Store TargetedAcquisitionStats
    unfolding acquire_groups
    acquire_from [] totals repository = (repository, ok totals)
    acquire_from (provider ∷ providers) totals repository =
        after (acquire_groups provider provider.groups totals repository)
          (λ totals' repository'. acquire_from providers totals' repository')

    abbrev pub no_totals : TargetedAcquisitionStats
    no_totals = record { groups_searched = 0; scanned = unmatched_stats nothing_found }

    unfoldable pub acquire_requested_book :
        List NntpProvider → ReleaseRepository → Store TargetedAcquisitionStats
    unfolding acquire_from
    acquire_requested_book providers repository = acquire_from providers no_totals repository
