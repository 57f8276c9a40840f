-- ===== src/Services/Targeted/Tests.antt =====
-- Searches for one book in a small group (services/targeted_nntp_search.py).
use lore_x.Prelude.{
  min, ◌≡◌, refl, true, false, not, ◌&&◌, none, List, [], ◌∷◌, keep, length, leb, arith,
  if◌then◌else◌,
}
use lore_x.Prelude.Int.{ℤ, pos, leb_ℤ}
use lore_x.Result.{ok}
use lore_x.Text.{codes, text_functions}
use lore_x.Text.Number.{words}
use lore_x.Nntp.Models.{GroupInfo, OverviewRecord, ProviderGroup, NntpProvider}
use lore_x.Nntp.Scanner.{ScannerClient, log_in}
use lore_x.Repository.Releases.{empty_repository}
use lore_x.Services.Search.{BookSearchRequest, tokens}
use lore_x.Services.Targeted.{
  Found, nothing_found, is_one_of, required_words, subject_matches_request, read_windows,
}
use lore_x.Services.Targeted.Windows.{TilesDown, IsScan, read_windows-IsScan}
use lore_x.Services.Targeted.Words.{subject_matches_request_lem}
use lore_x.Services.Targeted.Unmoved.{acquire_requested_book-unmoved}
use lore_x.Services.Targeted.{acquire_requested_book}

abbrev request : BookSearchRequest
request = record {
  title = codes "The Left Hand of Darkness";
  author = none;
  narrator = none;
  series = none;
  series_number = none;
  isbn = none;
  asin = none;
}

abbrev group : ProviderGroup
group = record {
  group_name = codes "a.b.audiobooks";
  enabled = true;
  scan_batch_size = pos 100;
  backfill_days = pos 0;
}

abbrev provider : NntpProvider
provider = record {
  id = codes "p";
  name = codes "P";
  host = codes "h";
  port = pos 119;
  enabled = true;
  priority = pos 1;
  fill_server = false;
  max_connections = pos 1;
  username = none;
  password = none;
  groups = group ∷ [];
}

abbrev info : GroupInfo
info = record { count = pos 300; low = pos 1; high = pos 300; name = codes "a.b.audiobooks" }

-- Only the window that holds article 150 has the book.
abbrev rows : ℤ → ℤ → List OverviewRecord
rows s e =
    if leb_ℤ s (pos 150) && leb_ℤ (pos 150) e
    then record {
      article_number = pos 150;
      subject = codes "Left Hand of Darkness [1/2]";
      message_id = codes "<m>";
      bytes = pos 10;
    }
      ∷ []
    else record {
      article_number = e;
      subject = codes "Something else";
      message_id = codes "<n>";
      bytes = pos 10;
    }
      ∷ []

abbrev client : ScannerClient
client = record {
  connect = ok tt;
  authenticate = λ username password. ok tt;
  group = λ name. ok info;
  xover = λ s e. ok (rows s e);
}

read_windows-IsScan_example :
    (found : Found) × (ws : List (ℤ × ℤ)) × (read_windows provider group client request 8
      ≡ ok found)
    × TilesDown group client request info (min 8 200) info.high ws
    × IsScan group client request info rows ws nothing_found found
unfolding log_in
read_windows-IsScan_example =
    read_windows-IsScan provider group client request info rows 8 refl refl refl (λ s e. refl)
      (omega arith)

subject_matches_request_lem_example :
    subject_matches_request (codes "Left Hand Darkness") request
    ≡ leb
        (length (
          keep
            (λ w. not (is_one_of (tokens (codes "Left Hand Darkness")) w))
            (required_words request.title)))
        (if leb (length (required_words request.title)) 2 then 0 else 1)
unfolding tokens text_functions words
subject_matches_request_lem_example =
    subject_matches_request_lem (codes "Left Hand Darkness") request refl

acquire_requested_book-unmoved_example :
    (acquire_requested_book
      (λ s. s)
      (λ p. client)
      request
      (pos 8)
      (provider ∷ [])
      empty_repository).0.checkpoints
    ≡ []
acquire_requested_book-unmoved_example =
    acquire_requested_book-unmoved (λ s. s) (λ p. client) request (pos 8) (provider ∷ [])
      empty_repository
