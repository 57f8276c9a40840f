-- ===== src/Nntp/Scanner/Tests.antt =====
-- A scan of a concrete group.
use lore_x.Prelude.{◌≡◌, refl, arith, [], ◌∷◌, none, some, true, false}
use lore_x.Prelude.Int.{pos, ◌≤ℤ◌, ◌+ℤ◌, ◌-ℤ◌, max_ℤ, min_ℤ}
use lore_x.Result.{ok}
use lore_x.Text.{Text, codes}
use lore_x.Domain.{IndexCheckpoint}
use lore_x.Nntp.Models.{GroupInfo, OverviewRecord, ProviderGroup, NntpProvider}
use lore_x.Repository.Releases.{empty_repository}
use lore_x.Nntp.Scanner.{ScannerClient, scan_range, scan_start, scan_window, scan_group_once}
use lore_x.Nntp.Scanner.Window.{Beyond, scan_range-bounds}
use lore_x.Nntp.Scanner.Tiling.{Tiles, windows, backfill-Tiles}
use lore_x.Nntp.Scanner.Once.{Advanced, scan_group_once-Advanced}

abbrev group_info : GroupInfo
group_info = record { count = pos 9; low = pos 3; high = pos 9; name = codes "g" }

abbrev seen : IndexCheckpoint
seen = record { source = codes "p"; group = codes "g"; article_number = pos 4 }

next_window : scan_range (some seen) group_info (pos 2) (codes "live") ≡ ok (some (pos 5, pos 6))
unfolding scan_range scan_start scan_window max_ℤ min_ℤ ◌+ℤ◌ ◌-ℤ◌
next_window = refl

scan_range-bounds_example :
    (pos 3 ≤ℤ pos 5)
    × (pos 5 ≤ℤ pos 6)
    × (pos 6 ≤ℤ pos 9)
    × (((pos 6 -ℤ pos 5) +ℤ pos 1) ≤ℤ pos 2)
    × Beyond (some seen) (pos 5)
scan_range-bounds_example =
    scan_range-bounds (some seen) group_info (pos 2) (codes "live") (pos 5) (pos 6) (omega arith)
      next_window

enough : pos 9 ≤ℤ ((pos 3 +ℤ pos 7) -ℤ pos 1)
unfolding ◌+ℤ◌ ◌-ℤ◌
enough = omega arith

backfill-Tiles_example :
    Tiles
      (pos 3)
      (pos 9)
      (windows group_info (pos 2) (codes "p") (codes "g") 7 (codes "backfill") none)
backfill-Tiles_example =
    backfill-Tiles group_info (pos 2) (codes "p") (codes "g") (omega arith) 7 enough

abbrev group : ProviderGroup
group = record {
  group_name = codes "g";
  enabled = true;
  scan_batch_size = pos 100;
  backfill_days = pos 0;
}

abbrev provider : NntpProvider
provider = record {
  id = codes "p";
  name = codes "P";
  host = codes "h";
  port = pos 563;
  enabled = true;
  priority = pos 1;
  fill_server = false;
  max_connections = pos 4;
  username = none;
  password = none;
  groups = group ∷ [];
}

abbrev row : OverviewRecord
row = record {
  article_number = pos 9;
  subject = codes "A - B - C.m4b [1/1]";
  message_id = codes "<9>";
  bytes = pos 5;
}

abbrev client : ScannerClient
client = record {
  connect = ok tt;
  authenticate = λ u p. ok tt;
  group = λ n. ok group_info;
  xover = λ a b. ok (row ∷ []);
}

abbrev digest : Text → Text
digest s = s

scan_group_once-Advanced_example :
    Advanced provider group empty_repository
      (scan_group_once digest provider group client (codes "live") empty_repository).0
      (scan_group_once digest provider group client (codes "live") empty_repository).1
scan_group_once-Advanced_example =
    scan_group_once-Advanced digest provider group client (codes "live") empty_repository
