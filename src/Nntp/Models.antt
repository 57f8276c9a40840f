-- ===== src/Nntp/Models.antt =====
-- backend/lorex/nntp/models.py (groups and providers) and nntp/protocol.py.
use lore_x.Prelude.{Bool, not, ◌&&◌, Option, List, if◌then◌else◌}
use lore_x.Prelude.Int.{ℤ, pos, leb_ℤ}
use lore_x.Result.{Result, ok, err, value_error}
use lore_x.Text.{Text, is_empty, strip, casefold}

pub record GroupInfo : Type 0 where
  pub count : ℤ
  pub low : ℤ
  pub high : ℤ
  pub name : Text

pub record OverviewRecord : Type 0 where
  pub article_number : ℤ
  pub subject : Text
  pub message_id : Text
  pub bytes : ℤ

pub record ProviderGroup : Type 0 where
  pub group_name : Text
  pub enabled : Bool
  pub scan_batch_size : ℤ
  pub backfill_days : ℤ

-- `NntpProviderGroup(…)` with its `__post_init__`
unfoldable pub provider_group : Text → Bool → ℤ → ℤ → Result ProviderGroup
provider_group group_name enabled scan_batch_size backfill_days =
    if is_empty (strip group_name)
    then err (value_error "group name must not be empty")
    else if not (leb_ℤ (pos 100) scan_batch_size && leb_ℤ scan_batch_size (pos 50000))
    then err (value_error "scan_batch_size must be between 100 and 50000")
    else if not (leb_ℤ (pos 0) backfill_days && leb_ℤ backfill_days (pos 10000))
    then err (value_error "backfill_days must be between 0 and 10000")
    else ok (record {
      group_name = strip group_name;
      enabled = enabled;
      scan_batch_size = scan_batch_size;
      backfill_days = backfill_days;
    })

unfoldable pub normalized_name : ProviderGroup → Text
normalized_name g = casefold g.group_name

pub record NntpProvider : Type 0 where
  pub id : Text
  pub name : Text
  pub host : Text
  pub port : ℤ
  pub enabled : Bool
  pub priority : ℤ
  pub fill_server : Bool
  pub max_connections : ℤ
  pub username : Option Text
  pub password : Option Text
  pub groups : List ProviderGroup
