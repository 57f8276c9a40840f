-- ===== src/Downloader/Providers/Tests.antt =====
-- Two providers, the first of which fails half-way.
use mathlib.Core.List.{Perm}
use lore_x.Prelude.{◌≡◌, refl, Bool, true, false, List, [], ◌∷◌, ◌++◌, keep, ◌⊎◌}
use lore_x.Prelude.Int.{pos}
use lore_x.Result.{ok, err, provider_temporary, article_unavailable}
use lore_x.Text.{Text, codes}
use lore_x.Dict.{get}
use lore_x.Nntp.Stream.{Bytes}
use lore_x.Indexer.Grouper.{text_le}
use lore_x.Downloader.Providers.{
  ProviderConfig, ProviderSet, config_le, insert_config, sort_enabled, ordered,
  stream_with_fallback,
}
use lore_x.Downloader.Providers.Order.{InOrder, ordered-InOrder}
use lore_x.Downloader.Providers.Fallback.{
  runs, IsRead, stream_with_fallback-IsRead, stream_with_fallback-mixed,
}

abbrev config : Text → Bool → ProviderConfig
config name fill = record {
  name = name;
  host = codes "h";
  port = pos 563;
  priority = pos 100;
  fill_server = fill;
  max_connections = pos 4;
  enabled = true;
  tls = true;
}

abbrev half : List Bytes
half = (1 ∷ []) ∷ []

abbrev full : List Bytes
full = (1 ∷ []) ∷ (2 ∷ []) ∷ []

abbrev set : ProviderSet
set = record {
  configs = config (codes "fill") true ∷ config (codes "main") false ∷ [];
  pools =
      (codes "fill", λ m. (full, ok tt)) ∷ (codes "main", λ m. (half, err provider_temporary)) ∷ [];
}

set-runs :
    runs (ordered set) (codes "<1>") set ≡ (half, err provider_temporary) ∷ (full, ok tt) ∷ []
unfolding ordered sort_enabled insert_config config_le text_le get
set-runs = refl

ordered-InOrder_example :
    InOrder (ordered set) × Perm (ordered set) (keep (λ c. c.enabled) set.configs)
ordered-InOrder_example = ordered-InOrder set

stream_with_fallback-IsRead_example :
    ((runs (ordered set) (codes "<1>") set ≡ [])
      × (stream_with_fallback (codes "<1>") set ≡ ([], err article_unavailable)))
    ⊎ IsRead (runs (ordered set) (codes "<1>") set) (stream_with_fallback (codes "<1>") set)
stream_with_fallback-IsRead_example = stream_with_fallback-IsRead (codes "<1>") set

stream_with_fallback-mixed_example : stream_with_fallback (codes "<1>") set ≡ (half ++ full, ok tt)
stream_with_fallback-mixed_example =
    stream_with_fallback-mixed (codes "<1>") set half full [] set-runs
