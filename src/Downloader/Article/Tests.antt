-- ===== src/Downloader/Article/Tests.antt =====
-- An article that the first provider cuts off and the second delivers.
use lore_x.Prelude.{◌≡◌, refl, Bool, true, false, none, [], ◌∷◌, list_eq, nat_eq, pair_eq}
use lore_x.Prelude.Int.{ℤ, pos}
use lore_x.Result.{ok, err, provider_temporary}
use lore_x.Text.{Text, codes}
use lore_x.Dict.{get}
use lore_x.Indexer.Grouper.{text_le}
use lore_x.Downloader.Providers.{
  ProviderConfig, ProviderSet, ordered, sort_enabled, insert_config, config_le, falls_back,
}
use lore_x.Downloader.Article.{
  Download, download_article, attempt_from, attempt, finished, write_chunks, cancel_requested,
  is_cancelled,
}
use lore_x.Downloader.Article.Files.{download_article-no_partial}
use lore_x.Downloader.Article.Content.{Delivered, download_article-Delivered}

abbrev config : Text → Bool → ProviderConfig
config name fill = record {
  name = name;
  host = codes "h";
  port = pos 563;
  priority = pos 100;
  fill_server = fill;
  max_connections = pos 4;
  enabled = true;
  tls = true;
}

abbrev set : ProviderSet
set = record {
  configs = config (codes "fill") true ∷ config (codes "main") false ∷ [];
  pools =
      (codes "fill", λ m. ((1 ∷ []) ∷ (2 ∷ []) ∷ [], ok tt))
      ∷ (codes "main", λ m. ((1 ∷ []) ∷ [], err provider_temporary))
      ∷ [];
}

abbrev start : Download
start = record {
  jobs = record {
    items = [];
    jobs = [];
    claimed_at = [];
    articles = [];
    progress = [];
    health = [];
  };
  cancels = [];
  partials = [];
  completes = [];
  progress = [];
}

abbrev digest : Text → Text
digest m = m

abbrev elapsed : Text → ℤ
elapsed name = pos 3

abbrev after : Download
after = (download_article digest elapsed (codes "j") (codes "m") set start).0

returned :
    download_article digest elapsed (codes "j") (codes "m") set start
    ≡ (after, ok (2, codes "fill"))
unfolding download_article attempt_from attempt finished write_chunks cancel_requested is_cancelled
    ordered sort_enabled insert_config config_le text_le falls_back get
returned = refl

download_article-no_partial_example : get (codes "m") after.partials ≡ none
unfolding get
download_article-no_partial_example =
    download_article-no_partial digest elapsed (codes "j") (codes "m") set start refl

download_article-Delivered_example :
    Delivered digest elapsed (codes "j") (codes "m") set after 2 (codes "fill")
download_article-Delivered_example =
    download_article-Delivered digest elapsed (codes "j") (codes "m") set start after 2
      (codes "fill") returned
