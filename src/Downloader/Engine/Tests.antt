-- ===== src/Downloader/Engine/Tests.antt =====
-- Two articles on one provider, which has only the first of them (downloader/engine.py).
use lore_x.Prelude.{
  ◌≡◌, refl, true, false, none, [], ◌∷◌, if◌then◌else◌, ◌=?◌, list_eq, nat_eq, pair_eq,
}
use lore_x.Prelude.Int.{pos}
use lore_x.Result.{ok, err, article_unavailable}
use lore_x.Text.{Text, codes, text_functions}
use lore_x.Dict.{get, put, contains, remove}
use lore_x.Domain.{ArticleHeader, DownloadJob, IndexedRelease}
use lore_x.Repository.Jobs.{
  downloading, record_provider_attempt, mark_article_failed, mark_article_started,
  mark_article_completed,
}
use lore_x.Repository.Jobs.Reach.{empty_jobs}
use lore_x.Downloader.Article.{Download, download_article}
use lore_x.Downloader.Providers.{falls_back}
use lore_x.Downloader.Engine.{Engine, fill, submit_next, run_active, download_job}

abbrev article : Text → ArticleHeader
article m = record { message_id = m; subject = m; bytes = pos 2; group = codes "g" }

abbrev engine : Engine
engine = record {
  providers = record {
    configs =
        record {
          name = codes "p";
          host = codes "h";
          port = pos 563;
          priority = pos 1;
          fill_server = false;
          max_connections = pos 1;
          enabled = true;
          tls = true;
        }
        ∷ [];
    pools =
        (
          codes "p",
          λ m. if m =? codes "a" then ((7 ∷ 8 ∷ []) ∷ [], ok tt) else ([], err article_unavailable),
        )
        ∷ [];
  };
  download_root = codes "/d";
  max_active_articles = 1;
  digest = λ m. m;
  elapsed = λ name. pos 1;
  order = λ left. 0;
}

abbrev job : DownloadJob
job = record { id = codes "j"; release_id = codes "r"; status = downloading }

abbrev release : IndexedRelease
release = record {
  id = codes "r";
  title = codes "T";
  author = codes "A";
  narrator = none;
  format = codes "m4b";
  size = pos 1;
  completion = 1000;
  nzb = [];
  source_subject = codes "s";
}

abbrev begun : Download
begun = record {
  jobs = record empty_jobs { jobs = (codes "j", job) ∷ [] };
  cancels = [];
  partials = [];
  completes = [];
  progress = [];
}

one-delivered :
    (download_job engine job release (article (codes "a") ∷ []) begun).0.completes
    ≡ (codes "a", 7 ∷ 8 ∷ []) ∷ []
unfolding download_job text_functions get put contains remove fill submit_next run_active
    download_article
one-delivered = refl

two-failed :
    (download_job engine job release (article (codes "a") ∷ article (codes "b") ∷ []) begun).1
    ≡ err article_unavailable
unfolding download_job text_functions get put contains remove fill submit_next run_active
    download_article falls_back record_provider_attempt mark_article_failed mark_article_started
    mark_article_completed
two-failed = refl
