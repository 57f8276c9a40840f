-- ===== src/Services/Downloads/Tests.antt =====
-- A queued job whose download fails (services/download_jobs.py).
use lore_x.Prelude.{refl, true, false, none, some, [], ◌∷◌, list_eq, nat_eq}
use lore_x.Prelude.Int.{pos}
use lore_x.Result.{ok, err, runtime_error, article_unavailable}
use lore_x.Text.{codes}
use lore_x.Downloader.Engine.{Engine}
use lore_x.Domain.{ArticleHeader, DownloadJob, IndexedRelease}
use lore_x.Repository.Jobs.{JobRepository, queued, add_job}
use lore_x.Repository.Jobs.Claims.{IsQueue}
use lore_x.Repository.Jobs.Reach.{empty_jobs, adds, begins, goes_on, Reach-IsQueue}
use lore_x.Services.Downloads.{Container, process_next_download}
use lore_x.Services.Downloads.Finished.{no_methods, Finished, process_next_download-Finished}

abbrev release : IndexedRelease
release = record {
  id = codes "r";
  title = codes "T";
  author = codes "A";
  narrator = none;
  format = codes "m4b";
  size = pos 1;
  completion = 1000;
  nzb = [];
  source_subject = codes "s";
}

abbrev header : ArticleHeader
header = record { message_id = codes "<m>"; subject = codes "s"; bytes = pos 1; group = codes "g" }

-- One provider, which does not have the article.
abbrev engine : Engine
engine = record {
  providers = record {
    configs =
        record {
          name = codes "p";
          host = codes "h";
          port = pos 563;
          priority = pos 1;
          fill_server = false;
          max_connections = pos 1;
          enabled = true;
          tls = true;
        }
        ∷ [];
    pools = (codes "p", λ m. ([], err article_unavailable)) ∷ [];
  };
  download_root = codes "/downloads";
  max_active_articles = 8;
  digest = λ m. m;
  elapsed = λ name. pos 1;
  order = λ left. 0;
}

-- The live download fails, and marks the job itself.
abbrev container : Container
container = record {
  releases = (codes "r", release) ∷ [];
  get_articles = λ id. header ∷ [];
  optional = no_methods;
  mock_api_enabled = false;
  mock_release_ids = [];
  mock_downloader = λ r. err (runtime_error "mock");
  downloader = none;
  has_nntp_providers = true;
  credential_key_available = true;
  engine = ok engine;
  complete_files = λ id. [];
  cancels = λ id. [];
  postprocessor = some (λ r. ok (codes "/staging/T.m4b"));
  import_download = λ r. err (runtime_error "mock");
  import_file = λ r path. err (runtime_error "disk full");
}

abbrev job : DownloadJob
job = record { id = codes "j"; release_id = codes "r"; status = queued }

abbrev one_job : JobRepository
one_job = add_job job empty_jobs

one_job-IsQueue : IsQueue one_job
one_job-IsQueue =
    (Reach-IsQueue 0 one_job (goes_on empty_jobs one_job begins (adds job empty_jobs))).0

process_next_download-Finished_example :
    Finished one_job (process_next_download container 7 one_job)
process_next_download-Finished_example =
    process_next_download-Finished container 7 one_job refl one_job-IsQueue
