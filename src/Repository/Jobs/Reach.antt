-- ===== src/Repository/Jobs/Reach.antt =====
-- The repositories of jobs that the operations can reach (JobRepository of repository.py).
use lore_x.Prelude.{
  ℕ, ◌≡◌, Bool, true, false, inl, inr, List, [], ◌∷◌, list_eq, nat_eq, pair_eq, if◌then◌else◌,
}
use lore_x.Prelude.Int.{ℤ}
use lore_x.Result.{ok}
use lore_x.Text.{Text}
use lore_x.Dict.{get, contains}
use lore_x.Domain.{DownloadJob, ArticleHeader}
use lore_x.Repository.Jobs.{
  JobRepository, add_job, claim_next, mark_completed, mark_failed, recover_stale, ensure_articles,
  pending_articles, mark_article_started, mark_article_completed, mark_article_failed,
  persist_job_progress, record_provider_attempt,
}
use lore_x.Repository.Jobs.Claims.{IsQueue, Claimed, claim_next-Claimed, add_job-IsQueue}
use lore_x.Repository.Jobs.Recovery.{marks-IsQueue, recover_stale-IsQueue}

abbrev pub empty_jobs : JobRepository
empty_jobs = record {
  items = [];
  jobs = [];
  claimed_at = [];
  articles = [];
  progress = [];
  health = [];
}

-- One operation, by any worker, that changes the repository.
pub data Step : JobRepository → JobRepository → Type 0 where
  adds : (job : DownloadJob) (r : JobRepository) → Step r (add_job job r)
  claims : (now : ℕ) (r : JobRepository) → Step r (claim_next now r).0
  completes : (id : Text) (r r' : JobRepository) → mark_completed id r ≡ ok r' → Step r r'
  fails : (id : Text) (r r' : JobRepository) → mark_failed id r ≡ ok r' → Step r r'
  recovers : (before : ℕ) (r : JobRepository) → Step r (recover_stale before r).0
  ensures :
      (id : Text) (articles : List ArticleHeader) (r : JobRepository)
      → Step r (ensure_articles id articles r).0
  lists :
      (id : Text) (articles : List ArticleHeader) (r : JobRepository)
      → Step r (pending_articles id articles r).0
  starts :
      (id message provider : Text) (r : JobRepository)
      → Step r (mark_article_started id message provider r)
  delivers :
      (id message provider : Text) (bytes : ℤ) (r : JobRepository)
      → Step r (mark_article_completed id message provider bytes r)
  misses :
      (id message provider : Text) (r : JobRepository)
      → Step r (mark_article_failed id message provider r)
  persists :
      (id : Text) (bytes articles : ℤ) (r : JobRepository)
      → Step r (persist_job_progress id bytes articles r)
  attempts :
      (provider : Text) (success fallback : Bool) (bytes elapsed : ℤ) (r : JobRepository)
      → Step r (record_provider_attempt provider success fallback bytes elapsed r)

-- What any number of operations reach from the empty repository.
pub data Reach : JobRepository → Type 0 where
  begins : Reach empty_jobs
  goes_on : (r r' : JobRepository) → Reach r → Step r r' → Reach r'

empty-IsQueue : IsQueue empty_jobs
unfolding get
empty-IsQueue id = tt

either-IsQueue :
    (b : Bool) (x y : JobRepository × ℕ)
    → IsQueue x.0
    → IsQueue y.0
    → IsQueue (if b then x else y).0
either-IsQueue true x y h k = h
either-IsQueue false x y h k = k

ensure_articles-IsQueue :
    (id : Text) (articles : List ArticleHeader) (r : JobRepository)
    → IsQueue r
    → IsQueue (ensure_articles id articles r).0
unfolding ensure_articles
ensure_articles-IsQueue id [] r h = h
ensure_articles-IsQueue id (a ∷ others) r h =
    either-IsQueue (contains {K = Text × Text} (id, a.message_id) r.articles) _ _
      (ensure_articles-IsQueue id others r h) (ensure_articles-IsQueue id others _ h)

Step-IsQueue : (r r' : JobRepository) → Step r r' → IsQueue r → IsQueue r'
unfolding pending_articles mark_article_started mark_article_completed mark_article_failed
    persist_job_progress record_provider_attempt
Step-IsQueue r r' (adds job _) h = add_job-IsQueue job r h
Step-IsQueue r r' (claims now _) h = (claim_next-Claimed now r h).0
Step-IsQueue r r' (completes id _ _ done) h = marks-IsQueue id r r' h (inl done)
Step-IsQueue r r' (fails id _ _ done) h = marks-IsQueue id r r' h (inr done)
Step-IsQueue r r' (recovers before _) h = recover_stale-IsQueue before r h
Step-IsQueue r r' (ensures id articles _) h = ensure_articles-IsQueue id articles r h
Step-IsQueue r r' (lists id articles _) h = ensure_articles-IsQueue id articles r h
Step-IsQueue r r' (starts id message provider _) h = h
Step-IsQueue r r' (delivers id message provider bytes _) h = h
Step-IsQueue r r' (misses id message provider _) h = h
Step-IsQueue r r' (persists id bytes articles _) h = h
Step-IsQueue r r' (attempts provider success fallback bytes elapsed _) h = h

-- In every repository that operations in any order reach from the empty one, every queued job waits
-- in the queue, and a claim hands out a job that waits, or finds that no job does.
pub Reach-IsQueue :
    (now : ℕ) (r : JobRepository) → Reach r → IsQueue r × Claimed r (claim_next now r)
Reach-IsQueue now r begins = (empty-IsQueue, (claim_next-Claimed now empty_jobs empty-IsQueue).1)
Reach-IsQueue now r (goes_on r0 _ before step) =
    let h = Step-IsQueue r0 r step (Reach-IsQueue now r0 before).0 in
    (h, (claim_next-Claimed now r h).1)
