-- ===== src/Repository/Jobs/Progress.antt =====
-- The article states of a job, in `JobRepository`.
use lore_x.Prelude.{
  ◌+◌, ◌≤◌, ◌≡◌, refl, false, Option, none, some, List, [], ◌∷◌, if◌then◌else◌, length, ◌=?◌,
  nat_eq, list_eq, pair_eq, arith, =?-refl, pair_beq_iff,
}
use lore_x.Prelude.Int.{ℤ}
use lore_x.Text.{Text}
use lore_x.Dict.{get, put, get-put, contains_iff-get, length-put}
use lore_x.Domain.{ArticleHeader, DownloadArticleState}
use lore_x.Repository.Jobs.{
  JobRepository, completed, new_state, ensure_articles, is_pending, keep_pending, state_of,
  mark_article_completed,
}

-- The states after `ensure_articles`: those that were there, and new ones for the other articles.
abbrev pub ensured :
    Text
    → List ArticleHeader
    → Text × Text
    → Option DownloadArticleState
    → Option DownloadArticleState
ensured job_id headers key (some s) = some s
ensured job_id [] key none = none
ensured job_id (a ∷ others) key none =
    if ◌=?◌ {A = Text × Text} (job_id, a.message_id) key
    then some (new_state job_id a.message_id)
    else ensured job_id others key none

ensure_articles-get :
    (job_id : Text) (headers : List ArticleHeader) (r : JobRepository) (key : Text × Text)
    → get key (ensure_articles job_id headers r).0.articles
      ≡ ensured job_id headers key (get key r.articles)
unfolding ensure_articles
ensure_articles-get job_id [] r key = ground arith
ensure_articles-get job_id (a ∷ others) r key = ground (
  arith,
  ensure_articles-get job_id others r key,
  ensure_articles-get job_id others
      (record r {
        articles = put (job_id, a.message_id) (new_state job_id a.message_id) r.articles;
      })
      key,
  get-put {K = Text × Text} (job_id, a.message_id) key (new_state job_id a.message_id) r.articles,
  contains_iff-get {K = Text × Text} (job_id, a.message_id) r.articles,
  pair_beq_iff (job_id, a.message_id) key,
)

ensure_articles-length :
    (job_id : Text) (headers : List ArticleHeader) (r : JobRepository)
    → (length (ensure_articles job_id headers r).0.articles
        ≡ length r.articles + (ensure_articles job_id headers r).1)
      × ((ensure_articles job_id headers r).1 ≤ length headers)
unfolding ensure_articles
ensure_articles-length job_id [] r = omega arith
ensure_articles-length job_id (a ∷ others) r = ground (
  arith,
  ensure_articles-length job_id others r,
  ensure_articles-length job_id others (record r {
    articles = put (job_id, a.message_id) (new_state job_id a.message_id) r.articles;
  }),
  length-put {K = Text × Text} (job_id, a.message_id) (new_state job_id a.message_id) r.articles,
)

-- `ensure_articles` leaves the states that are there, adds a new one for each other message id of the
-- list, and returns how many it has added, at most one for each article.
pub ensure_articles_lem :
    (job_id : Text) (headers : List ArticleHeader) (r : JobRepository)
    → ((key : Text × Text)
        → get key (ensure_articles job_id headers r).0.articles
          ≡ ensured job_id headers key (get key r.articles))
      × (length (ensure_articles job_id headers r).0.articles
          ≡ length r.articles + (ensure_articles job_id headers r).1)
      × ((ensure_articles job_id headers r).1 ≤ length headers)
ensure_articles_lem job_id headers r =
    let (grown, few) = ensure_articles-length job_id headers r in
    (ensure_articles-get job_id headers r, grown, few)

mark_article_completed-is_pending :
    (job_id m provider : Text) (bytes : ℤ) (r : JobRepository) (other_job : Text)
    (a : ArticleHeader)
    → is_pending other_job (mark_article_completed job_id m provider bytes r).articles a ≡ (
        if ◌=?◌ {A = Text × Text} (job_id, m) (other_job, a.message_id)
        then false
        else is_pending other_job r.articles a)
unfolding is_pending mark_article_completed
mark_article_completed-is_pending job_id m provider bytes r other_job a = ground (
  arith,
  get-put {K = Text × Text} (job_id, m) (other_job, a.message_id)
      (record (state_of job_id m r) {
        status = completed;
        provider = some provider;
        bytes_completed = bytes;
      })
      r.articles,
  =?-refl completed,
)

-- The headers with another message id.
abbrev pub filter_not : Text → List ArticleHeader → List ArticleHeader
filter_not m [] = []
filter_not m (a ∷ others) =
    let rest = filter_not m others in if m =? a.message_id then rest else a ∷ rest

-- Completing an article of a job takes exactly the headers with its message id out of the job's
-- pending ones, in whatever list of headers these are looked for.
pub keep_pending-completed :
    (job_id m provider : Text) (bytes : ℤ) (r : JobRepository) (headers : List ArticleHeader)
    → keep_pending job_id (mark_article_completed job_id m provider bytes r).articles headers
      ≡ filter_not m (keep_pending job_id r.articles headers)
unfolding keep_pending
keep_pending-completed job_id m provider bytes r [] = refl
keep_pending-completed job_id m provider bytes r (a ∷ others) = ground (
  arith,
  keep_pending-completed job_id m provider bytes r others,
  mark_article_completed-is_pending job_id m provider bytes r job_id a,
  =?-refl job_id,
)
