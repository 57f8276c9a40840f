-- ===== src/Repository/Jobs.antt =====
-- `JobRepository` of backend/lorex/repository.py. Times are numbers; the clock's reading is an argument.
pub mod Claims
pub mod Progress
pub mod Recovery
pub mod Reach
mod Tests
use lore_x.Prelude.{
  ℕ, suc, ◌+◌, ◌≡◌, Bool, true, false, not, Option, none, some, List, [], ◌∷◌, ◌++◌, ltb,
  if◌then◌else◌, ◌=?◌, nat_eq, list_eq, pair_eq,
}
use lore_x.Prelude.Int.{ℤ, pos, ◌+ℤ◌}
use lore_x.Result.{Result, ok, err, key_error}
use lore_x.Text.{Text, codes}
use lore_x.Dict.{Dict, get, contains, put, remove}
use lore_x.Domain.{ArticleHeader, DownloadJob, DownloadArticleState, ProviderHealthSnapshot}

pub record JobRepository : Type 0 where
  pub items : List DownloadJob
  pub jobs : Dict Text DownloadJob
  pub claimed_at : Dict Text ℕ
  pub articles : Dict (Text × Text) DownloadArticleState
  pub progress : Dict Text (ℤ × ℤ)
  pub health : Dict Text ProviderHealthSnapshot

abbrev pub queued : Text
queued = codes "queued"

abbrev pub downloading : Text
downloading = codes "downloading"

abbrev pub completed : Text
completed = codes "completed"

abbrev pub failed : Text
failed = codes "failed"

abbrev pub with_status : Text → DownloadJob → DownloadJob
with_status s j = record j { status = s }

unfoldable pub add_job : DownloadJob → JobRepository → JobRepository
add_job job r = record r {
  jobs = put job.id job r.jobs;
  items = if job.status =? queued then r.items ++ job ∷ [] else r.items;
}

unfoldable pub get_job : Text → JobRepository → Option DownloadJob
get_job id r = get id r.jobs

-- The loop of `claim_next`, over the queue.
unfoldable pub claim_from :
    ℕ → List DownloadJob → JobRepository → JobRepository × Option DownloadJob
claim_from now [] r = (record r { items = [] }, none)
claim_from now (q ∷ qs) r =
    let skipped = claim_from now qs r in
    elim (get q.id r.jobs) [
      | none ↦ skipped
      | some current ↦
          if current.status =? queued
          then (
            record r {
              items = qs;
              jobs = put current.id (with_status downloading current) r.jobs;
              claimed_at = put current.id now r.claimed_at;
            },
            some (with_status downloading current),
          )
          else skipped
    ]

-- `claim_next`; the worker's name is not looked at.
unfoldable pub claim_next : ℕ → JobRepository → JobRepository × Option DownloadJob
unfolding claim_from
claim_next now r = claim_from now r.items r

-- `mark_completed` and `mark_failed`
unfoldable pub mark : Text → Text → JobRepository → Result JobRepository
mark status id r = elim (get id r.jobs) [
  | none ↦ err (key_error "job")
  | some job ↦ ok (record r { jobs = put id (with_status status job) r.jobs })
]

unfoldable pub mark_completed : Text → JobRepository → Result JobRepository
unfolding mark
mark_completed = mark completed

unfoldable pub mark_failed : Text → JobRepository → Result JobRepository
unfolding mark
mark_failed = mark failed

abbrev pub or_zero : Option ℕ → ℕ
or_zero none = 0
or_zero (some n) = n

-- `status_counts`, over the jobs that are left to count.
unfoldable pub count_statuses : Dict Text DownloadJob → Dict Text ℕ → Dict Text ℕ
count_statuses [] counts = counts
count_statuses ((id, job) ∷ jobs) counts =
    count_statuses jobs (put job.status (suc (or_zero (get job.status counts))) counts)

unfoldable pub status_counts : JobRepository → Dict Text ℕ
unfolding count_statuses
status_counts r = count_statuses r.jobs []

-- `recover_stale`, over the claims as they stood at the call.
unfoldable pub recover_claims : ℕ → Dict Text ℕ → JobRepository → JobRepository × ℕ
recover_claims stale_before [] r = (r, 0)
recover_claims stale_before ((id, claimed) ∷ claims) r =
    let kept = recover_claims stale_before claims r in
    elim (get id r.jobs) [
      | none ↦ kept
      | some job ↦
          let job' = with_status queued job in
          let recovered = recover_claims stale_before claims (record r {
            jobs = put id job' r.jobs;
            items = r.items ++ job' ∷ [];
            claimed_at = remove id r.claimed_at;
          }) in
          if not (job.status =? downloading)
          then kept
          else if ltb claimed stale_before
          then (recovered.0, suc recovered.1)
          else kept
    ]

unfoldable pub recover_stale : ℕ → JobRepository → JobRepository × ℕ
unfolding recover_claims
recover_stale stale_before r = recover_claims stale_before r.claimed_at r

-- `DownloadArticleState(job_id=…, message_id=…)`
abbrev pub new_state : Text → Text → DownloadArticleState
new_state job_id message_id = record {
  job_id = job_id;
  message_id = message_id;
  status = codes "pending";
  provider = none;
  attempts = 0;
  bytes_completed = pos 0;
}

unfoldable pub ensure_articles : Text → List ArticleHeader → JobRepository → JobRepository × ℕ
ensure_articles job_id [] r = (r, 0)
ensure_articles job_id (a ∷ others) r =
    let present = ensure_articles job_id others r in
    let (r', n) = ensure_articles job_id others (record r {
      articles = put (job_id, a.message_id) (new_state job_id a.message_id) r.articles;
    }) in
    if contains (job_id, a.message_id) r.articles then present else (r', suc n)

-- The test of `pending_articles`; after `ensure_articles` the key is there.
unfoldable pub is_pending : Text → Dict (Text × Text) DownloadArticleState → ArticleHeader → Bool
is_pending job_id states a = elim (get (job_id, a.message_id) states) [
  | none ↦ true
  | some s ↦ not (s.status =? completed)
]

unfoldable pub keep_pending :
    Text → Dict (Text × Text) DownloadArticleState → List ArticleHeader → List ArticleHeader
unfolding is_pending
keep_pending job_id states [] = []
keep_pending job_id states (a ∷ others) =
    let rest = keep_pending job_id states others in
    if is_pending job_id states a then a ∷ rest else rest

unfoldable pub pending_articles :
    Text → List ArticleHeader → JobRepository → JobRepository × List ArticleHeader
unfolding ensure_articles keep_pending
pending_articles job_id headers r =
    let r' = (ensure_articles job_id headers r).0 in (r', keep_pending job_id r'.articles headers)

abbrev pub state_of : Text → Text → JobRepository → DownloadArticleState
state_of job_id message_id r = elim (get (job_id, message_id) r.articles) [
  | none ↦ new_state job_id message_id
  | some s ↦ s
]

abbrev pub put_state : Text → Text → DownloadArticleState → JobRepository → JobRepository
put_state job_id message_id s r = record r { articles = put (job_id, message_id) s r.articles }

unfoldable pub mark_article_started : Text → Text → Text → JobRepository → JobRepository
mark_article_started job_id message_id provider r =
    let s = state_of job_id message_id r in
    put_state job_id message_id
      (record s {
        status = codes "in_progress";
        provider = some provider;
        attempts = suc s.attempts;
      })
      r

unfoldable pub mark_article_completed : Text → Text → Text → ℤ → JobRepository → JobRepository
mark_article_completed job_id message_id provider bytes r =
    put_state job_id message_id
      (record (state_of job_id message_id r) {
        status = completed;
        provider = some provider;
        bytes_completed = bytes;
      })
      r

unfoldable pub mark_article_failed : Text → Text → Text → JobRepository → JobRepository
mark_article_failed job_id message_id provider r =
    put_state job_id message_id
      (record (state_of job_id message_id r) { status = failed; provider = some provider }) r

unfoldable pub progress_of : Text → JobRepository → ℤ × ℤ
progress_of job_id r = elim (get job_id r.progress) [ none ↦ (pos 0, pos 0) | some p ↦ p ]

unfoldable pub persist_job_progress : Text → ℤ → ℤ → JobRepository → JobRepository
unfolding progress_of
persist_job_progress job_id bytes_delta articles_delta r =
    let p = progress_of job_id r in
    record r { progress = put job_id (p.0 +ℤ bytes_delta, p.1 +ℤ articles_delta) r.progress }

unfoldable pub provider_health : Text → JobRepository → ProviderHealthSnapshot
provider_health provider r = elim (get provider r.health) [
  | none ↦ record {
    provider = provider;
    attempts = 0;
    successes = 0;
    failures = 0;
    fallbacks = 0;
    bytes_delivered = pos 0;
    elapsed_ms_total = pos 0;
  }
  | some snapshot ↦ snapshot
]

abbrev pub one_if : Bool → ℕ
one_if b = if b then 1 else 0

-- The elapsed time is counted in a unit that makes it whole.
unfoldable pub record_provider_attempt : Text → Bool → Bool → ℤ → ℤ → JobRepository → JobRepository
unfolding provider_health
record_provider_attempt provider success fallback byte_count elapsed_ms r =
    let s = provider_health provider r in
    record r {
      health =
          put provider
            (record {
              provider = provider;
              attempts = s.attempts + 1;
              successes = s.successes + one_if success;
              failures = s.failures + one_if (not success);
              fallbacks = s.fallbacks + one_if fallback;
              bytes_delivered = s.bytes_delivered +ℤ byte_count;
              elapsed_ms_total = s.elapsed_ms_total +ℤ elapsed_ms;
            })
            r.health;
    }
