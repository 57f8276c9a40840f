-- ===== src/Repository/Jobs/Recovery.antt =====
-- What marks and the recovery of stale claims leave of the queue.
use mathlib.Core.Path.{subst}
use lore_x.Prelude.{
  ℕ, ◌≡◌, refl, true, false, not, ◌||◌, some, List, [], ◌∷◌, ◌++◌, ltb, ◌=?◌, nat_eq, list_eq,
  arith, Bool-cases, Option-cases, inl, inr, =?-refl, ◌⊎◌, any,
}
use lore_x.Result.{ok}
use lore_x.Text.{Text}
use lore_x.Dict.{Dict, get, put, remove}
use lore_x.Domain.{DownloadJob}
use lore_x.Repository.Jobs.{
  JobRepository, queued, downloading, completed, failed, with_status, mark, mark_completed,
  mark_failed, recover_claims, recover_stale,
}
use lore_x.Repository.Jobs.Claims.{
  IsQueue, Listed, Listed-put, IsListed-append, in_queue-append, listed_id,
}

-- Storing a changed job under an id that its old form bears.
restore :
    (items : List DownloadJob) (jobs : Dict Text DownloadJob) (id s : Text) (job : DownloadJob)
    → job.id ≡ id
    → (not (s =? queued) || any (λ q. q.id =? job.id) items) ≡ true
    → Listed items jobs
    → Listed items (put id (with_status s job) jobs)
restore items jobs id s job named waits h =
    subst (λ k. Listed items (put k (with_status s job) jobs)) named
      (Listed-put items jobs (with_status s job) waits h)

mark-IsQueue :
    (s id : Text) (r r' : JobRepository)
    → (s =? queued) ≡ false
    → IsQueue r
    → mark s id r ≡ ok r'
    → IsQueue r'
unfolding mark
mark-IsQueue s id r r' other h done = elim (Option-cases (get id r.jobs)) [
  | inl absent ↦ absurd (ground (arith, done, absent))
  | inr (job, found) ↦
      let same : record r { jobs = put id (with_status s job) r.jobs } ≡ r' =
        ground (arith, done, found) in
      let named = listed_id r.items id (get id r.jobs) job found (h id) in
      rw (← same) (restore r.items r.jobs id s job named (ground (arith, other)) h)
]

-- Marking a job as completed or as failed keeps every queued job in the queue.
pub marks-IsQueue :
    (id : Text) (r r' : JobRepository)
    → IsQueue r
    → (mark_completed id r ≡ ok r') ⊎ (mark_failed id r ≡ ok r')
    → IsQueue r'
unfolding mark_completed mark_failed
marks-IsQueue id r r' h (inl done) = mark-IsQueue completed id r r' refl h done
marks-IsQueue id r r' h (inr done) = mark-IsQueue failed id r r' refl h done

-- The store after one claim has been given back.
abbrev requeued : Text → DownloadJob → JobRepository → JobRepository
requeued id job r = record r {
  jobs = put id (with_status queued job) r.jobs;
  items = r.items ++ with_status queued job ∷ [];
  claimed_at = remove id r.claimed_at;
}

requeued-IsQueue :
    (id : Text) (job : DownloadJob) (r : JobRepository)
    → get id r.jobs ≡ some job
    → IsQueue r
    → IsQueue (requeued id job r)
requeued-IsQueue id job r found h =
    let named = listed_id r.items id (get id r.jobs) job found (h id) in
    restore (r.items ++ with_status queued job ∷ []) r.jobs id queued job named
      (ground (arith, in_queue-append job.id r.items (with_status queued job), =?-refl job.id))
      (λ k. IsListed-append r.items (with_status queued job) k (get k r.jobs) (h k))

recover_claims-IsQueue :
    (before : ℕ) (claims : Dict Text ℕ) (r : JobRepository)
    → IsQueue r
    → IsQueue (recover_claims before claims r).0
unfolding recover_claims
recover_claims-IsQueue before [] r h = h
recover_claims-IsQueue before ((id, claimed) ∷ claims) r h = elim (Option-cases (get id r.jobs)) [
  | inl absent ↦ rw (absent, recover_claims) (recover_claims-IsQueue before claims r h)
  | inr (job, found) ↦ elim (Bool-cases (job.status =? downloading)) [
    | inr other ↦ rw (found, other, recover_claims) (recover_claims-IsQueue before claims r h)
    | inl running ↦ elim (Bool-cases (ltb claimed before)) [
      | inr recent ↦
          rw (found, running, recent, recover_claims) (recover_claims-IsQueue before claims r h)
      | inl stale ↦
          rw (found, running, stale, recover_claims)
            (recover_claims-IsQueue before claims (requeued id job r)
              (requeued-IsQueue id job r found h))
    ]
  ]
]

-- The recovery of stale claims keeps every queued job in the queue, those it gives back included.
pub recover_stale-IsQueue :
    (before : ℕ) (r : JobRepository) → IsQueue r → IsQueue (recover_stale before r).0
unfolding recover_stale
recover_stale-IsQueue before r h = recover_claims-IsQueue before r.claimed_at r h
