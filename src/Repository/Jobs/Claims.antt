-- ===== src/Repository/Jobs/Claims.antt =====
-- The queue of jobs: `add` and `claim_next` of `JobRepository`.
use lore_x.Prelude.{
  ℕ, ◌≡◌, refl, ap, ◌∙◌, sym, ◌⊎◌, Bool, true, false, not, ◌||◌, Option, none, some, List, [], ◌∷◌,
  ◌++◌, ◌=?◌, nat_eq, list_eq, arith, any, Bool-cases, Option-cases, inl, inr, =?-refl,
  list_beq_iff,
}
use lore_x.Text.{Text}
use lore_x.Dict.{Dict, get, put, get-put, get-put_self}
use lore_x.Domain.{DownloadJob}
use lore_x.Repository.Jobs.{
  JobRepository, queued, downloading, with_status, add_job, claim_from, claim_next,
}

abbrev pub in_queue : Text → List DownloadJob → Bool
in_queue id items = any (λ q. q.id =? id) items

-- The job under this id, if there is one, bears the id, and waits in the queue if it is queued.
abbrev pub IsListed : List DownloadJob → Text → Option DownloadJob → Type 0
IsListed items id none = Unit
IsListed items id (some job) =
    (job.id ≡ id) × ((not (job.status =? queued) || in_queue id items) ≡ true)

-- The jobs under every id.
abbrev pub IsQueue : JobRepository → Type 0
IsQueue r = (id : Text) → IsListed r.items id (get id r.jobs)

-- No job, or one that does not wait.
abbrev pub NotQueued : Option DownloadJob → Type 0
NotQueued none = Unit
NotQueued (some job) = (job.status =? queued) ≡ false

list_beq_iff-eq : (a b : Text) → (a =? b) ≡ true → a ≡ b
list_beq_iff-eq a b h = (list_beq_iff a b).0 h

-- The invariant, for a queue that is given apart.
abbrev pub Listed : List DownloadJob → Dict Text DownloadJob → Type 0
Listed items jobs = (id : Text) → IsListed items id (get id jobs)

pub in_queue-append :
    (id : Text) (items : List DownloadJob) (job : DownloadJob)
    → in_queue id (items ++ job ∷ []) ≡ (in_queue id items || (job.id =? id))
in_queue-append id [] job = ground arith
in_queue-append id (q ∷ items) job = ground (arith, in_queue-append id items job)

pub IsListed-append :
    (items : List DownloadJob) (job : DownloadJob) (id : Text) (o : Option DownloadJob)
    → IsListed items id o
    → IsListed (items ++ job ∷ []) id o
IsListed-append items job id none h = tt
IsListed-append items job id (some old) h = (h.0, ground (arith, h.1, in_queue-append id items job))

-- Storing a job under its own id.
pub Listed-put :
    (items : List DownloadJob) (jobs : Dict Text DownloadJob) (job : DownloadJob)
    → (not (job.status =? queued) || in_queue job.id items) ≡ true
    → Listed items jobs
    → Listed items (put job.id job jobs)
Listed-put items jobs job waits h id = elim (Bool-cases (job.id =? id)) [
  | inl same ↦
      let eq : job.id ≡ id = list_beq_iff-eq job.id id same in
      let got : get id (put job.id job jobs) ≡ some job =
        ground (arith, get-put job.id id job jobs, same) in
      rw got (eq, rw eq at waits)
  | inr other ↦
      let got : get id (put job.id job jobs) ≡ get id jobs =
        ground (arith, get-put job.id id job jobs, other) in
      rw got (h id)
]

-- Adding a job keeps every queued job in the queue.
pub add_job-IsQueue : (job : DownloadJob) (r : JobRepository) → IsQueue r → IsQueue (add_job job r)
unfolding add_job
add_job-IsQueue job r h = elim (Bool-cases (job.status =? queued)) [
  | inl waiting ↦
      rw (waiting, add_job)
        (Listed-put (r.items ++ job ∷ []) r.jobs job
          (ground (arith, in_queue-append job.id r.items job, =?-refl job.id))
          (λ id. IsListed-append r.items job id (get id r.jobs) (h id)))
  | inr other ↦ rw (other, add_job) (Listed-put r.items r.jobs job (ground (arith, other)) h)
]

-- A queue entry whose job is not queued, or is another one, may go.
IsListed-drop :
    (q : DownloadJob) (items : List DownloadJob) (id : Text) (o : Option DownloadJob)
    → NotQueued o ⊎ ((q.id =? id) ≡ false)
    → IsListed (q ∷ items) id o
    → IsListed items id o
IsListed-drop q items id none d h = tt
IsListed-drop q items id (some job) (inl d) h = (h.0, ground (arith, d))
IsListed-drop q items id (some job) (inr d) h = (h.0, ground (arith, d, h.1))

Listed-drop :
    (q : DownloadJob) (items : List DownloadJob) (jobs : Dict Text DownloadJob)
    → NotQueued (get q.id jobs)
    → Listed (q ∷ items) jobs
    → Listed items jobs
Listed-drop q items jobs free h id = elim (Bool-cases (q.id =? id)) [
  | inl same ↦
      IsListed-drop q items id (get id jobs) (inl (rw (list_beq_iff-eq q.id id same) at free))
        (h id)
  | inr other ↦ IsListed-drop q items id (get id jobs) (inr other) (h id)
]

-- What a claim returns: a job that was queued, now downloading, with no other job changed; or
-- nothing, and then no job was queued.
abbrev pub Claimed : JobRepository → JobRepository × Option DownloadJob → Type 0
Claimed r (r', none) = (r'.jobs ≡ r.jobs) × ((id : Text) → NotQueued (get id r.jobs))
Claimed r (r', some job) =
    (old : DownloadJob) × (get job.id r.jobs ≡ some old)
    × ((old.status =? queued) ≡ true)
    × (job ≡ with_status downloading old)
    × (r'.jobs ≡ put job.id job r.jobs)

empty-NotQueued : (id : Text) (o : Option DownloadJob) → IsListed [] id o → NotQueued o
empty-NotQueued id none h = tt
empty-NotQueued id (some job) h = ground (arith, h.1)

pub listed_id :
    (items : List DownloadJob) (id : Text) (o : Option DownloadJob) (job : DownloadJob)
    → o ≡ some job
    → IsListed items id o
    → job.id ≡ id
listed_id items id none job q h = cc
listed_id items id (some old) job q h = cc

claim_from-Claimed :
    (now : ℕ) (items : List DownloadJob) (r : JobRepository)
    → Listed items r.jobs
    → IsQueue (claim_from now items r).0 × Claimed r (claim_from now items r)
unfolding claim_from
claim_from-Claimed now [] r h = (h, (refl, λ id. empty-NotQueued id (get id r.jobs) (h id)))
claim_from-Claimed now (q ∷ items) r h = elim (Option-cases (get q.id r.jobs)) [
  | inl absent ↦
      rw (absent, claim_from)
        (claim_from-Claimed now items r (Listed-drop q items r.jobs (rw absent tt) h))
  | inr (current, found) ↦ elim (Bool-cases (current.status =? queued)) [
    | inl waiting ↦
        let named = listed_id (q ∷ items) q.id (get q.id r.jobs) current found (h q.id) in
        let job = with_status downloading current in
        let rest : Listed (q ∷ items) (put job.id job r.jobs) =
          Listed-put (q ∷ items) r.jobs job refl h in
        let free : NotQueued (get q.id (put job.id job r.jobs)) =
          rw
            (ap (λ k. get k (put current.id job r.jobs)) (sym named)
              ∙ get-put_self current.id job r.jobs)
            refl in
        rw (found, waiting, claim_from)
          (
            Listed-drop q items (put job.id job r.jobs) free rest,
            (current, ap (λ k. get k r.jobs) named ∙ found, waiting, refl, refl),
          )
    | inr other ↦
        rw (found, other, claim_from)
          (claim_from-Claimed now items r (Listed-drop q items r.jobs (rw found other) h))
  ]
]

-- Where every queued job stands in the queue, a claim returns a job that was queued, as downloading,
-- and changes no other job; or it returns nothing, and then no job is queued. Afterwards every queued
-- job still stands in the queue.
pub claim_next-Claimed :
    (now : ℕ) (r : JobRepository)
    → IsQueue r
    → IsQueue (claim_next now r).0 × Claimed r (claim_next now r)
unfolding claim_next
claim_next-Claimed now r h = claim_from-Claimed now r.items r h
