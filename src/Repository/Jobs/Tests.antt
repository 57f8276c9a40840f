-- ===== src/Repository/Jobs/Tests.antt =====
-- A repository with a stale claim and a queued job.
use lore_x.Prelude.{◌≡◌, refl, List, [], ◌∷◌, list_eq, nat_eq, pair_eq}
use lore_x.Prelude.Int.{pos}
use lore_x.Result.{ok}
use lore_x.Text.{Text, codes}
use lore_x.Dict.{get, put}
use lore_x.Domain.{DownloadJob, ArticleHeader}
use lore_x.Repository.Jobs.{
  JobRepository, queued, completed, add_job, claim_next, mark_completed, mark,
}
use lore_x.Repository.Jobs.Claims.{IsQueue, Claimed, claim_next-Claimed}
use lore_x.Repository.Jobs.Reach.{empty_jobs, adds, completes, begins, goes_on, Reach-IsQueue}

abbrev job : DownloadJob
job = record { id = codes "j"; release_id = codes "r"; status = queued }

abbrev one_job : JobRepository
one_job = add_job job empty_jobs

one_job-IsQueue : IsQueue one_job
one_job-IsQueue =
    (Reach-IsQueue 0 one_job (goes_on empty_jobs one_job begins (adds job empty_jobs))).0

claim_next-Claimed_example :
    IsQueue (claim_next 7 one_job).0 × Claimed one_job (claim_next 7 one_job)
claim_next-Claimed_example = claim_next-Claimed 7 one_job one_job-IsQueue

abbrev claimed : JobRepository
claimed = (claim_next 7 one_job).0

claimed-IsQueue : IsQueue claimed
claimed-IsQueue = (claim_next-Claimed 7 one_job one_job-IsQueue).0

abbrev done : JobRepository
done = record one_job { jobs = put (codes "j") (record job { status = completed }) one_job.jobs }

marked : mark_completed (codes "j") one_job ≡ ok done
unfolding mark_completed mark add_job get put
marked = refl

Reach-IsQueue_example : IsQueue done × Claimed done (claim_next 9 done)
Reach-IsQueue_example = Reach-IsQueue 9 done (
    goes_on one_job done (goes_on empty_jobs one_job begins (adds job empty_jobs))
      (completes (codes "j") one_job done marked))

abbrev header : Text → ArticleHeader
header m = record { message_id = m; subject = codes "s"; bytes = pos 5; group = codes "g" }

abbrev headers : List ArticleHeader
headers = header (codes "<1>") ∷ header (codes "<2>") ∷ header (codes "<1>") ∷ []
