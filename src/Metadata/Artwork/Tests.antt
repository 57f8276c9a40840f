-- ===== src/Metadata/Artwork/Tests.antt =====
-- Two calls for one artwork that meet (metadata/artwork.py).
use lore_x.Prelude.{◌≤◌, ◌≡◌, refl, false, [], ◌∷◌}
use lore_x.Prelude.Int.{pos}
use lore_x.Result.{ok}
use lore_x.Text.{Text, codes}
use lore_x.Metadata.Model.{no_metrics}
use lore_x.Metadata.Artwork.{
  ArtworkScheduler, new_scheduler, checking, acquiring, admitting, submitting, check, acquire,
  admit, advance, World, calls, moves, Reach, begins, goes_on,
}
use lore_x.Metadata.Artwork.Capacity.{IsBalanced, held, owners, Reach-IsBalanced}

abbrev key : Text
key = codes "k"

abbrev fresh : ArtworkScheduler
fresh = record { permits = 3; capacity = 3; active = []; closed = false; metrics = no_metrics }

-- Both calls have passed the first lock and the semaphore before either comes to the second lock.
abbrev both : World
both = record {
  scheduler = record fresh { capacity = 1 };
  threads = (admitting, key) ∷ (admitting, key) ∷ [];
}

both_reached : Reach fresh both
unfolding advance check acquire
both_reached =
    goes_on fresh _ _
      (goes_on fresh _ _
        (goes_on fresh _ _
          (goes_on fresh _ _
            (goes_on fresh _ _ (goes_on fresh _ _ (begins fresh) (calls key _)) (calls key _))
            (moves false [] ((checking, key) ∷ []) checking key fresh))
          (moves false ((acquiring, key) ∷ []) [] checking key fresh))
        (moves false [] ((acquiring, key) ∷ []) acquiring key fresh))
      (moves false ((admitting, key) ∷ []) [] acquiring key (record fresh { capacity = 2 }))

-- Only the first of them gets in.
abbrev one_in : World
one_in = record {
  scheduler = record fresh { capacity = 1; active = key ∷ [] };
  threads = (submitting, key) ∷ (admitting, key) ∷ [];
}

one_in_reached : Reach fresh one_in
unfolding advance admit
one_in_reached =
    goes_on fresh both one_in both_reached
      (moves false [] ((admitting, key) ∷ []) admitting key both.scheduler)

made : new_scheduler (pos 2) (pos 1) ≡ ok fresh
unfolding new_scheduler
made = refl

Reach-IsBalanced_example :
    IsBalanced one_in
    × (held one_in.threads ≤ fresh.permits)
    × ((k : Text) → owners k one_in.threads ≤ 1)
Reach-IsBalanced_example = Reach-IsBalanced (pos 2) (pos 1) fresh one_in made one_in_reached
