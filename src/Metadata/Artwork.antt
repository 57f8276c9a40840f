-- ===== src/Metadata/Artwork.antt =====
-- backend/lorex/metadata/artwork.py: the scheduler, with every call cut where other threads can come in
-- between: at its locks, its semaphore and its executor.
pub mod Capacity
mod Tests
use lore_x.Prelude.{
  ℕ, zero, suc, ◌+◌, ◌≡◌, Bool, true, false, not, Option, none, some, List, [], ◌∷◌, ◌++◌, any,
  keep, leb, if◌then◌else◌, ◌=?◌, nat_eq, list_eq,
}
use lore_x.Prelude.Int.{ℤ, pos, pos_part, ltb_ℤ, ◌+ℤ◌}
use lore_x.Result.{Result, ok, err, value_error}
use lore_x.Text.{Text, codes}
use lore_x.Metadata.Model.{MetadataMetrics, no_metrics, increment}

pub record ArtworkScheduler : Type 0 where
  -- `max_workers + queue_size`, and what is left of it
  pub permits : ℕ
  pub capacity : ℕ
  pub active : List Text
  pub closed : Bool
  pub metrics : MetadataMetrics

unfoldable pub new_scheduler : ℤ → ℤ → Result ArtworkScheduler
new_scheduler max_workers queue_size =
    if ltb_ℤ max_workers (pos 1)
    then err (value_error "max_workers must be at least 1")
    else if ltb_ℤ queue_size (pos 0)
    then err (value_error "queue_size cannot be negative")
    else ok (record {
      permits = pos_part max_workers + pos_part queue_size;
      capacity = pos_part max_workers + pos_part queue_size;
      active = [];
      closed = false;
      metrics = no_metrics;
    })

-- Where a call of `submit` stands, or the run of a worker: before the first lock, before the
-- semaphore, before the second lock, before the executor, in the worker; behind a failing executor and
-- behind a worker, with the permit still to be given back.
pub data Phase : Type 0 where
  checking acquiring admitting submitting running dropping releasing : Phase

abbrev pub is_active : Text → ArtworkScheduler → Bool
is_active key s = any (λ k. k =? key) s.active

-- `_active.discard(key)`
unfoldable pub discard : Text → ArtworkScheduler → ArtworkScheduler
discard key s = record s { active = keep (λ k. not (k =? key)) s.active }

unfoldable pub release : ArtworkScheduler → ArtworkScheduler
release s = record s { capacity = suc s.capacity }

unfoldable pub counted : Text → ArtworkScheduler → ArtworkScheduler
unfolding increment
counted name s = record s { metrics = increment name s.metrics }

unfoldable pub check : Text → ArtworkScheduler → ArtworkScheduler × Option Phase
unfolding counted
check key s =
    if s.closed
    then (counted (codes "artwork_dropped") s, none)
    else if is_active key s
    then (counted (codes "artwork_deduplicated") s, none)
    else (s, some acquiring)

unfoldable pub acquire : ArtworkScheduler → ArtworkScheduler × Option Phase
unfolding counted
acquire s = elim s.capacity [
  | zero ↦ (counted (codes "artwork_dropped") s, none)
  | suc n ↦ (record s { capacity = n }, some admitting)
]

unfoldable pub admit : Text → ArtworkScheduler → ArtworkScheduler × Option Phase
unfolding counted release
admit key s =
    if s.closed
    then (counted (codes "artwork_dropped") (release s), none)
    else if is_active key s
    then (counted (codes "artwork_deduplicated") (release s), none)
    else (record s { active = key ∷ s.active }, some submitting)

-- The next part of a call, to where it then stands; the flag tells whether the executor raises.
unfoldable pub advance : Bool → Phase → Text → ArtworkScheduler → ArtworkScheduler × Option Phase
unfolding check acquire admit discard release counted
advance raises checking key s = check key s
advance raises acquiring key s = acquire s
advance raises admitting key s = admit key s
advance raises submitting key s =
    if raises
    then (discard key s, some dropping)
    else (counted (codes "artwork_scheduled") s, some running)
advance raises running key s = (discard key s, some releasing)
advance raises dropping key s = (counted (codes "artwork_dropped") (release s), none)
advance raises releasing key s = (release s, none)

unfoldable pub close : ArtworkScheduler → ArtworkScheduler
close s = record s { closed = true }

-- The scheduler, with the calls and runs that are under way.
pub record World : Type 0 where
  pub scheduler : ArtworkScheduler
  pub threads : List (Phase × Text)

abbrev pub thread_list : Option Phase → Text → List (Phase × Text)
thread_list none key = []
thread_list (some phase) key = (phase, key) ∷ []

-- One step: a new call, the next part of any call, or the closing.
pub data Step : World → World → Type 0 where
  calls :
      (key : Text) (w : World) → Step w (record w { threads = w.threads ++ (checking, key) ∷ [] })
  moves :
      (raises : Bool) (before after : List (Phase × Text)) (phase : Phase) (key : Text)
      (s : ArtworkScheduler)
      → Step
          (record { scheduler = s; threads = before ++ (phase, key) ∷ after })
          (record {
            scheduler = (advance raises phase key s).0;
            threads = before ++ (thread_list (advance raises phase key s).1 key ++ after);
          })
  closes : (w : World) → Step w (record w { scheduler = close w.scheduler })

-- What any interleaving of steps reaches from a new scheduler.
pub data Reach : ArtworkScheduler → World → Type 0 where
  begins : (s : ArtworkScheduler) → Reach s (record { scheduler = s; threads = [] })
  goes_on : (s : ArtworkScheduler) (w w' : World) → Reach s w → Step w w' → Reach s w'
