-- ===== src/Library/Pipeline/Ends.antt =====
-- What the jobs' store has been told when an import ends (library/pipeline.py).
use lore_x.Prelude.{
  ℕ, suc, ◌≤◌, ◌≡◌, ◌⊎◌, refl, ◌∙◌, Bool, true, false, ◌&&◌, Bool-cases, inl, inr, Option, none,
  some, List, [], ◌∷◌, leb, arith,
}
use lore_x.Prelude.Int.{ℤ}
use lore_x.Result.{Result, ok, err, Error}
use lore_x.Process.{Work, after}
use lore_x.Text.{Text}
use lore_x.Domain.{DownloadResult, LibraryBook}
use lore_x.Library.Pipeline.{
  stage_rank, ImportJob, Event, mark_completed, mark_failed, Tools, Import, told, use_tool, tell,
  destination_of, is_moved, move_file, take_back, stored_or_back, store_book, place_file,
  first_file, staging_of, run_stages, or_failed, process, process_from, book_of,
}
use lore_x.Library.Pipeline.Stages.{IsStages, prepare_file-At}

-- A completed import: its stages, and then its completion.
abbrev pub IsCompleted : ℕ → List Event → Type 0
IsCompleted rank es =
    (path : Text) × (stages : List Event) × (es ≡ mark_completed path ∷ stages)
    × IsStages rank stages

-- A failed one: its stages, perhaps its completion, and then its failure.
abbrev pub IsFailed : ℕ → Error → List Event → Type 0
IsFailed rank e es =
    (told_before : List Event) × (es ≡ mark_failed e ∷ told_before)
    × (IsStages rank told_before ⊎ IsCompleted rank told_before)

abbrev pub IsTold : ℕ → List Event → Result LibraryBook → Type 0
IsTold rank es (ok book) = IsCompleted rank es
IsTold rank es (err e) = IsFailed rank e es

-- What the `try` has told before `mark_failed`.
abbrev IsTried : ℕ → List Event → Result LibraryBook → Type 0
IsTried rank es (ok book) = IsCompleted rank es
IsTried rank es (err e) = IsStages rank es ⊎ IsCompleted rank es

module _ {W : Type 0} (tools : Tools W) (rank : ℕ) where
  told-events : {A : Type 0} (es : List Event) (r : Work W A) → (told tools es r).0.events ≡ es
  told-events es (w, x) = refl

  after-events :
      {A B : Type 0} (es : List Event) (m : Work (Import W) A)
      (f : A → Import W → Work (Import W) B)
      → m.0.events ≡ es
      → ((a : A) (s : Import W) → s.events ≡ es → (f a s).0.events ≡ es)
      → (after m f).0.events ≡ es
  after-events es (s, err e) f h later = h
  after-events es (s, ok a) f h later = later a s h

  is_moved-events :
      (destination : Text) (s : Import W) → (is_moved tools rank destination s).0.events ≡ s.events
  unfolding is_moved
  is_moved-events destination s =
      elim (Bool-cases (leb 7 rank && tools.exists destination s.world)) [
        | inl here ↦ rw here (told-events s.events (tools.verify destination s.world))
        | inr away ↦ rw away refl
      ]

  move_file-events :
      (moved : Bool) (working destination : Text) (s : Import W)
      → (move_file tools moved working destination s).0.events ≡ s.events
  unfolding move_file
  move_file-events true working destination s =
      after-events s.events (use_tool tools (tools.size_of destination) s) _
        (told-events s.events (tools.size_of destination s.world)) (λ size s1 h. h)
  move_file-events false working destination s =
      after-events s.events (use_tool tools (tools.promote working destination) s) _
        (told-events s.events (tools.promote working destination s.world)) (λ size s1 h. h)

  take_back-events :
      (promoted_from : Option Text) (destination : Text) (e : Error) (s : Import W)
      → (take_back tools promoted_from destination e s).0.events ≡ s.events
  take_back-events none destination e s = refl
  take_back-events (some working) destination e s =
      elim (Bool-cases (tools.exists destination s.world)) [
        | inl here ↦ rw here (
            after-events s.events (use_tool tools (tools.put_back destination working) s) _
              (told-events s.events (tools.put_back destination working s.world)) (λ done s1 h. h))
        | inr away ↦ rw away refl
      ]

  stored_or_back-events :
      (promoted_from : Option Text) (destination : Text) (m : Work (Import W) LibraryBook)
      → (stored_or_back tools promoted_from destination m).0.events ≡ m.0.events
  stored_or_back-events promoted_from destination (s, err e) =
      take_back-events promoted_from destination e s
  stored_or_back-events promoted_from destination (s, ok book) = refl

  store_book-events :
      (destination : Text) (result : DownloadResult) (sized : ℤ × Option Text) (s : Import W)
      → (store_book tools destination result sized s).0.events ≡ s.events
  unfolding store_book
  store_book-events destination result (size, promoted_from) s =
      stored_or_back-events promoted_from destination _
      ∙ told-events s.events (tools.add_book (book_of tools result destination size) s.world)

  place_file-events :
      (destination : Text) (result : DownloadResult) (working : Text) (s : Import W)
      → (place_file tools rank destination result working s).0.events ≡ s.events
  unfolding place_file
  place_file-events destination result working s =
      after-events s.events (is_moved tools rank destination s) _ (is_moved-events destination s)
        (λ moved s1 h1.
          after-events s.events (move_file tools moved working destination s1) _
            (move_file-events moved working destination s1 ∙ h1)
            (λ sized s2 h2. store_book-events destination result sized s2 ∙ h2))

  cleaned-IsTried :
      (path : Text) (stages : List Event) (stored : LibraryBook) (r : Work W (Unit {0}))
      → IsStages rank stages
      → let m = after (told tools (mark_completed path ∷ stages) r) (λ done s3. (s3, ok stored)) in
        IsTried rank m.0.events m.1
  cleaned-IsTried path stages stored (w, err e) h = inr (path, stages, refl, h)
  cleaned-IsTried path stages stored (w, ok done) h = (path, stages, refl, h)

  placed-IsTried :
      (path source : Text) (staging : Option Text) (m : Work (Import W) LibraryBook)
      → IsStages rank m.0.events
      → let done = after m (λ stored s2.
        after
          (use_tool tools (tools.cleanup source staging path) (tell tools (mark_completed path) s2))
          (λ done s3. (s3, ok stored))) in
        IsTried rank done.0.events done.1
  placed-IsTried path source staging (s, err e) h = inl h
  placed-IsTried path source staging (s, ok stored) h =
      cleaned-IsTried path s.events stored (tools.cleanup source staging path s.world) h

  prepared-IsTried :
      (path source : Text) (staging : Option Text) (result : DownloadResult)
      (m : Work (Import W) Text)
      → IsStages rank m.0.events
      → let ended = after m (λ working s1.
        after (place_file tools rank path result working s1) (λ stored s2.
          after
            (use_tool tools
              (tools.cleanup source staging path)
              (tell tools (mark_completed path) s2))
            (λ done s3. (s3, ok stored)))) in
        IsTried rank ended.0.events ended.1
  prepared-IsTried path source staging result (s, err e) h = inl h
  prepared-IsTried path source staging result (s, ok working) h =
      placed-IsTried path source staging (place_file tools rank path result working s)
        (rw (place_file-events path result working s) h)

  run_stages-IsTried :
      (library_root : Text) (job : ImportJob) (result : DownloadResult) (s : Import W)
      → s.events ≡ []
      → let m = run_stages tools library_root rank job result s in IsTried rank m.0.events m.1
  unfolding run_stages
  run_stages-IsTried library_root job result s fresh =
      prepared-IsTried (destination_of tools library_root result) job.source_path
        (staging_of tools job) result _
        (prepare_file-At tools rank job result (first_file tools job) s
          (rw fresh (tt, omega arith))).0

  or_failed-IsTold :
      (m : Work (Import W) LibraryBook)
      → IsTried rank m.0.events m.1
      → IsTold rank (or_failed tools m).0.events (or_failed tools m).1
  or_failed-IsTold (s, ok stored) h = h
  or_failed-IsTold (s, err e) h = (s.events, refl, h)

  started-IsTold :
      (library_root : Text) (job : ImportJob) (result : DownloadResult) (s : Import W)
      → suc rank ≤ 8
      → s.events ≡ []
      → let m = process_from tools (some rank) library_root job result s in
        IsTold rank m.0.events m.1
  started-IsTold library_root job result s early fresh =
      let before : leb 8 rank ≡ false = ground (arith, early) in
      rw before (
        or_failed-IsTold (run_stages tools library_root rank job result s)
          (run_stages-IsTried library_root job result s fresh))

-- An import that starts or resumes at a stage before the end, whatever its tools do. When it returns,
-- the job's store has been told of stages in ascending order, none of them before the one it resumed
-- at, and last of the completion. When it raises, the last thing told is the failure with this very
-- exception, behind such stages, or behind such stages and a completion.
pub process-IsTold :
    {W : Type 0} (tools : Tools W) (library_root : Text) (job : ImportJob) (result : DownloadResult)
    (s : Import W) (rank : ℕ)
    → stage_rank job.stage ≡ some rank
    → suc rank ≤ 8
    → s.events ≡ []
    → let m = process tools library_root job result s in IsTold rank m.0.events m.1
unfolding process
process-IsTold tools library_root job result s rank known early fresh =
    rw known (started-IsTold tools rank library_root job result s early fresh)
