-- ===== src/Library/Pipeline.antt =====
-- backend/lorex/library/pipeline.py. The tools and the file system are an interface over a state `W`; what
-- the pipeline tells the job's store is recorded, the newest first. The store has `set_staging_path`,
-- and what it is told does not raise.
pub mod Stages
pub mod Ends
mod Tests
use lore_x.Prelude.{
  ℕ, Bool, false, ◌&&◌, Option, none, some, List, ◌∷◌, ◌++◌, leb, if◌then◌else◌, ◌==◌, ◌=?◌, nat_eq,
  list_eq,
}
use lore_x.Prelude.Int.{ℤ}
use lore_x.Result.{ok, err, Error, value_error}
use lore_x.Process.{Work, after}
use lore_x.Text.{Text, codes, is_empty}
use lore_x.Domain.{DownloadResult, LibraryBook}
use lore_x.Services.Search.{or_empty}
use lore_x.Library.Media.{
  MediaAction, preserve, remux, transcode, MediaProbe, choose_media_action, sanitize_component,
}

-- `_STAGE_ORDER`
unfoldable pub stage_rank : Text → Option ℕ
stage_rank stage =
    if (stage =? codes "verify")
    then some 0
    else if (stage =? codes "verifying")
    then some 0
    else if (stage =? codes "repairing")
    then some 1
    else if (stage =? codes "extracting")
    then some 2
    else if (stage =? codes "probing")
    then some 3
    else if (stage =? codes "processing")
    then some 4
    else if (stage =? codes "tagging")
    then some 5
    else if (stage =? codes "final_verification")
    then some 6
    else if (stage =? codes "moving")
    then some 7
    else if (stage =? codes "completed")
    then some 8
    else none

-- `ImportJob` (domain.py): what the pipeline reads of it
pub record ImportJob : Type 0 where
  pub id : Text
  pub source_path : Text
  pub staging_path : Option Text
  pub stage : Text

-- What the store of the jobs is told: a stage, by its rank, a staging path, or an end.
pub data Event : Type 0 where
  set_stage : ℕ → Event
  set_staging_path : Text → Event
  mark_completed : Text → Event
  mark_failed : Error → Event

-- The tools, each of which may change the files and may raise.
pub record Tools (W : Type 0) : Type 0 where
  pub verify : Text → W → Work W Bool
  pub needs_repair : Text → W → Work W Bool
  pub repair : Text → W → Work W Text
  pub needs_extract : Text → W → Work W Bool
  pub extract : Text → W → Work W Text
  pub probe : Text → W → Work W MediaProbe
  pub remux_file : Text → Text → W → Work W (Unit {0})
  pub transcode_file : Text → Text → W → Work W (Unit {0})
  pub tag : Text → DownloadResult → W → Work W (Unit {0})
  pub cleanup : Text → Option Text → Text → W → Work W (Unit {0})
  pub exists : Text → W → Bool
  pub size_of : Text → W → Work W ℤ
  -- `promote_verified_file` (library/filesystem.py), and its reversal
  pub promote : Text → Text → W → Work W ℤ
  pub put_back : Text → Text → W → Work W (Unit {0})
  pub add_book : LibraryBook → W → Work W LibraryBook
  pub with_suffix : Text → Text → Text
  pub digest : Text → Text

pub record Import (W : Type 0) : Type 0 where
  pub world : W
  pub events : List Event

module _ {W : Type 0} (tools : Tools W) where
  -- A tool leaves what has been told.
  abbrev pub told : {A : Type 0} → List Event → Work W A → Work (Import W) A
  told events (w, r) = (record { world = w; events = events }, r)

  abbrev pub use_tool : {A : Type 0} → (W → Work W A) → Import W → Work (Import W) A
  use_tool tool s = told s.events (tool s.world)

  abbrev pub tell : Event → Import W → Import W
  tell e s = record s { events = e ∷ s.events }

  -- The working file, behind a part of the pipeline that ends in a stage.
  abbrev pub enter : ℕ → Text → Import W → Work (Import W) Text
  enter rank working s = (tell (set_stage rank) s, ok working)

  abbrev pub verified : Bool → Error → Import W → Work (Import W) (Unit {0})
  verified fine e s = if fine then (s, ok tt) else (s, err e)

  unfoldable pub verify_source : ℕ → Text → Text → Import W → Work (Import W) Text
  verify_source rank source working s =
      if leb rank 0
      then after (use_tool (tools.verify source) (tell (set_stage 0) s)) (λ fine s1.
        after (verified fine (value_error "source verification failed") s1)
          (λ done s2. enter 1 working s2))
      else (s, ok working)

  -- A tool that makes a new working file, where it is needed.
  abbrev pub renew : Bool → (Text → W → Work W Text) → Text → Import W → Work (Import W) Text
  renew needed make working s =
      if needed
      then after (use_tool (make working) s) (λ path s1. (tell (set_staging_path path) s1, ok path))
      else (s, ok working)

  unfoldable pub repair_source : ℕ → Text → Import W → Work (Import W) Text
  repair_source rank working s =
      if leb rank 1
      then after (use_tool (tools.needs_repair working) s)
          (λ needed s1. after (renew needed tools.repair working s1) (enter 2))
      else (s, ok working)

  unfoldable pub extract_source : ℕ → Text → Import W → Work (Import W) Text
  extract_source rank working s =
      if leb rank 2
      then after (use_tool (tools.needs_extract working) s)
          (λ needed s1. after (renew needed tools.extract working s1) (enter 3))
      else (s, ok working)

  -- A file that a run before this one has left is taken as it is.
  abbrev pub convert :
      (Text → Text → W → Work W (Unit {0})) → ℕ → Text → Text → Import W → Work (Import W) Text
  convert make rank working candidate s =
      if (rank == 4) && tools.exists candidate s.world
      then (tell (set_staging_path candidate) s, ok candidate)
      else after (use_tool (make working candidate) s)
          (λ done s1. (tell (set_staging_path candidate) s1, ok candidate))

  abbrev pub convert_by : MediaAction → ℕ → Text → Text → Import W → Work (Import W) Text
  convert_by preserve rank source working s = (s, ok working)
  convert_by remux rank source working s =
      convert tools.remux_file rank working (tools.with_suffix source (codes ".remux.m4b")) s
  convert_by transcode rank source working s =
      convert tools.transcode_file rank working (tools.with_suffix source (codes ".transcoded.m4b"))
        s

  unfoldable pub process_media : ℕ → Text → Text → Import W → Work (Import W) Text
  process_media rank source working s =
      if leb rank 4
      then after (use_tool (tools.probe working) s) (λ media_probe s1.
        after (convert_by (choose_media_action media_probe) rank source working s1) (enter 5))
      else (s, ok working)

  unfoldable pub tag_file : ℕ → DownloadResult → Text → Import W → Work (Import W) Text
  tag_file rank result working s =
      if leb rank 5
      then after (use_tool (tools.tag working result) s) (λ done s1. enter 6 working s1)
      else (s, ok working)

  unfoldable pub verify_final : ℕ → Text → Import W → Work (Import W) Text
  verify_final rank working s =
      if leb rank 6
      then after (use_tool (tools.verify working) s) (λ fine s1.
        after (verified fine (value_error "final media verification failed") s1)
          (λ done s2. enter 7 working s2))
      else (s, ok working)

  unfoldable pub destination_of : Text → DownloadResult → Text
  destination_of library_root result =
      let title = sanitize_component result.title in
      library_root
      ++ (codes "/"
          ++ (sanitize_component result.author
              ++ (codes "/" ++ (title ++ (codes "/" ++ (title ++ codes ".m4b"))))))

  abbrev pub book_of : DownloadResult → Text → ℤ → LibraryBook
  book_of result destination size = record {
    id =
        tools.digest (
          result.author
          ++ (codes "|" ++ (result.title ++ (codes "|" ++ or_empty result.narrator))));
    title = result.title;
    author = result.author;
    narrator = result.narrator;
    format = codes "m4b";
    path = destination;
    size = size;
  }

  -- Whether the file is at its destination already; only a run that resumes there looks.
  unfoldable pub is_moved : ℕ → Text → Import W → Work (Import W) Bool
  is_moved rank destination s =
      if leb 7 rank && tools.exists destination s.world
      then use_tool (tools.verify destination) s
      else (s, ok false)

  -- The file is moved, and `some` names where it was; its size is taken.
  unfoldable pub move_file : Bool → Text → Text → Import W → Work (Import W) (ℤ × Option Text)
  move_file moved working destination s =
      if moved
      then after (use_tool (tools.size_of destination) s) (λ size s1. (s1, ok (size, none)))
      else after (use_tool (tools.promote working destination) s)
          (λ size s1. (s1, ok (size, some working)))

  -- A book that cannot be stored gives its file back.
  abbrev pub take_back : Option Text → Text → Error → Import W → Work (Import W) LibraryBook
  take_back none destination e s = (s, err e)
  take_back (some working) destination e s =
      if tools.exists destination s.world
      then after (use_tool (tools.put_back destination working) s) (λ done s1. (s1, err e))
      else (s, err e)

  abbrev pub stored_or_back :
      Option Text → Text → Work (Import W) LibraryBook → Work (Import W) LibraryBook
  stored_or_back promoted_from destination (s, err e) = take_back promoted_from destination e s
  stored_or_back promoted_from destination (s, ok book) = (s, ok book)

  unfoldable pub store_book :
      Text → DownloadResult → (ℤ × Option Text) → Import W → Work (Import W) LibraryBook
  store_book destination result (size, promoted_from) s =
      stored_or_back promoted_from destination
        (use_tool (tools.add_book (book_of result destination size)) s)

  -- The parts up to the moving of the file.
  unfoldable pub prepare_file :
      ℕ → ImportJob → DownloadResult → Text → Import W → Work (Import W) Text
  prepare_file rank job result working s =
      after (verify_source rank job.source_path working s) (λ p1 s1.
        after (repair_source rank p1 s1) (λ p2 s2. after (extract_source rank p2 s2) (λ p3 s3.
          after (process_media rank job.source_path p3 s3)
            (λ p4 s4. after (tag_file rank result p4 s4) (λ p5 s5. verify_final rank p5 s5)))))

  unfoldable pub place_file :
      ℕ → Text → DownloadResult → Text → Import W → Work (Import W) LibraryBook
  place_file rank destination result working s = after (is_moved rank destination s) (λ moved s1.
      after (move_file moved working destination s1)
        (λ sized s2. store_book destination result sized s2))

  -- `job.staging_path`, where it is not empty
  abbrev pub staging_of : ImportJob → Option Text
  staging_of job = elim job.staging_path [
    | none ↦ none
    | some path ↦ if is_empty path then none else some path
  ]

  abbrev pub first_file : ImportJob → Text
  first_file job = elim (staging_of job) [ none ↦ job.source_path | some path ↦ path ]

  -- What the `try` guards; `mark_completed` comes before the cleaning up.
  unfoldable pub run_stages :
      Text → ℕ → ImportJob → DownloadResult → Import W → Work (Import W) LibraryBook
  run_stages library_root rank job result s =
      let destination = destination_of library_root result in
      after (prepare_file rank job result (first_file job) s) (λ working s1.
        after (place_file rank destination result working s1) (λ stored s2.
          after
            (use_tool (tools.cleanup job.source_path (staging_of job) destination)
              (tell (mark_completed destination) s2))
            (λ done s3. (s3, ok stored))))

  abbrev pub or_failed : Work (Import W) LibraryBook → Work (Import W) LibraryBook
  or_failed (s, ok stored) = (s, ok stored)
  or_failed (s, err e) = (tell (mark_failed e) s, err e)

  abbrev pub process_from :
      Option ℕ → Text → ImportJob → DownloadResult → Import W → Work (Import W) LibraryBook
  process_from none library_root job result s = (s, err (value_error "unknown import stage"))
  process_from (some rank) library_root job result s =
      if leb 8 rank
      then (s, err (value_error "completed import job cannot be processed again"))
      else or_failed (run_stages library_root rank job result s)

  unfoldable pub process :
      Text → ImportJob → DownloadResult → Import W → Work (Import W) LibraryBook
  process library_root job result s = process_from (stage_rank job.stage) library_root job result s
