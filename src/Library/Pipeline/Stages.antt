-- ===== src/Library/Pipeline/Stages.antt =====
-- What the jobs' store is told during an import (library/pipeline.py).
use lore_x.Prelude.{
  ℕ, suc, ◌≤◌, Bool, true, false, Bool-cases, inl, inr, List, [], ◌∷◌, leb, leb→le, arith,
  if◌then◌else◌,
}
use lore_x.Result.{ok, err, Error, value_error}
use lore_x.Process.{Work, after}
use lore_x.Text.{Text, codes}
use lore_x.Domain.{DownloadResult}
use lore_x.Library.Media.{MediaAction, MediaProbe, preserve, remux, transcode, choose_media_action}
use lore_x.Library.Pipeline.{
  ImportJob, Event, set_stage, set_staging_path, mark_completed, mark_failed, Tools, Import, told,
  use_tool, tell, enter, verified, verify_source, renew, repair_source, extract_source, convert_by,
  process_media, tag_file, verify_final, prepare_file,
}

-- One more than the rank of the newest stage, and 0 where there is none.
abbrev pub latest : List Event → ℕ
latest [] = 0
latest (set_stage k ∷ es) = suc k
latest (set_staging_path p ∷ es) = latest es
latest (mark_completed p ∷ es) = latest es
latest (mark_failed e ∷ es) = latest es

-- Stages and staging paths only, every stage behind the one before it and none before `lo`.
abbrev pub IsStages : ℕ → List Event → Type 0
IsStages lo [] = Unit
IsStages lo (set_stage k ∷ es) = (lo ≤ k) × (latest es ≤ k) × IsStages lo es
IsStages lo (set_staging_path p ∷ es) = IsStages lo es
IsStages lo (mark_completed p ∷ es) = 1 ≤ 0
IsStages lo (mark_failed e ∷ es) = 1 ≤ 0

module _ {W : Type 0} (tools : Tools W) (rank : ℕ) where
  abbrev pub At : ℕ → List Event → Type 0
  At b es = IsStages rank es × (latest es ≤ b)

  pub At-more : (b c : ℕ) (es : List Event) → b ≤ c → At b es → At c es
  At-more b c es h (stages, low) = (stages, omega (arith, h, low))

  At-entered : (k : ℕ) (es : List Event) → rank ≤ k → At k es → At (suc k) (set_stage k ∷ es)
  At-entered k es l (stages, low) = ((l, low, stages), omega arith)

  -- A test of the working file, which a stage follows.
  checked-At :
      (k : ℕ) (es : List Event) (r : Work W Bool) (e : Error) (working : Text)
      → rank ≤ k
      → At k es
      → At
          (suc k)
          (after (told tools es r) (λ fine s1.
            after (verified tools fine e s1) (λ done s2. enter tools k working s2))).0.events
  checked-At k es (w, err x) e working l h = At-more k (suc k) es (omega arith) h
  checked-At k es (w, ok false) e working l h = At-more k (suc k) es (omega arith) h
  checked-At k es (w, ok true) e working l h = At-entered k es l h

  renewed-At :
      (k : ℕ) (es : List Event) (r : Work W Text)
      → rank ≤ k
      → At k es
      → At
          (suc k)
          (after
            (after (told tools es r) (λ path s1. (tell tools (set_staging_path path) s1, ok path)))
            (enter tools k)).0.events
  renewed-At k es (w, err x) l h = At-more k (suc k) es (omega arith) h
  renewed-At k es (w, ok path) l h = At-entered k (set_staging_path path ∷ es) l h

  -- A new working file where it is needed, which a stage follows.
  needed-At :
      (k : ℕ) (es : List Event) (r : Work W Bool) (make : Text → W → Work W Text) (working : Text)
      → rank ≤ k
      → At k es
      → At
          (suc k)
          (after
            (told tools es r)
            (λ needed s1. after (renew tools needed make working s1) (enter tools k))).0.events
  needed-At k es (w, err x) make working l h = At-more k (suc k) es (omega arith) h
  needed-At k es (w, ok false) make working l h = At-entered k es l h
  needed-At k es (w, ok true) make working l h = renewed-At k es (make working w) l h

  verify_source-At :
      (source working : Text) (s : Import W)
      → At 0 s.events
      → At 2 (verify_source tools rank source working s).0.events
  unfolding verify_source
  verify_source-At source working s h = elim (Bool-cases (leb rank 0)) [
    | inr past ↦ rw past (At-more 0 2 s.events (omega arith) h)
    | inl here ↦
        let low = leb→le rank 0 here in
        rw here (
          checked-At 1 (set_stage 0 ∷ s.events) (tools.verify source s.world)
            (value_error "source verification failed") working (omega (arith, low))
            (At-entered 0 s.events low h))
  ]

  repair_source-At :
      (working : Text) (s : Import W)
      → At 2 s.events
      → At 3 (repair_source tools rank working s).0.events
  unfolding repair_source
  repair_source-At working s h = elim (Bool-cases (leb rank 1)) [
    | inr past ↦ rw past (At-more 2 3 s.events (omega arith) h)
    | inl here ↦
        let low = leb→le rank 1 here in
        rw here (
          needed-At 2 s.events (tools.needs_repair working s.world) tools.repair working
            (omega (arith, low)) h)
  ]

  extract_source-At :
      (working : Text) (s : Import W)
      → At 3 s.events
      → At 4 (extract_source tools rank working s).0.events
  unfolding extract_source
  extract_source-At working s h = elim (Bool-cases (leb rank 2)) [
    | inr past ↦ rw past (At-more 3 4 s.events (omega arith) h)
    | inl here ↦
        let low = leb→le rank 2 here in
        rw here (
          needed-At 3 s.events (tools.needs_extract working s.world) tools.extract working
            (omega (arith, low)) h)
  ]

  verify_final-At :
      (working : Text) (s : Import W)
      → At 7 s.events
      → At 8 (verify_final tools rank working s).0.events
  unfolding verify_final
  verify_final-At working s h = elim (Bool-cases (leb rank 6)) [
    | inr past ↦ rw past (At-more 7 8 s.events (omega arith) h)
    | inl here ↦
        let low = leb→le rank 6 here in
        rw here (
          checked-At 7 s.events (tools.verify working s.world)
            (value_error "final media verification failed") working (omega (arith, low)) h)
  ]

  made-At :
      (es : List Event) (r : Work W (Unit {0})) (candidate : Text)
      → rank ≤ 4
      → At 4 es
      → At 6
          (after
            (after
              (told tools es r)
              (λ done s1. (tell tools (set_staging_path candidate) s1, ok candidate)))
            (enter tools 5)).0.events
  made-At es (w, err x) candidate l h = At-more 4 6 es (omega arith) h
  made-At es (w, ok done) candidate l h =
      At-entered 5 (set_staging_path candidate ∷ es) (omega (arith, l))
        (At-more 4 5 es (omega arith) h)

  converted-At :
      (kept : Bool) (make : W → Work W (Unit {0})) (candidate : Text) (s : Import W)
      → rank ≤ 4
      → At 4 s.events
      → At 6
          (after
            (if kept
              then (tell tools (set_staging_path candidate) s, ok candidate)
              else after
                  (use_tool tools make s)
                  (λ done s1. (tell tools (set_staging_path candidate) s1, ok candidate)))
            (enter tools 5)).0.events
  converted-At true make candidate s l h =
      At-entered 5 (set_staging_path candidate ∷ s.events) (omega (arith, l))
        (At-more 4 5 s.events (omega arith) h)
  converted-At false make candidate s l h = made-At s.events (make s.world) candidate l h

  convert_by-At :
      (action : MediaAction) (source working : Text) (s : Import W)
      → rank ≤ 4
      → At 4 s.events
      → At 6 (after (convert_by tools action rank source working s) (enter tools 5)).0.events
  convert_by-At preserve source working s l h =
      At-entered 5 s.events (omega (arith, l)) (At-more 4 5 s.events (omega arith) h)
  convert_by-At remux source working s l h =
      converted-At _ (tools.remux_file working (tools.with_suffix source (codes ".remux.m4b"))) _ s
        l h
  convert_by-At transcode source working s l h =
      converted-At _
        (tools.transcode_file working (tools.with_suffix source (codes ".transcoded.m4b"))) _ s l h

  probed-At :
      (es : List Event) (r : Work W MediaProbe) (source working : Text)
      → rank ≤ 4
      → At 4 es
      → At 6
          (after (told tools es r) (λ probe s1.
            after
              (convert_by tools (choose_media_action probe) rank source working s1)
              (enter tools 5))).0.events
  probed-At es (w, err x) source working l h = At-more 4 6 es (omega arith) h
  probed-At es (w, ok probe) source working l h =
      convert_by-At (choose_media_action probe) source working (record { world = w; events = es }) l
        h

  process_media-At :
      (source working : Text) (s : Import W)
      → At 4 s.events
      → At 6 (process_media tools rank source working s).0.events
  unfolding process_media
  process_media-At source working s h = elim (Bool-cases (leb rank 4)) [
    | inr past ↦ rw past (At-more 4 6 s.events (omega arith) h)
    | inl here ↦
        rw here
          (probed-At s.events (tools.probe working s.world) source working (leb→le rank 4 here) h)
  ]

  tagged-At :
      (k : ℕ) (es : List Event) (r : Work W (Unit {0})) (working : Text)
      → rank ≤ k
      → At k es
      → At (suc k) (after (told tools es r) (λ done s1. enter tools k working s1)).0.events
  tagged-At k es (w, err x) working l h = At-more k (suc k) es (omega arith) h
  tagged-At k es (w, ok done) working l h = At-entered k es l h

  tag_file-At :
      (result : DownloadResult) (working : Text) (s : Import W)
      → At 6 s.events
      → At 7 (tag_file tools rank result working s).0.events
  unfolding tag_file
  tag_file-At result working s h = elim (Bool-cases (leb rank 5)) [
    | inr past ↦ rw past (At-more 6 7 s.events (omega arith) h)
    | inl here ↦
        let low = leb→le rank 5 here in
        rw here
          (tagged-At 6 s.events (tools.tag working result s.world) working (omega (arith, low)) h)
  ]

  -- A part whose first half ends within `b` and whose second half takes it to `c`.
  after-At :
      {A B : Type 0} (b c : ℕ) (m : Work (Import W) A) (f : A → Import W → Work (Import W) B)
      → b ≤ c
      → At b m.0.events
      → ((a : A) (s : Import W) → At b s.events → At c (f a s).0.events)
      → At c (after m f).0.events
  after-At b c (s, err e) f h first later = At-more b c s.events h first
  after-At b c (s, ok a) f h first later = later a s first

  pub prepare_file-At :
      (job : ImportJob) (result : DownloadResult) (working : Text) (s : Import W)
      → At 0 s.events
      → At 8 (prepare_file tools rank job result working s).0.events
  unfolding prepare_file
  prepare_file-At job result working s h =
      after-At 2 8 (verify_source tools rank job.source_path working s) _ (omega arith)
        (verify_source-At job.source_path working s h)
        (λ p1 s1 h1.
          after-At 3 8 (repair_source tools rank p1 s1) _ (omega arith) (repair_source-At p1 s1 h1)
            (λ p2 s2 h2.
              after-At 4 8 (extract_source tools rank p2 s2) _ (omega arith)
                (extract_source-At p2 s2 h2)
                (λ p3 s3 h3.
                  after-At 6 8 (process_media tools rank job.source_path p3 s3) _ (omega arith)
                    (process_media-At job.source_path p3 s3 h3)
                    (λ p4 s4 h4.
                      after-At 7 8 (tag_file tools rank result p4 s4) _ (omega arith)
                        (tag_file-At result p4 s4 h4) (λ p5 s5 h5. verify_final-At p5 s5 h5)))))
