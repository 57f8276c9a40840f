-- ===== src/Library/Pipeline/Tests.antt =====
-- An import that resumes at its moving, with a book that cannot be stored (library/pipeline.py).
use lore_x.Prelude.{◌≡◌, refl, arith, true, false, none, some, [], list_eq, nat_eq}
use lore_x.Prelude.Int.{pos}
use lore_x.Result.{ok, err, runtime_error}
use lore_x.Text.{Text, codes, text_functions}
use lore_x.Domain.{DownloadResult}
use lore_x.Library.Pipeline.{ImportJob, Tools, Import, stage_rank, process}
use lore_x.Library.Pipeline.Ends.{IsTold, process-IsTold}

-- The state is what has been done, by name.
abbrev tools : Tools Text
tools = record {
  verify = λ path w. (w, ok true);
  needs_repair = λ path w. (w, ok false);
  repair = λ path w. (w, ok path);
  needs_extract = λ path w. (w, ok false);
  extract = λ path w. (w, ok path);
  probe = λ path w.
      (w, ok (record { container = codes "mp4"; audio_codec = codes "aac"; valid = true }));
  remux_file = λ path candidate w. (w, ok tt);
  transcode_file = λ path candidate w. (w, ok tt);
  tag = λ path result w. (w, ok tt);
  cleanup = λ source staging path w. (w, ok tt);
  exists = λ path w. false;
  size_of = λ path w. (w, ok (pos 7));
  promote = λ path destination w. (destination, ok (pos 7));
  put_back = λ destination path w. (w, ok tt);
  add_book = λ book w. (w, err (runtime_error "no database"));
  with_suffix = λ path suffix. path;
  digest = λ text. text;
}

abbrev job : ImportJob
job = record {
  id = codes "j";
  source_path = codes "/s/T.m4b";
  staging_path = none;
  stage = codes "final_verification";
}

abbrev result : DownloadResult
result = record {
  release_id = codes "r";
  title = codes "T";
  author = codes "A";
  narrator = none;
  format = codes "m4b";
  file_name = codes "T.m4b";
  size = pos 1;
  staging_dir = none;
  article_paths = [];
  article_subjects = [];
}

abbrev start : Import Text
start = record { world = []; events = [] }

known : stage_rank job.stage ≡ some 6
unfolding stage_rank text_functions
known = refl

process-IsTold_example :
    IsTold 6
      (process tools (codes "/l") job result start).0.events
      (process tools (codes "/l") job result start).1
process-IsTold_example =
    process-IsTold tools (codes "/l") job result start 6 known (omega arith) refl
