-- ===== src/Repository/Releases/Tests.antt =====
-- Runs of the release repository on concrete batches.
use lore_x.Prelude.{◌+◌, ◌≡◌, refl, ◌≤◌, [], ◌∷◌, none, some, length, nat_eq, list_eq, pair_eq}
use lore_x.Prelude.Int.{pos}
use lore_x.Result.{ok}
use lore_x.Text.{Text, codes}
use lore_x.Dict.{get, contains, put}
use lore_x.Domain.{IndexCheckpoint, IndexedRelease}
use lore_x.Repository.Releases.{
  Records, ReleaseRepository, empty_repository, check_checkpoint, insert_records, set_checkpoint,
  commit_index_batch,
}
use lore_x.Repository.Releases.Commit.{kept_or_first, commit_index_batch_lem}

abbrev release_of : Text → IndexedRelease
release_of id = record {
  id = id;
  title = codes "T";
  author = codes "A";
  narrator = none;
  format = codes "m4b";
  size = pos 9;
  completion = 1000;
  nzb = codes "";
  source_subject = codes "A - T";
}

abbrev store : ReleaseRepository
store = record empty_repository { items = (codes "r1", release_of (codes "r1")) ∷ [] }

abbrev batch : Records
batch =
    (release_of (codes "r1"), [])
    ∷ (release_of (codes "r2"), [])
    ∷ (release_of (codes "r2"), [])
    ∷ []

abbrev checkpoint : IndexCheckpoint
checkpoint = record { source = codes "s"; group = codes "g"; article_number = pos 7 }

abbrev after : ReleaseRepository
after = record {
  items = (codes "r1", release_of (codes "r1")) ∷ (codes "r2", release_of (codes "r2")) ∷ [];
  articles = (codes "r2", []) ∷ [];
  checkpoints = ((codes "s", codes "g"), checkpoint) ∷ [];
  nzb_cache = [];
}

committed : commit_index_batch batch (some checkpoint) store ≡ ok (1, after)
unfolding commit_index_batch check_checkpoint insert_records set_checkpoint get contains put
committed = refl

commit_index_batch_lem_example :
    (length after.items ≡ length store.items + 1)
    × (1 ≤ length batch)
    × ((id : Text) → get id after.items ≡ kept_or_first id batch (get id store.items))
commit_index_batch_lem_example =
    commit_index_batch_lem batch (some checkpoint) store 1 after committed
