-- ===== src/Repository/Releases.antt =====
-- `ReleaseRepository` of backend/lorex/repository.py.
pub mod Commit
mod Tests
use lore_x.Prelude.{
  ℕ, suc, ◌+◌, ◌≡◌, Bool, true, false, not, Option, none, some, List, [], ◌∷◌, ◌++◌, ◌&&◌,
  if◌then◌else◌, ◌=?◌, nat_eq, list_eq, pair_eq,
}
use lore_x.Prelude.Int.{ℤ, pos, ltb_ℤ}
use lore_x.Result.{Result, ok, err, value_error, ◌>>=◌}
use lore_x.Text.{Text}
use lore_x.Dict.{Dict, get, contains, put}
use lore_x.Domain.{ArticleHeader, IndexCheckpoint, IndexedRelease}

abbrev pub Records : Type 0
Records = List (IndexedRelease × List ArticleHeader)

pub record ReleaseRepository : Type 0 where
  pub items : Dict Text IndexedRelease
  pub articles : Dict Text (List ArticleHeader)
  pub checkpoints : Dict (Text × Text) IndexCheckpoint
  pub nzb_cache : Dict Text Text

abbrev pub empty_repository : ReleaseRepository
empty_repository = record { items = []; articles = []; checkpoints = []; nzb_cache = [] }

-- `add`
unfoldable pub add : IndexedRelease → ReleaseRepository → ReleaseRepository
add release r = record r { items = put release.id release r.items }

unfoldable pub get_checkpoint : Text → Text → ReleaseRepository → Option IndexCheckpoint
get_checkpoint source group r = get (source, group) r.checkpoints

unfoldable pub get_articles : Text → ReleaseRepository → List ArticleHeader
get_articles id r = elim (get id r.articles) [ none ↦ [] | some articles ↦ articles ]

-- The two tests on a checkpoint, before anything is written.
unfoldable pub check_checkpoint : Option IndexCheckpoint → ReleaseRepository → Result (Unit {0})
check_checkpoint none r = ok tt
check_checkpoint (some c) r =
    if ltb_ℤ c.article_number (pos 0)
    then err (value_error "checkpoint article number cannot be negative")
    else (elim (get (c.source, c.group) r.checkpoints) [
      | none ↦ ok tt
      | some previous ↦
          if ltb_ℤ c.article_number previous.article_number
          then err (value_error "checkpoint cannot move backwards")
          else ok tt
    ])

-- The loop over the batch, with the number of inserted releases.
unfoldable pub insert_records : Records → ReleaseRepository → ℕ × ReleaseRepository
insert_records [] r = (0, r)
insert_records ((release, articles) ∷ batch) r =
    let skipped = insert_records batch r in
    let (inserted, r') = insert_records batch (record r {
      items = put release.id release r.items;
      articles = put release.id articles r.articles;
    }) in
    if contains release.id r.items then skipped else (suc inserted, r')

unfoldable pub set_checkpoint : Option IndexCheckpoint → ReleaseRepository → ReleaseRepository
set_checkpoint none r = r
set_checkpoint (some c) r = record r { checkpoints = put (c.source, c.group) c r.checkpoints }

-- `commit_index_batch`: the number of inserted releases and the new store; an error leaves the old.
unfoldable pub commit_index_batch :
    Records → Option IndexCheckpoint → ReleaseRepository → Result (ℕ × ReleaseRepository)
unfolding check_checkpoint insert_records set_checkpoint
commit_index_batch batch checkpoint r = elim (check_checkpoint checkpoint r) [
  | err e ↦ err e
  | ok _ ↦
      let (inserted, r') = insert_records batch r in ok (inserted, set_checkpoint checkpoint r')
]

unfoldable pub get_cached_nzb : Text → ReleaseRepository → Option Text
get_cached_nzb id r = get id r.nzb_cache

unfoldable pub cache_nzb : Text → Text → ReleaseRepository → ReleaseRepository
cache_nzb id nzb r = record r { nzb_cache = put id nzb r.nzb_cache }
