-- ===== src/Repository/Releases/Commit.antt =====
-- What a committed batch does to the store.
use mathlib.Core.Path.{subst}
use lore_x.Prelude.{
  ℕ, ◌+◌, ◌≤◌, ◌≡◌, refl, ap, ◌∙◌, true, Option, none, some, List, [], ◌∷◌, if◌then◌else◌, ◌=?◌,
  nat_eq, list_eq, pair_eq, arith, length, Bool-cases, Option-cases, inl, inr, All, list_beq_iff,
  =?-refl,
}
use lore_x.Prelude.Int.{ℤ, pos, ◌≤ℤ◌}
use lore_x.Result.{ok, Result-cases}
use lore_x.Text.{Text}
use lore_x.Dict.{get, contains, put, get-put, contains_iff-get, length-put}
use lore_x.Domain.{ArticleHeader, IndexCheckpoint, IndexedRelease}
use lore_x.Repository.Releases.{
  Records, ReleaseRepository, get_checkpoint, check_checkpoint, insert_records, set_checkpoint,
  commit_index_batch,
}

abbrev with_record : IndexedRelease → List ArticleHeader → ReleaseRepository → ReleaseRepository
with_record release articles r = record r {
  items = put release.id release r.items;
  articles = put release.id articles r.articles;
}

-- The store grows by as many entries as are reported, at most one for each record.
insert_records-count :
    (batch : Records) (r : ReleaseRepository)
    → (length (insert_records batch r).1.items ≡ length r.items + (insert_records batch r).0)
      × ((insert_records batch r).0 ≤ length batch)
unfolding insert_records
insert_records-count [] r = omega arith
insert_records-count ((release, articles) ∷ batch) r = ground (
  arith,
  insert_records-count batch r,
  insert_records-count batch (with_record release articles r),
  length-put release.id release r.items,
)

-- An entry that is there stays as it is.
insert_records-keeps :
    (batch : Records) (r : ReleaseRepository) (id : Text) (old : IndexedRelease)
    → get id r.items ≡ some old
    → get id (insert_records batch r).1.items ≡ some old
unfolding insert_records
insert_records-keeps [] r id old h = h
insert_records-keeps ((release, articles) ∷ batch) r id old h = ground (
  arith,
  insert_records-keeps batch r id old,
  insert_records-keeps batch (with_record release articles r) id old,
  get-put release.id id release r.items,
  contains_iff-get release.id r.items,
  list_beq_iff release.id id,
)

abbrev pub Has : Text → ReleaseRepository → Type 0
Has id r = (release : IndexedRelease) × (get id r.items ≡ some release)

Has-contains : (id : Text) (r : ReleaseRepository) → contains id r.items ≡ true → Has id r
Has-contains id r h = elim (Option-cases (get id r.items)) [
  | inl absent ↦ absurd (ground (arith, contains_iff-get id r.items, absent))
  | inr found ↦ found
]

keeps-Has :
    (batch : Records) (r : ReleaseRepository) (id : Text) {s : ℕ × ReleaseRepository}
    → insert_records batch r ≡ s
    → Has id r
    → Has id s.1
keeps-Has batch r id q (old, e) = (old, rw (← q) (insert_records-keeps batch r id old e))

-- Every record of the batch is there afterwards.
insert_records-Has :
    (batch : Records) (r : ReleaseRepository) {s : ℕ × ReleaseRepository}
    → insert_records batch r ≡ s
    → All (λ e. Has e.0.id s.1) batch
unfolding insert_records
insert_records-Has [] r q = tt
insert_records-Has ((release, articles) ∷ batch) r {s} q =
    elim (Bool-cases (contains release.id r.items)) [
      | inl old ↦
          let same : insert_records batch r ≡ s = ground (arith, old, q) in
          (
            keeps-Has batch r release.id same (Has-contains release.id r old),
            insert_records-Has batch r same,
          )
      | inr new ↦
          let r1 = with_record release articles r in
          let same : (insert_records batch r1).1 ≡ s.1 = ground (arith, new, q) in
          let there : Has release.id r1 = (
            release,
            ground (arith, get-put release.id release.id release r.items, =?-refl release.id),
          ) in
          (
            rw same at (keeps-Has batch r1 release.id refl there),
            subst (λ t. All (λ e. Has e.0.id t) batch) same (insert_records-Has batch r1 refl),
          )
    ]

-- Records that are all there are skipped.
insert_records-again :
    (batch : Records) (r : ReleaseRepository)
    → All (λ e. Has e.0.id r) batch
    → insert_records batch r ≡ (0, r)
unfolding insert_records
insert_records-again [] r h = refl
insert_records-again ((release, articles) ∷ batch) r ((old, e), h) =
    ground (arith, contains_iff-get release.id r.items, e, insert_records-again batch r h)

pub insert_records-checkpoints :
    (batch : Records) (r : ReleaseRepository)
    → (insert_records batch r).1.checkpoints ≡ r.checkpoints
unfolding insert_records
insert_records-checkpoints [] r = refl
insert_records-checkpoints ((release, articles) ∷ batch) r = ground (
  arith,
  insert_records-checkpoints batch r,
  insert_records-checkpoints batch (with_record release articles r),
)

set_checkpoint-items :
    (c : Option IndexCheckpoint) (r : ReleaseRepository) → (set_checkpoint c r).items ≡ r.items
unfolding set_checkpoint
set_checkpoint-items none r = refl
set_checkpoint-items (some c) r = refl

commit-ok :
    (batch : Records) (c : Option IndexCheckpoint) (r : ReleaseRepository) (n : ℕ)
    (r' : ReleaseRepository)
    → commit_index_batch batch c r ≡ ok (n, r')
    → (check_checkpoint c r ≡ ok tt)
      × (n ≡ (insert_records batch r).0)
      × (r' ≡ set_checkpoint c (insert_records batch r).1)
unfolding commit_index_batch
commit-ok batch c r n r' h = elim (Result-cases (check_checkpoint c r)) [
  | inl (tt, fine) ↦ ground (arith, fine, h)
  | inr (e, wrong) ↦ absurd (ground (arith, wrong, h))
]

-- What a lookup of the id finds after the records: the release that was there, or the first of them.
abbrev pub first_record : Text → Records → Option IndexedRelease
first_record id [] = none
first_record id ((release, articles) ∷ batch) =
    if release.id =? id then some release else first_record id batch

abbrev pub kept_or_first : Text → Records → Option IndexedRelease → Option IndexedRelease
kept_or_first id batch none = first_record id batch
kept_or_first id batch (some old) = some old

insert_records-get :
    (batch : Records) (r : ReleaseRepository) (id : Text)
    → get id (insert_records batch r).1.items ≡ kept_or_first id batch (get id r.items)
unfolding insert_records
insert_records-get [] r id = ground arith
insert_records-get ((release, articles) ∷ batch) r id = ground (
  arith,
  insert_records-get batch r id,
  insert_records-get batch (with_record release articles r) id,
  get-put release.id id release r.items,
  contains_iff-get release.id r.items,
  list_beq_iff release.id id,
)

-- A commit that succeeds reports how many releases it added, at most one for each record; each id
-- then has the release it had, or else that of the first record with it.
pub commit_index_batch_lem :
    (batch : Records) (c : Option IndexCheckpoint) (r : ReleaseRepository) (n : ℕ)
    (r' : ReleaseRepository)
    → commit_index_batch batch c r ≡ ok (n, r')
    → (length r'.items ≡ length r.items + n)
      × (n ≤ length batch)
      × ((id : Text) → get id r'.items ≡ kept_or_first id batch (get id r.items))
commit_index_batch_lem batch c r n r' h =
    let (fine, count, final) = commit-ok batch c r n r' h in
    let items : r'.items ≡ (insert_records batch r).1.items =
      ap (λ s. s.items) final ∙ set_checkpoint-items c (insert_records batch r).1 in
    rw (items, count)
      (
        (insert_records-count batch r).0,
        (insert_records-count batch r).1,
        insert_records-get batch r,
      )

commit-Has :
    (batch : Records) (c : Option IndexCheckpoint) (r : ReleaseRepository) (n : ℕ)
    (r' : ReleaseRepository)
    → commit_index_batch batch c r ≡ ok (n, r')
    → All (λ e. Has e.0.id r') batch
commit-Has batch c r n r' h =
    let (fine, count, final) = commit-ok batch c r n r' h in
    let items : r'.items ≡ (insert_records batch r).1.items =
      ap (λ s. s.items) final ∙ set_checkpoint-items c (insert_records batch r).1 in
    rw items (insert_records-Has batch r refl)

-- Committing the records of a committed batch once more, without a checkpoint, adds and changes nothing.
pub commit_index_batch-again :
    (batch : Records) (c : Option IndexCheckpoint) (r : ReleaseRepository) (n : ℕ)
    (r' : ReleaseRepository)
    → commit_index_batch batch c r ≡ ok (n, r')
    → commit_index_batch batch none r' ≡ ok (0, r')
unfolding commit_index_batch check_checkpoint set_checkpoint
commit_index_batch-again batch c r n r' h =
    rw (insert_records-again batch r' (commit-Has batch c r n r' h))

-- No checkpoint is stored, or the stored one is not above the number.
abbrev pub NotAbove : ℤ → Option IndexCheckpoint → Type 0
NotAbove n none = Unit
NotAbove n (some previous) = previous.article_number ≤ℤ n

check_checkpoint-ok :
    (c : IndexCheckpoint) (r : ReleaseRepository)
    → check_checkpoint (some c) r ≡ ok tt
    → (pos 0 ≤ℤ c.article_number) × NotAbove c.article_number (get_checkpoint c.source c.group r)
unfolding check_checkpoint get_checkpoint
check_checkpoint-ok c r fine = (ground (arith, fine), ground (arith, fine))

pub commit-checkpoints :
    (batch : Records) (c : IndexCheckpoint) (r : ReleaseRepository) (n : ℕ) (r' : ReleaseRepository)
    → commit_index_batch batch (some c) r ≡ ok (n, r')
    → r'.checkpoints ≡ put (c.source, c.group) c r.checkpoints
unfolding set_checkpoint
commit-checkpoints batch c r n r' h =
    let (fine, count, final) = commit-ok batch (some c) r n r' h in
    ap (λ s. s.checkpoints) final
    ∙ ap (put (c.source, c.group) c) (insert_records-checkpoints batch r)

-- A commit with a checkpoint succeeds only if the number is not negative and not below the one
-- that is stored for its source and group; then it is the stored one, and no other checkpoint changes.
pub commit_index_batch-checkpoint :
    (batch : Records) (c : IndexCheckpoint) (r : ReleaseRepository) (n : ℕ) (r' : ReleaseRepository)
    → commit_index_batch batch (some c) r ≡ ok (n, r')
    → (pos 0 ≤ℤ c.article_number)
      × NotAbove c.article_number (get_checkpoint c.source c.group r)
      × ((source group : Text)
          → get_checkpoint source group r' ≡ (
              if ◌=?◌ {A = Text × Text} (c.source, c.group) (source, group)
              then some c
              else get_checkpoint source group r))
unfolding get_checkpoint set_checkpoint
commit_index_batch-checkpoint batch c r n r' h =
    let (fine, count, final) = commit-ok batch (some c) r n r' h in
    let (a, b) = check_checkpoint-ok c r fine in
    (
      a,
      b,
      λ source group. ground (
        arith,
        final,
        insert_records-checkpoints batch r,
        get-put {K = Text × Text} (c.source, c.group) (source, group) c r.checkpoints,
      ),
    )
