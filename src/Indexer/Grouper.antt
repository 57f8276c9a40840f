-- ===== src/Indexer/Grouper.antt =====
-- `StreamingHeaderGrouper` and `group_headers` of backend/lorex/indexer/grouping.py. A call of
-- `inspect_incomplete` is recorded in `inspected`, in the order of the calls.
pub mod Invariant
pub mod Streams
pub mod Stems
mod Tests
use lore_x.Prelude.{
  ℕ, ◌+◌, ◌≡◌, Bool, true, false, not, Option, none, some, List, [], ◌∷◌, ◌++◌, map, leb, ltb,
  if◌then◌else◌, length, max, ◌=?◌, nat_eq, list_eq,
}
use Prim.Native.Nat.{compare, Ordering}
use lore_x.Result.{Result, ok, err, value_error, key_error, ◌>>=◌}
use lore_x.Text.{Text, is_empty, casefold}
use lore_x.Dict.{Dict, get, remove}
use lore_x.Domain.{ArticleHeader, ReleaseCandidate}
use lore_x.Indexer.Subject.{Split, split_part_suffix}
use lore_x.Indexer.Group.{PendingGroup, new_group, add, is_complete, to_candidate}

pub record Grouper : Type 0 where
  pub max_pending_groups : ℕ
  pub pending : Dict Text PendingGroup
  pub inspected : List ReleaseCandidate

-- `StreamingHeaderGrouper(max_pending_groups=…)`
unfoldable pub new_grouper : ℕ → Result Grouper
new_grouper n =
    if ltb n 1
    then err (value_error "max_pending_groups must be at least 1")
    else ok (record { max_pending_groups = n; pending = []; inspected = [] })

unfoldable pub inspect : PendingGroup → Grouper → Grouper
unfolding to_candidate
inspect group g = record g { inspected = g.inspected ++ to_candidate group ∷ [] }

-- `_, evicted = self._pending.popitem(last=False)`
unfoldable pub evict_oldest : Dict Text PendingGroup → Grouper → Result Grouper
unfolding inspect
evict_oldest [] g = err (key_error "dictionary is empty")
evict_oldest ((stem, evicted) ∷ rest) g = ok (inspect evicted (record g { pending = rest }))

unfoldable pub make_room : Grouper → Result Grouper
unfolding evict_oldest
make_room g = if ltb (length g.pending) g.max_pending_groups then ok g else evict_oldest g.pending g

-- The group of the stem, which now stands last, takes the header; if that completes it, it leaves.
unfoldable pub add_last :
    ArticleHeader → Split → PendingGroup → Grouper → Grouper × Option ReleaseCandidate
unfolding add is_complete to_candidate
add_last h s group g =
    let group' = add h s.part_number s.total_parts group in
    if is_complete group'
    then (g, some (to_candidate group'))
    else (record g { pending = g.pending ++ (s.stem, group') ∷ [] }, none)

-- `feed_one` behind the parse of the subject.
unfoldable pub feed_split :
    ArticleHeader → Split → Grouper → Result (Grouper × Option ReleaseCandidate)
unfolding make_room add_last
feed_split h s g = elim (get s.stem g.pending) [
  | some group ↦ ok (add_last h s group (record g { pending = remove s.stem g.pending }))
  | none ↦ elim (make_room g) [
    | err e ↦ err e
    | ok g' ↦ ok (add_last h s (new_group s.stem s.total_parts) g')
  ]
]

unfoldable pub feed_one : ArticleHeader → Grouper → Result (Grouper × Option ReleaseCandidate)
feed_one h g = do s ← split_part_suffix h.subject; feed_split h s g

-- `flush`, on the groups that are left to visit.
unfoldable pub flush_groups : Dict Text PendingGroup → Grouper → Grouper × List ReleaseCandidate
unfolding inspect is_complete
flush_groups [] g = (record g { pending = [] }, [])
flush_groups ((stem, group) ∷ rest) g =
    let skipped = flush_groups rest g in
    let failed = flush_groups rest (inspect group g) in
    elim group.total_parts [
      | none ↦
          if is_empty group.unnumbered_headers
          then skipped
          else (skipped.0, to_candidate group ∷ skipped.1)
      | some t ↦ if is_complete group then (skipped.0, to_candidate group ∷ skipped.1) else failed
    ]

unfoldable pub flush : Grouper → Grouper × List ReleaseCandidate
unfolding flush_groups
flush g = flush_groups g.pending g

-- Feeding a list of headers, with the candidates in the order in which they complete.
abbrev with_first : Option ReleaseCandidate → List ReleaseCandidate → List ReleaseCandidate
with_first none cs = cs
with_first (some c) cs = c ∷ cs

unfoldable pub feed_all : List ArticleHeader → Grouper → Result (Grouper × List ReleaseCandidate)
feed_all [] g = ok (g, [])
feed_all (h ∷ hs) g = do r ← feed_one h g; r' ← feed_all hs r.0; ok (r'.0, with_first r.1 r'.1)

-- The order of texts by code points.
unfoldable pub text_le : Text → Text → Bool
text_le [] s = true
text_le (c ∷ s) [] = false
text_le (c ∷ s) (d ∷ t) =
    let rest = text_le s t in
    elim (compare c d) [ Ordering.lt ↦ true | Ordering.eq ↦ rest | Ordering.gt ↦ false ]

-- `sorted(candidates, key=lambda item: item.subject_stem.casefold())`: a stable insertion sort.
unfoldable pub insert_candidate : ReleaseCandidate → List ReleaseCandidate → List ReleaseCandidate
unfolding text_le
insert_candidate c [] = c ∷ []
insert_candidate c (d ∷ cs) =
    let rest = insert_candidate c cs in
    if text_le (casefold c.subject_stem) (casefold d.subject_stem) then c ∷ d ∷ cs else d ∷ rest

unfoldable pub sort_candidates : List ReleaseCandidate → List ReleaseCandidate
unfolding insert_candidate
sort_candidates [] = []
sort_candidates (c ∷ cs) = insert_candidate c (sort_candidates cs)

unfoldable pub group_headers : List ArticleHeader → Result (List ReleaseCandidate)
unfolding new_grouper feed_all flush sort_candidates
group_headers [] = ok []
group_headers (h ∷ hs) = do
  g ← new_grouper (max 1 (length (h ∷ hs)))
  r ← feed_all (h ∷ hs) g
  ok (sort_candidates (r.1 ++ (flush r.0).1))
