-- ===== src/Indexer/Grouper/Streams.antt =====
-- `feed_one` on a stream in which the headers of several releases alternate.
use lore_x.Prelude.{
  ◌+◌, ◌≤◌, ◌<◌, ◌≡◌, refl, Option, none, some, List, [], ◌∷◌, ◌++◌, if◌then◌else◌, length, arith,
  ◌=?◌, nat_eq, list_eq, Option-cases, inl, inr, length-append, =?-refl, list_beq_iff,
}
use lore_x.Result.{ok, err, >>=-eq-ok}
use lore_x.Text.{Text}
use lore_x.Dict.{Dict, get, remove, get-remove, length-remove}
use lore_x.Domain.{ArticleHeader, ReleaseCandidate}
use lore_x.Indexer.Subject.{Split, split_part_suffix}
use lore_x.Indexer.Group.{PendingGroup, new_group, add, is_complete, to_candidate}
use lore_x.Indexer.Grouper.{Grouper, make_room, add_last, feed_split, feed_one, feed_all}

-- What one header does to the group of its own stem, if that is all there is: the group that waits
-- afterwards, if any, and the candidate, if it completes one.
abbrev pub alone_step :
    ArticleHeader → Split → Option PendingGroup → Option PendingGroup × Option ReleaseCandidate
alone_step h s o =
    let group =
      add h s.part_number s.total_parts
        (elim o [ none ↦ new_group s.stem s.total_parts | some g ↦ g ]) in
    if is_complete group then (none, some (to_candidate group)) else (some group, none)

-- A stream seen by one stem: the headers of the others are passed over.
abbrev pub alone : Text → List ArticleHeader → Option PendingGroup → Option PendingGroup
alone k [] o = o
alone k (h ∷ hs) o = elim (split_part_suffix h.subject) [
  | err e ↦ alone k hs o
  | ok s ↦ alone k hs (if s.stem =? k then (alone_step h s o).0 else o)
]

get-append :
    (k j : Text) (w : PendingGroup) (d : Dict Text PendingGroup)
    → get k (d ++ (j, w) ∷ [])
      ≡ (elim (get k d) [ none ↦ if j =? k then some w else none | some v ↦ some v ])
unfolding get
get-append k j w [] = refl
get-append k j w ((i, v) ∷ d) = ground (arith, get-append k j w d)

abbrev outcome : ArticleHeader → Split → PendingGroup → Option PendingGroup
outcome h s w =
    let group = add h s.part_number s.total_parts w in
    if is_complete group then none else some group

get-add_last :
    (h : ArticleHeader) (s : Split) (w : PendingGroup) (g : Grouper) (k : Text)
    → get s.stem g.pending ≡ none
    → get k (add_last h s w g).0.pending ≡ (if s.stem =? k then outcome h s w else get k g.pending)
unfolding add_last
get-add_last h s w g k absent = ground (
  arith,
  list_beq_iff s.stem k,
  get-append k s.stem (add h s.part_number s.total_parts w) g.pending,
)

add_last-length :
    (h : ArticleHeader) (s : Split) (w : PendingGroup) (g : Grouper)
    → (length (add_last h s w g).0.pending ≤ length g.pending + 1)
      × ((add_last h s w g).0.max_pending_groups ≡ g.max_pending_groups)
unfolding add_last
add_last-length h s w g =
    ground (arith, length-append g.pending ((s.stem, add h s.part_number s.total_parts w) ∷ []))

-- What a header does where the grouper has room.
abbrev Stepped : ArticleHeader → Split → Grouper → Grouper → Type 0
Stepped h s g g' =
    ((k : Text)
      → get k g'.pending
        ≡ (if s.stem =? k then (alone_step h s (get k g.pending)).0 else get k g.pending))
    × (length g'.pending ≤ length g.pending + 1)
    × (g'.max_pending_groups ≡ g.max_pending_groups)

new_stem :
    (h : ArticleHeader) (s : Split) (g : Grouper)
    → get s.stem g.pending ≡ none
    → Stepped h s g (add_last h s (new_group s.stem s.total_parts) g).0
new_stem h s g absent = (
  λ k.
      ground (
        arith,
        list_beq_iff s.stem k,
        get-add_last h s (new_group s.stem s.total_parts) g k absent,
      ),
  (add_last-length h s (new_group s.stem s.total_parts) g).0,
  (add_last-length h s (new_group s.stem s.total_parts) g).1,
)

known_stem :
    (h : ArticleHeader) (s : Split) (g : Grouper) (w : PendingGroup)
    → get s.stem g.pending ≡ some w
    → Stepped h s g (add_last h s w (record g { pending = remove s.stem g.pending })).0
known_stem h s g w found =
    let g' : Grouper = record g { pending = remove s.stem g.pending } in
    let absent : get s.stem g'.pending ≡ none =
      ground (arith, get-remove s.stem s.stem g.pending, =?-refl s.stem) in
    (
      λ k. ground (
        arith,
        list_beq_iff s.stem k,
        get-add_last h s w g' k absent,
        get-remove s.stem k g.pending,
      ),
      omega (arith, add_last-length h s w g', length-remove s.stem g.pending),
      (add_last-length h s w g').1,
    )

feed_split-Stepped :
    (h : ArticleHeader) (s : Split) (g : Grouper) (r : Grouper × Option ReleaseCandidate)
    → length g.pending < g.max_pending_groups
    → feed_split h s g ≡ ok r
    → Stepped h s g r.0
unfolding feed_split make_room
feed_split-Stepped h s g r room fed = elim (Option-cases (get s.stem g.pending)) [
  | inl absent ↦
      let same : add_last h s (new_group s.stem s.total_parts) g ≡ r =
        ground (arith, absent, room, fed) in
      rw (← same) (new_stem h s g absent)
  | inr (w, found) ↦
      let same : add_last h s w (record g { pending = remove s.stem g.pending }) ≡ r =
        ground (arith, found, fed) in
      rw (← same) (known_stem h s g w found)
]

feed_one-ok :
    (h : ArticleHeader) (g : Grouper) (r : Grouper × Option ReleaseCandidate)
    → feed_one h g ≡ ok r
    → (s : Split) × (split_part_suffix h.subject ≡ ok s) × (feed_split h s g ≡ ok r)
unfolding feed_one
feed_one-ok h g r fed = >>=-eq-ok (split_part_suffix h.subject) (λ s. feed_split h s g) fed

-- Where every header of the list may open a group of its own without passing the bound, the group
-- that waits under a stem afterwards is the one that this stem's headers alone would have left.
pub feed_all-alone :
    (k : Text) (hs : List ArticleHeader) (g : Grouper) (r : Grouper × List ReleaseCandidate)
    → length g.pending + length hs ≤ g.max_pending_groups
    → feed_all hs g ≡ ok r
    → get k r.0.pending ≡ alone k hs (get k g.pending)
unfolding feed_all
feed_all-alone k [] g r room fed = ground (arith, fed)
feed_all-alone k (h ∷ hs) g r room fed =
    let (r1, one, later) = >>=-eq-ok (feed_one h g) _ fed in
    let (r2, rest, last) = >>=-eq-ok (feed_all hs r1.0) _ later in
    let (s, parsed, split) = feed_one-ok h g r1 one in
    let (gets, size, cap) = feed_split-Stepped h s g r1 (omega arith) split in
    let ih = feed_all-alone k hs r1.0 r2 (omega arith) rest in
    ground (arith, ih, parsed, gets k, last)
