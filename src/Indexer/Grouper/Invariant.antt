-- ===== src/Indexer/Grouper/Invariant.antt =====
-- The grouper's bound and its invariant.
use lore_x.Prelude.{
  suc, ◌≤◌, ◌<◌, ◌≡◌, ◌⊎◌, refl, true, false, ◌||◌, Option, none, some, List, [], ◌∷◌, ◌++◌, ltb,
  if◌then◌else◌, length, arith, ◌=?◌, nat_eq, list_eq, Bool-cases, Option-cases, inl, inr,
  length-append, list_beq_iff,
}
use lore_x.Result.{Result, ok, err, Error}
use lore_x.Text.{Text, is_empty}
use lore_x.Dict.{Dict, get, remove, contains, length-remove}
use lore_x.Domain.{ArticleHeader, ReleaseCandidate}
use lore_x.Indexer.Subject.{Split, split_part_suffix}
use lore_x.Indexer.Group.{PendingGroup, new_group, add, is_complete, to_candidate}
use lore_x.Indexer.Grouper.{
  Grouper, inspect, evict_oldest, make_room, add_last, feed_split, feed_one, flush_groups, flush,
}
use lore_x.Indexer.Grouper.Stems.{Named, feed_split-Named}

-- No stem has two groups, and none that waits is complete.
abbrev pub Waiting : Dict Text PendingGroup → Type 0
Waiting [] = Unit
Waiting ((stem, group) ∷ d) = (contains stem d ≡ false) × (is_complete group ≡ false) × Waiting d

pub record IsGrouper (g : Grouper) : Type 0 where
  pub room : 1 ≤ g.max_pending_groups
  pub bounded : length g.pending ≤ g.max_pending_groups
  pub waiting : Waiting g.pending

contains-remove :
    (j k : Text) (d : Dict Text PendingGroup)
    → contains j d ≡ false
    → contains j (remove k d) ≡ false
unfolding contains remove
contains-remove j k [] h = refl
contains-remove j k ((i, w) ∷ d) h = ground (arith, contains-remove j k d)

contains-remove_self : (k : Text) (d : Dict Text PendingGroup) → contains k (remove k d) ≡ false
unfolding contains remove
contains-remove_self k [] = refl
contains-remove_self k ((i, w) ∷ d) = ground (arith, contains-remove_self k d)

contains-append :
    (j : Text) (d : Dict Text PendingGroup) (k : Text) (w : PendingGroup)
    → contains j (d ++ (k, w) ∷ []) ≡ (contains j d || (k =? j))
unfolding contains
contains-append j [] k w = ground arith
contains-append j ((i, x) ∷ d) k w = ground (arith, contains-append j d k w)

remove-Waiting : (k : Text) (d : Dict Text PendingGroup) → Waiting d → Waiting (remove k d)
unfolding remove
remove-Waiting k [] h = tt
remove-Waiting k ((i, w) ∷ d) h = elim (Bool-cases (i =? k)) [
  | inl same ↦ rw same (remove-Waiting k d h.2)
  | inr other ↦ rw other (contains-remove i k d h.0, h.1, remove-Waiting k d h.2)
]

append-Waiting :
    (d : Dict Text PendingGroup) (k : Text) (w : PendingGroup)
    → Waiting d
    → contains k d ≡ false
    → is_complete w ≡ false
    → Waiting (d ++ (k, w) ∷ [])
unfolding contains
append-Waiting [] k w h c i = (refl, i, tt)
append-Waiting ((j, x) ∷ d) k w h c i =
    let other : (j =? k) ≡ false = ground arith in
    let apart : (k =? j) ≡ false = ground (arith, list_beq_iff j k, list_beq_iff k j) in
    (ground (arith, contains-append j d k w), h.1, append-Waiting d k w h.2 (ground arith) i)

length-remove_present :
    (k : Text) (d : Dict Text PendingGroup)
    → contains k d ≡ true
    → suc (length (remove k d)) ≤ length d
unfolding contains remove
length-remove_present k [] h = cc
length-remove_present k ((j, x) ∷ d) h =
    ground (arith, length-remove_present k d, length-remove k d)

-- A grouper with room for one more, which does not hold the stem.
record HasRoom (stem : Text) (g : Grouper) : Type 0 where
  room : 1 ≤ g.max_pending_groups
  below : length g.pending < g.max_pending_groups
  waiting : Waiting g.pending
  absent : contains stem g.pending ≡ false

add_last-IsGrouper :
    (h : ArticleHeader) (s : Split) (w : PendingGroup) (g : Grouper)
    → HasRoom s.stem g
    → IsGrouper (add_last h s w g).0
unfolding add_last
add_last-IsGrouper h s w g r =
    elim (Bool-cases (is_complete (add h s.part_number s.total_parts w))) [
      | inl done ↦ rw done (record { room = r.room; bounded = omega arith; waiting = r.waiting })
      | inr more ↦ rw more (record {
        room = r.room;
        bounded = omega (
          arith,
          length-append g.pending ((s.stem, add h s.part_number s.total_parts w) ∷ []),
          r.below,
        );
        waiting = append-Waiting g.pending s.stem _ r.waiting r.absent more;
      })
    ]

get-contains :
    (k : Text) (d : Dict Text PendingGroup) (w : PendingGroup)
    → get k d ≡ some w
    → contains k d ≡ true
unfolding get contains
get-contains k [] w e = cc
get-contains k ((j, x) ∷ d) w e = ground (arith, get-contains k d w)

get-absent : (k : Text) (d : Dict Text PendingGroup) → get k d ≡ none → contains k d ≡ false
unfolding get contains
get-absent k [] e = refl
get-absent k ((j, x) ∷ d) e = ground (arith, get-absent k d)

evicted :
    (stem : Text) (d : Dict Text PendingGroup) (g : Grouper)
    → 1 ≤ g.max_pending_groups
    → length d ≤ g.max_pending_groups
    → g.max_pending_groups ≤ length d
    → Waiting d
    → contains stem d ≡ false
    → (g' : Grouper) × (evict_oldest d g ≡ ok g') × HasRoom stem g'
unfolding evict_oldest inspect
evicted stem [] g one up low w c = absurd (omega arith)
evicted stem ((k, x) ∷ d) g one up low w c = (
  _,
  refl,
  record {
    room = one;
    below = omega arith;
    waiting = w.2;
    absent = unfold contains in ground arith;
  },
)

make_room-HasRoom :
    (stem : Text) (g : Grouper)
    → IsGrouper g
    → contains stem g.pending ≡ false
    → (g' : Grouper) × (make_room g ≡ ok g') × HasRoom stem g'
unfolding make_room
make_room-HasRoom stem g i c = elim (Bool-cases (ltb (length g.pending) g.max_pending_groups)) [
  | inl room ↦
      (g, rw room, record { room = i.room; below = ground arith; waiting = i.waiting; absent = c })
  | inr full ↦ rw full (evicted stem g.pending g i.room i.bounded (ground arith) i.waiting c)
]

-- The split of a header always finds room: the grouper does not fail on it, and stays well formed.
pub feed_split-IsGrouper :
    (h : ArticleHeader) (s : Split) (g : Grouper)
    → IsGrouper g
    → (r : Grouper × Option ReleaseCandidate) × (feed_split h s g ≡ ok r) × IsGrouper r.0
unfolding feed_split
feed_split-IsGrouper h s g i = elim (Option-cases (get s.stem g.pending)) [
  | inl absent ↦
      let (g', made, room) = make_room-HasRoom s.stem g i (get-absent s.stem g.pending absent) in
      (
        add_last h s (new_group s.stem s.total_parts) g',
        ground (arith, absent, made),
        add_last-IsGrouper h s (new_group s.stem s.total_parts) g' room,
      )
  | inr (w, found) ↦
      let g' : Grouper = record g { pending = remove s.stem g.pending } in
      (
        add_last h s w g',
        ground (arith, found),
        add_last-IsGrouper h s w g' (record {
          room = i.room;
          below = omega (
            arith,
            length-remove_present s.stem g.pending (get-contains s.stem g.pending w found),
          );
          waiting = remove-Waiting s.stem g.pending i.waiting;
          absent = contains-remove_self s.stem g.pending;
        }),
      )
]

-- In a well formed grouper whose groups wait under the stems that they carry, `feed_one` fails only
-- where the subject's numbers cannot be read; when it does not fail, the same holds of the grouper it
-- leaves: at most `max_pending_groups` groups wait, no two under one stem, each under the stem that it
-- carries, and none of them is complete.
pub feed_one-IsGrouper :
    (h : ArticleHeader) (g : Grouper)
    → IsGrouper g
    → Named g.pending
    → ((e : Error) × (split_part_suffix h.subject ≡ err e) × (feed_one h g ≡ err e))
      ⊎ ((r : Grouper × Option ReleaseCandidate) × (feed_one h g ≡ ok r)
          × IsGrouper r.0
          × Named r.0.pending)
unfolding feed_one
feed_one-IsGrouper h g i named = by_split (split_part_suffix h.subject) refl
  where
    by_split :
        (s : Result Split)
        → split_part_suffix h.subject ≡ s
        → ((e : Error) × (split_part_suffix h.subject ≡ err e) × (feed_one h g ≡ err e))
          ⊎ ((r : Grouper × Option ReleaseCandidate) × (feed_one h g ≡ ok r)
              × IsGrouper r.0
              × Named r.0.pending)
    by_split (err e) q = inl (e, q, rw (q, feed_one))
    by_split (ok s) q =
        let (r, fed, good) = feed_split-IsGrouper h s g i in
        inr (r, rw (q, feed_one) fed, good, feed_split-Named h s g r named fed)

-- What `flush` returns of one group that is not complete.
abbrev pub flushed : PendingGroup → List ReleaseCandidate
flushed group = elim group.total_parts [
  | none ↦ if is_empty group.unnumbered_headers then [] else to_candidate group ∷ []
  | some t ↦ []
]

abbrev pub all_flushed : Dict Text PendingGroup → List ReleaseCandidate
all_flushed [] = []
all_flushed ((stem, group) ∷ d) = flushed group ++ all_flushed d

flush_groups-Waiting :
    (d : Dict Text PendingGroup) (g : Grouper)
    → Waiting d
    → ((flush_groups d g).1 ≡ all_flushed d) × ((flush_groups d g).0.pending ≡ [])
unfolding flush_groups inspect
flush_groups-Waiting [] g w = (refl, refl)
flush_groups-Waiting ((k, x) ∷ d) g w = ground (
  arith,
  flush_groups-Waiting d g w.2,
  flush_groups-Waiting d (record g { inspected = g.inspected ++ to_candidate x ∷ [] }) w.2,
)

-- A flush of a well formed grouper empties it and returns, in their order, the groups without any
-- counter that hold a header, and no group that still waits for parts.
pub flush-IsGrouper :
    (g : Grouper) → IsGrouper g → ((flush g).1 ≡ all_flushed g.pending) × ((flush g).0.pending ≡ [])
unfolding flush
flush-IsGrouper g i = flush_groups-Waiting g.pending g i.waiting
