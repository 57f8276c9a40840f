-- ===== src/Indexer/Grouper/Stems.antt =====
-- The stems of the groups that wait (`StreamingHeaderGrouper._pending` of indexer/grouping.py).
use lore_x.Prelude.{
  ℕ, ◌≡◌, refl, sym, ◌∙◌, Option, none, some, [], ◌∷◌, ◌++◌, arith, ◌=?◌, nat_eq, list_eq,
  Bool-cases, Option-cases, inl, inr, list_beq_iff,
}
use lore_x.Result.{Result, ok, err}
use lore_x.Text.{Text}
use lore_x.Dict.{Dict, get, remove}
use lore_x.Domain.{ArticleHeader, ReleaseCandidate}
use lore_x.Indexer.Subject.{Split}
use lore_x.Indexer.Group.{PendingGroup, new_group, add_new, add, is_complete}
use lore_x.Indexer.Grouper.{Grouper, inspect, evict_oldest, make_room, add_last, feed_split}

-- Every group waits under the stem that it carries, and hands on to its candidate.
abbrev pub Named : Dict Text PendingGroup → Type 0
Named [] = Unit
Named ((stem, group) ∷ d) = (group.subject_stem ≡ stem) × Named d

remove-Named : (k : Text) (d : Dict Text PendingGroup) → Named d → Named (remove k d)
unfolding remove
remove-Named k [] h = tt
remove-Named k ((j, w) ∷ d) h = elim (Bool-cases (j =? k)) [
  | inl same ↦ rw same (remove-Named k d h.1)
  | inr other ↦ rw other (h.0, remove-Named k d h.1)
]

append-Named :
    (d : Dict Text PendingGroup) (k : Text) (w : PendingGroup)
    → Named d
    → w.subject_stem ≡ k
    → Named (d ++ (k, w) ∷ [])
append-Named [] k w h e = (e, tt)
append-Named ((j, x) ∷ d) k w h e = (h.0, append-Named d k w h.1 e)

get-Named :
    (k : Text) (d : Dict Text PendingGroup) (w : PendingGroup)
    → Named d
    → get k d ≡ some w
    → w.subject_stem ≡ k
unfolding get
get-Named k [] w h e = cc
get-Named k ((j, x) ∷ d) w h e = ground (arith, h.0, get-Named k d w h.1, list_beq_iff j k)

add_new-stem :
    (h : ArticleHeader) (part total : Option ℕ) (w : PendingGroup)
    → (add_new h part total w).subject_stem ≡ w.subject_stem
unfolding add_new
add_new-stem h (some p) (some t) w = refl
add_new-stem h none total w = refl
add_new-stem h (some p) none w = refl

add-stem :
    (h : ArticleHeader) (part total : Option ℕ) (w : PendingGroup)
    → (add h part total w).subject_stem ≡ w.subject_stem
unfolding add
add-stem h part total w = ground (
  arith,
  add_new-stem h part total (record w { seen_message_ids = h.message_id ∷ w.seen_message_ids }),
)

add_last-Named :
    (h : ArticleHeader) (s : Split) (w : PendingGroup) (g : Grouper)
    → Named g.pending
    → w.subject_stem ≡ s.stem
    → Named (add_last h s w g).0.pending
unfolding add_last
add_last-Named h s w g named e =
    elim (Bool-cases (is_complete (add h s.part_number s.total_parts w))) [
      | inl done ↦ rw done named
      | inr more ↦
          rw more
            (append-Named g.pending s.stem _ named (add-stem h s.part_number s.total_parts w ∙ e))
    ]

evict_oldest-Named :
    (d : Dict Text PendingGroup) (g g' : Grouper)
    → Named d
    → evict_oldest d g ≡ ok g'
    → Named g'.pending
unfolding evict_oldest inspect
evict_oldest-Named [] g g' named e = absurd cc
evict_oldest-Named ((k, x) ∷ d) g g' named e =
    let same : d ≡ g'.pending = ground (arith, e) in rw (sym same) named.1

make_room-Named : (g g' : Grouper) → Named g.pending → make_room g ≡ ok g' → Named g'.pending
unfolding make_room
make_room-Named g g' named e = ground (arith, e, evict_oldest-Named g.pending g g' named)

pub feed_split-Named :
    (h : ArticleHeader) (s : Split) (g : Grouper) (r : Grouper × Option ReleaseCandidate)
    → Named g.pending
    → feed_split h s g ≡ ok r
    → Named r.0.pending
unfolding feed_split
feed_split-Named h s g r named fed = elim (Option-cases (get s.stem g.pending)) [
  | inr (w, found) ↦
      let g' : Grouper = record g { pending = remove s.stem g.pending } in
      let same : add_last h s w g' ≡ r = ground (arith, fed, found) in
      rw (sym same) (
        add_last-Named h s w g' (remove-Named s.stem g.pending named)
          (get-Named s.stem g.pending w named found))
  | inl absent ↦ with_room (make_room g) refl absent
]
  where
    with_room :
        (m : Result Grouper) → make_room g ≡ m → get s.stem g.pending ≡ none → Named r.0.pending
    with_room (err e) q absent = absurd (ground (arith, fed, q, absent))
    with_room (ok g') q absent =
        let same : add_last h s (new_group s.stem s.total_parts) g' ≡ r =
          ground (arith, fed, q, absent) in
        rw (sym same) (
          add_last-Named h s (new_group s.stem s.total_parts) g' (make_room-Named g g' named q)
            refl)
