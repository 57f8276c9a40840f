-- ===== src/Indexer/Grouper/Tests.antt =====
-- Runs of the grouper at concrete headers.
use lore_x.Prelude.{
  ◌≡◌, refl, arith, List, [], ◌∷◌, true, false, some, none, Option, map, ◌⊎◌, nat_eq, list_eq,
}
use lore_x.Prelude.Int.{pos}
use lore_x.Result.{Result, ok, err, Error}
use lore_x.Text.{Text, codes, text_functions}
use lore_x.Dict.{get, contains, put, remove}
use lore_x.Domain.{ArticleHeader, ReleaseCandidate}
use lore_x.Indexer.Subject.{split_part_suffix}
use lore_x.Indexer.Group.{PendingGroup, new_group, add, is_complete, sort_parts, to_candidate}
use lore_x.Indexer.Group.Complete.{
  Gathered, started, part, Gathered-complete, mixed_totals_complete,
}
use lore_x.Indexer.Group.Sorting.{keys, counted}
use lore_x.Indexer.Grouper.{Grouper, feed_one, feed_all, feed_split, make_room, add_last, flush}
use lore_x.Indexer.Grouper.Invariant.{IsGrouper, feed_one-IsGrouper, flush-IsGrouper, all_flushed}
use lore_x.Indexer.Grouper.Stems.{Named}
use lore_x.Indexer.Grouper.Streams.{alone, feed_all-alone}

abbrev header : Text → Text → ArticleHeader
header m s = record { message_id = m; subject = s; bytes = pos 700; group = codes "g" }

abbrev second_part : ArticleHeader
second_part = header (codes "<2>") (codes "A [2/2]")

abbrev first_part : ArticleHeader
first_part = header (codes "<1>") (codes "A [1/2]")

abbrev other_book : ArticleHeader
other_book = header (codes "<3>") (codes "B [1/2]")

abbrev both : PendingGroup
both =
    add first_part (some 1) (some 2)
      (add second_part (some 2) (some 2) (new_group (codes "A") (some 2)))

both-Gathered : Gathered 2 both
both-Gathered =
    part first_part 1 (omega arith) (omega arith)
      (part second_part 2 (omega arith) (omega arith) (started (codes "A")))

both_complete : is_complete both ≡ true
unfolding is_complete add contains put
both_complete = refl

Gathered-complete_example :
    (keys (sort_parts both.numbered_parts) ≡ counted 0 2)
    × ((to_candidate both).headers ≡ map (λ e. e.1) (sort_parts both.numbered_parts))
Gathered-complete_example = Gathered-complete both-Gathered (omega arith) both_complete

mixed_totals_complete_example :
    let g =
      add first_part
        (some 3)
        (some 4)
        (add second_part (some 1) (some 2) (new_group (codes "A") none)) in
    (is_complete g ≡ true) × (contains 2 g.numbered_parts ≡ false)
mixed_totals_complete_example =
    mixed_totals_complete (codes "A") second_part first_part 1 3 4 (λ same. ground (arith, same))
      (omega arith) (omega arith) (omega arith)

abbrev waiting_grouper : Grouper
waiting_grouper = record { max_pending_groups = 4; pending = []; inspected = [] }

waiting-IsGrouper : IsGrouper waiting_grouper
waiting-IsGrouper = record { room = omega arith; bounded = omega arith; waiting = tt }

-- One group waits for its second part, and a header of another release comes.
abbrev half_waiting : Grouper
half_waiting = record waiting_grouper {
  pending = (codes "A", add second_part (some 2) (some 2) (new_group (codes "A") (some 2))) ∷ [];
}

half_waiting-IsGrouper : IsGrouper half_waiting
unfolding is_complete add contains put
half_waiting-IsGrouper = record {
  room = omega arith;
  bounded = omega arith;
  waiting = (refl, refl, tt);
}

half_waiting-Named : Named half_waiting.pending
unfolding add
half_waiting-Named = (refl, tt)

feed_one-IsGrouper_example :
    ((e : Error) × (split_part_suffix other_book.subject ≡ err e)
      × (feed_one other_book half_waiting ≡ err e))
    ⊎ ((r : Grouper × Option ReleaseCandidate) × (feed_one other_book half_waiting ≡ ok r)
        × IsGrouper r.0
        × Named r.0.pending)
feed_one-IsGrouper_example =
    feed_one-IsGrouper other_book half_waiting half_waiting-IsGrouper half_waiting-Named

abbrev unnumbered_group : PendingGroup
unnumbered_group = record (new_group (codes "C") none) {
  unnumbered_headers = header (codes "<4>") (codes "C") ∷ [];
}

abbrev two_waiting : Grouper
two_waiting = record waiting_grouper {
  pending = (codes "A", new_group (codes "A") (some 2)) ∷ (codes "C", unnumbered_group) ∷ [];
}

two_waiting-IsGrouper : IsGrouper two_waiting
unfolding is_complete contains
two_waiting-IsGrouper = record {
  room = omega arith;
  bounded = omega arith;
  waiting = (refl, refl, (refl, refl, tt));
}

flush-IsGrouper_example :
    ((flush two_waiting).1 ≡ all_flushed two_waiting.pending) × ((flush two_waiting).0.pending ≡ [])
flush-IsGrouper_example = flush-IsGrouper two_waiting two_waiting-IsGrouper

abbrev stream : List ArticleHeader
stream = second_part ∷ other_book ∷ first_part ∷ []

abbrev other_waiting : PendingGroup
other_waiting = add other_book (some 1) (some 2) (new_group (codes "B") (some 2))

abbrev after_stream : Result (Grouper × List ReleaseCandidate)
after_stream =
    ok
      (record waiting_grouper { pending = (codes "B", other_waiting) ∷ [] }, to_candidate both ∷ [])

stream-fed : feed_all stream waiting_grouper ≡ after_stream
unfolding feed_all feed_one feed_split make_room add_last add is_complete get contains put remove
    split_part_suffix text_functions
stream-fed = refl

feed_all-alone_example : some other_waiting ≡ alone (codes "B") stream none
unfolding get
feed_all-alone_example =
    feed_all-alone (codes "B") stream waiting_grouper
      (record waiting_grouper { pending = (codes "B", other_waiting) ∷ [] }, to_candidate both ∷ [])
      (omega arith) stream-fed
