-- ===== src/Indexer/Group.antt =====
-- `_PendingGroup` of backend/lorex/indexer/grouping.py.
pub mod Sorting
pub mod Complete
use lore_x.Prelude.{
  ℕ, ◌+◌, ◌≡◌, Bool, true, false, not, Option, none, some, List, [], ◌∷◌, ◌++◌, map, any, leb,
  if◌then◌else◌, length, ◌=?◌, nat_eq, list_eq,
}
use lore_x.Text.{Text, is_empty}
use lore_x.Dict.{Dict, contains, put}
use lore_x.Domain.{ArticleHeader, ReleaseCandidate}

pub record PendingGroup : Type 0 where
  pub subject_stem : Text
  pub total_parts : Option ℕ
  pub numbered_parts : Dict ℕ ArticleHeader
  pub unnumbered_headers : List ArticleHeader
  pub seen_message_ids : List Text

-- `_PendingGroup(subject_stem=…, total_parts=…)`
abbrev pub new_group : Text → Option ℕ → PendingGroup
new_group stem total = record {
  subject_stem = stem;
  total_parts = total;
  numbered_parts = [];
  unnumbered_headers = [];
  seen_message_ids = [];
}

-- `number not in self.numbered_parts`: the first header of a part stays.
unfoldable pub add_part : ℕ → ArticleHeader → Dict ℕ ArticleHeader → Dict ℕ ArticleHeader
add_part n h parts = if contains n parts then parts else put n h parts

-- `self.total_parts = total_parts` if it is None.
abbrev pub or_total : Option ℕ → ℕ → Option ℕ
or_total none t = some t
or_total (some u) t = some u

-- What `add` does with a header whose message id is new.
unfoldable pub add_new : ArticleHeader → Option ℕ → Option ℕ → PendingGroup → PendingGroup
unfolding add_part
add_new h (some p) (some t) g = record g {
  total_parts = or_total g.total_parts t;
  numbered_parts = add_part p h g.numbered_parts;
}
add_new h none total g = record g { unnumbered_headers = g.unnumbered_headers ++ h ∷ [] }
add_new h (some p) none g = record g { unnumbered_headers = g.unnumbered_headers ++ h ∷ [] }

unfoldable pub add : ArticleHeader → Option ℕ → Option ℕ → PendingGroup → PendingGroup
unfolding add_new
add h part total g =
    if any (λ m. m =? h.message_id) g.seen_message_ids
    then g
    else add_new h part total (record g { seen_message_ids = h.message_id ∷ g.seen_message_ids })

unfoldable pub is_complete : PendingGroup → Bool
is_complete g = elim g.total_parts [ none ↦ false | some t ↦ leb t (length g.numbered_parts) ]

-- `sorted(self.numbered_parts)` with the headers: an insertion sort by the key.
unfoldable pub insert_part : ℕ × ArticleHeader → Dict ℕ ArticleHeader → Dict ℕ ArticleHeader
insert_part e [] = e ∷ []
insert_part e (f ∷ d) = let rest = insert_part e d in if leb e.0 f.0 then e ∷ f ∷ d else f ∷ rest

unfoldable pub sort_parts : Dict ℕ ArticleHeader → Dict ℕ ArticleHeader
unfolding insert_part
sort_parts [] = []
sort_parts (e ∷ d) = insert_part e (sort_parts d)

unfoldable pub to_candidate : PendingGroup → ReleaseCandidate
unfolding sort_parts
to_candidate g = record {
  subject_stem = g.subject_stem;
  headers =
      if is_empty g.numbered_parts
      then g.unnumbered_headers
      else map (λ e. e.1) (sort_parts g.numbered_parts);
}
