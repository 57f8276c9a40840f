-- ===== src/Services/Search/Execute.antt =====
-- The search itself (services/on_demand_search.py): duplicates, ranking, and the loop over the queries.
-- The provider is a function from a query to its candidates.
use lore_x.Prelude.{
  Bool, true, false, not, ◌||◌, ◌&&◌, Option, none, some, List, [], ◌∷◌, ◌++◌, keep, ltb, ◌==◌,
  if◌then◌else◌, nat_eq, list_eq, pair_eq,
}
use lore_x.Prelude.Int.{ℤ, pos, ltb_ℤ, leb_ℤ}
use lore_x.Result.{Result, ok, err, value_error, ◌>>=◌}
use lore_x.Text.{Text, is_empty, casefold}
use lore_x.Dict.{Dict, get, put}
use lore_x.Services.Search.{BookSearchRequest, SearchCandidate, clean, expand_queries}
use lore_x.Services.Search.Score.{Ratio, hidden, ScoredCandidate, score_candidate}

pub record OnDemandSearchResult : Type 0 where
  pub queries : List Text
  pub results : List ScoredCandidate
  pub stopped_early : Bool

abbrev pub Key : Type 0
Key = Text × (Text × Text)

unfoldable pub candidate_key : SearchCandidate → Key
unfolding clean
candidate_key c = (clean (some c.title), (clean c.author, casefold c.format))

-- The order of the pairs (completion, size).
abbrev pub is_better : SearchCandidate → SearchCandidate → Bool
is_better c d =
    ltb d.completion c.completion || ((d.completion == c.completion) && ltb_ℤ d.size c.size)

abbrev pub replaces : SearchCandidate → Option SearchCandidate → Bool
replaces c none = true
replaces c (some d) = is_better c d

unfoldable pub dedupe_one : SearchCandidate → Dict Key SearchCandidate → Dict Key SearchCandidate
unfolding get put candidate_key
dedupe_one c best =
    if replaces c (get {K = Key} (candidate_key c) best)
    then put {K = Key} (candidate_key c) c best
    else best

unfoldable pub dedupe_from :
    List SearchCandidate → Dict Key SearchCandidate → Dict Key SearchCandidate
unfolding dedupe_one
dedupe_from [] best = best
dedupe_from (c ∷ cs) best = dedupe_from cs (dedupe_one c best)

unfoldable pub values_of : Dict Key SearchCandidate → List SearchCandidate
values_of [] = []
values_of ((k, c) ∷ d) = c ∷ values_of d

unfoldable pub dedupe_candidates : List SearchCandidate → List SearchCandidate
unfolding dedupe_from values_of
dedupe_candidates candidates = values_of (dedupe_from candidates [])

-- The key of the sort, in reverse: score, completion, size. Ties keep their order.
abbrev pub comes_first : ScoredCandidate → ScoredCandidate → Bool
comes_first a b =
    ltb_ℤ b.score a.score
    || (leb_ℤ b.score a.score && leb_ℤ a.score b.score && not (is_better b.candidate a.candidate))

unfoldable pub insert_scored : ScoredCandidate → List ScoredCandidate → List ScoredCandidate
insert_scored a [] = a ∷ []
insert_scored a (b ∷ bs) = if comes_first a b then a ∷ b ∷ bs else b ∷ insert_scored a bs

abbrev pub is_visible : ScoredCandidate → Bool
is_visible s = elim s.bucket [ hidden ↦ false | _ ↦ true ]

-- `scored and scored[0].score >= stop_score`
abbrev pub reaches : ℤ → List ScoredCandidate → Bool
reaches stop_score [] = false
reaches stop_score (s ∷ ss) = leb_ℤ stop_score s.score

module _ (ratio : Text → Text → Ratio) (request : BookSearchRequest) where
  unfoldable pub sort_scored : List SearchCandidate → List ScoredCandidate
  unfolding score_candidate insert_scored
  sort_scored [] = []
  sort_scored (c ∷ cs) = insert_scored (score_candidate ratio request c) (sort_scored cs)

  -- `scored`, of what has been found
  unfoldable pub ranked : List SearchCandidate → List ScoredCandidate
  unfolding sort_scored dedupe_candidates
  ranked found = sort_scored (dedupe_candidates found)

  unfoldable pub search_queries :
      (Text → List SearchCandidate)
      → ℤ
      → List Text
      → List Text
      → List SearchCandidate
      → List ScoredCandidate
      → OnDemandSearchResult
  unfolding ranked
  search_queries provider stop_score [] executed found scored = record {
    queries = executed;
    results = if is_empty found then [] else keep is_visible scored;
    stopped_early = false;
  }
  search_queries provider stop_score (q ∷ qs) executed found scored =
      let executed' = executed ++ q ∷ [] in
      let found' = found ++ provider q in
      let scored' = ranked found' in
      let rest = search_queries provider stop_score qs executed' found' scored' in
      if reaches stop_score scored'
      then record {
        queries = executed';
        results = if is_empty found' then [] else keep is_visible scored';
        stopped_early = true;
      }
      else rest

  unfoldable pub execute_on_demand_search :
      (Text → List SearchCandidate) → ℤ → Result OnDemandSearchResult
  unfolding expand_queries search_queries
  execute_on_demand_search provider stop_score =
      if leb_ℤ (pos 0) stop_score && leb_ℤ stop_score (pos 100)
      then expand_queries request
        >>= (λ queries. ok (search_queries provider stop_score queries [] [] []))
      else err (value_error "stop_score must be between 0 and 100")
