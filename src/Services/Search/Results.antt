-- ===== src/Services/Search/Results.antt =====
-- The loop over the queries and the ranking of an on-demand search (services/on_demand_search.py).
use lore_x.Prelude.{
  ◌≡◌, refl, sym, ap, ◌∙◌, Bool, true, false, not, ◌||◌, ◌&&◌, List, [], ◌∷◌, ◌++◌, append_assoc,
  append-nil, keep, if◌then◌else◌, Bool-cases, inl, inr,
}
use lore_x.Prelude.Int.{ℤ, pos, leb_ℤ}
use lore_x.Result.{Result, ok, err, value_error, ◌>>=◌}
use lore_x.Text.{Text, is_empty}
use lore_x.Services.Search.{BookSearchRequest, SearchCandidate, expand_queries}
use lore_x.Services.Search.Score.{Ratio, ScoredCandidate}
use lore_x.Services.Search.Execute.{
  OnDemandSearchResult, is_visible, reaches, sort_scored, ranked, search_queries,
  execute_on_demand_search, dedupe_candidates, dedupe_from, values_of,
}

-- What the provider answers to some queries, in their order.
abbrev pub gathered : (Text → List SearchCandidate) → List Text → List SearchCandidate
gathered provider [] = []
gathered provider (q ∷ qs) = provider q ++ gathered provider qs

guarded_returned :
    (b : Bool) (e : Result (List Text)) (f : List Text → OnDemandSearchResult)
    {r : OnDemandSearchResult}
    → (if b
        then (e >>= λ q. ok (f q))
        else err (value_error "stop_score must be between 0 and 100"))
      ≡ ok r
    → (q : List Text) × (b ≡ true) × (e ≡ ok q)
guarded_returned true (ok q) f returned = (q, refl, refl)
guarded_returned true (err e) f returned = cc
guarded_returned false e f returned = cc

module _ (ratio : Text → Text → Ratio) (request : BookSearchRequest)
    (provider : Text → List SearchCandidate) (stop_score : ℤ) where
  -- Before each of the queries, the best score is still below the stop score.
  abbrev pub is_quiet : List SearchCandidate → List Text → Bool
  is_quiet found [] = true
  is_quiet found (q ∷ qs) =
      not (reaches stop_score (ranked ratio request found)) && is_quiet (found ++ provider q) qs

  -- From what was found, the queries `all_queries` end in this state, after `executed`.
  abbrev pub IsRun : List SearchCandidate → List Text → List Text → OnDemandSearchResult → Type 0
  IsRun found all_queries executed r =
      (rest : List Text) × (all_queries ≡ executed ++ rest)
      × (r.stopped_early || is_empty rest ≡ true)
      × (is_quiet found executed ≡ true)
      × (r.stopped_early
          ≡ reaches stop_score (ranked ratio request (found ++ gathered provider executed)))
      × (r.results ≡ keep is_visible (ranked ratio request (found ++ gathered provider executed)))

  shown_lem :
      (found : List SearchCandidate)
      → (if is_empty found then [] else keep is_visible (ranked ratio request found))
        ≡ keep is_visible (ranked ratio request found)
  unfolding ranked dedupe_candidates dedupe_from values_of sort_scored
  shown_lem [] = refl
  shown_lem (c ∷ cs) = refl

  search_end :
      (executed : List Text) (found : List SearchCandidate)
      → search_queries ratio request provider stop_score [] executed found
          (ranked ratio request found)
        ≡ record {
          queries = executed;
          results = keep is_visible (ranked ratio request found);
          stopped_early = false;
        }
  unfolding search_queries
  search_end executed found = rw (shown_lem found) refl

  search_more :
      (q : Text) (qs executed : List Text) (found : List SearchCandidate)
      (scored : List ScoredCandidate)
      → search_queries ratio request provider stop_score (q ∷ qs) executed found scored ≡ (
          if reaches stop_score (ranked ratio request (found ++ provider q))
          then record {
            queries = executed ++ q ∷ [];
            results = keep is_visible (ranked ratio request (found ++ provider q));
            stopped_early = true;
          }
          else search_queries ratio request provider stop_score qs
              (executed ++ q ∷ [])
              (found ++ provider q)
              (ranked ratio request (found ++ provider q)))
  unfolding search_queries
  search_more q qs executed found scored = rw (shown_lem (found ++ provider q)) refl

  abbrev pub Ran : List SearchCandidate → List Text → List Text → OnDemandSearchResult → Type 0
  Ran found qs executed r =
      (more : List Text) × (r.queries ≡ executed ++ more) × IsRun found qs more r

  -- A run goes on from a query that has not reached the stop score.
  Ran-more :
      (q : Text) (qs executed : List Text) (found : List SearchCandidate) (r : OnDemandSearchResult)
      → reaches stop_score (ranked ratio request found) ≡ false
      → Ran (found ++ provider q) qs (executed ++ q ∷ []) r
      → Ran found (q ∷ qs) executed r
  Ran-more q qs executed found r low (more, same, (rest, split, ends, quiet, stopped, results)) = (
    q ∷ more,
    same ∙ append_assoc executed (q ∷ []) more,
    (
      rest,
      ap (λ l. q ∷ l) split,
      ends,
      rw low quiet,
      stopped
          ∙ ap (λ l. reaches stop_score (ranked ratio request l))
              (append_assoc found (provider q) (gathered provider more)),
      results
          ∙ ap (λ l. keep is_visible (ranked ratio request l))
              (append_assoc found (provider q) (gathered provider more)),
    ),
  )

  Ran-stop :
      (b : Bool) (qs executed : List Text) (found : List SearchCandidate)
      → reaches stop_score (ranked ratio request found) ≡ b
      → b || is_empty qs ≡ true
      → Ran found qs executed (record {
        queries = executed;
        results = keep is_visible (ranked ratio request found);
        stopped_early = b;
      })
  Ran-stop b qs executed found same ends = (
    [],
    sym (append-nil executed),
    (qs, refl, ends, refl, rw (append-nil found) (sym same), rw (append-nil found) refl),
  )

  pub search_queries-Ran :
      (qs executed : List Text) (found : List SearchCandidate)
      → reaches stop_score (ranked ratio request found) ≡ false
      → Ran found qs executed (
          search_queries ratio request provider stop_score qs executed found
            (ranked ratio request found))
  search_queries-Ran [] executed found low =
      rw (search_end executed found) (Ran-stop false [] executed found low refl)
  search_queries-Ran (q ∷ qs) executed found low =
      elim (Bool-cases (reaches stop_score (ranked ratio request (found ++ provider q)))) [
        | inl high ↦
            rw (search_more q qs executed found (ranked ratio request found), high)
              (Ran-more q qs executed found _ low
                (Ran-stop true qs (executed ++ q ∷ []) (found ++ provider q) high refl))
        | inr still ↦
            rw (search_more q qs executed found (ranked ratio request found), still)
              (Ran-more q qs executed found _ low
                (search_queries-Ran qs (executed ++ q ∷ []) (found ++ provider q) still))
      ]

  pub execute_returned :
      (r : OnDemandSearchResult)
      → execute_on_demand_search ratio request provider stop_score ≡ ok r
      → (queries : List Text) × (leb_ℤ (pos 0) stop_score && leb_ℤ stop_score (pos 100) ≡ true)
        × (expand_queries request ≡ ok queries)
  unfolding execute_on_demand_search
  execute_returned r returned = guarded_returned _ (expand_queries request) _ returned
