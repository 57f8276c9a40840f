-- ===== src/Services/Search/Ranking.antt =====
-- The order of the results of an on-demand search (services/on_demand_search.py).
use lore_x.Prelude.{◌≡◌, ◌≢◌, true, List, [], ◌∷◌, All}
use lore_x.Prelude.Int.{pos, ◌≤ℤ◌}
use lore_x.Result.{Result}
use lore_x.Text.{Text}
use lore_x.Services.Search.{BookSearchRequest}
use lore_x.Services.Search.Score.{Ratio, ScoredCandidate, hidden, bucket_of}
use lore_x.Services.Search.Execute.{comes_first}

-- Every candidate comes before all those after it: it has a better score, or the same with more of
-- it there, or the same twice and is at least as large.
abbrev pub Descends : List ScoredCandidate → Type 0
Descends [] = Unit
Descends (a ∷ bs) = All (λ b. comes_first a b ≡ true) bs × Descends bs

-- A candidate of the results: not hidden, with a score from 60 to 100.
abbrev pub IsMatch : ScoredCandidate → Type 0
IsMatch s = (s.bucket ≢ hidden) × (pos 60 ≤ℤ s.score) × (s.score ≤ℤ pos 100)

module _ (ratio : Text → Text → Ratio) (request : BookSearchRequest) where
  -- A scored candidate is within the scale, and in the bucket of its score.
  abbrev IsScored : ScoredCandidate → Type 0
  IsScored s = (s.bucket ≡ bucket_of s.score) × (s.score ≤ℤ pos 100)
