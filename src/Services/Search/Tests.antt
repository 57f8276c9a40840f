-- ===== src/Services/Search/Tests.antt =====
-- On-demand searches for one book (services/on_demand_search.py).
use lore_x.Prelude.{
  ℕ, ◌≤◌, ◌≡◌, refl, ◌≢◌, true, none, some, List, [], ◌∷◌, arith, length, list_eq, pair_eq, nat_eq,
  if◌then◌else◌, ◌=?◌,
}
use lore_x.Prelude.Int.{pos}
use lore_x.Result.{ok}
use lore_x.Text.{Text, codes, text_functions}
use lore_x.Text.Number.{words}
use lore_x.Domain.{join}
use lore_x.Services.Search.{BookSearchRequest, SearchCandidate, squeezed, expand_queries}
use lore_x.Services.Search.Score.{Ratio, likely, audio_evidence, score_candidate}
use lore_x.Services.Search.Execute.{OnDemandSearchResult}
use lore_x.Services.Search.Bounds.{score_candidate-no_audio}
use lore_x.Services.Search.Queries.{IsQueries, expand_queries-IsQueries}

-- Texts that are neither equal nor parts of one another have nothing in common.
abbrev no_ratio : Text → Text → Ratio
no_ratio a b = record { num = 0; den = 1 }

abbrev request : BookSearchRequest
request = record {
  title = codes "Dune Messiah";
  author = some (codes "Frank Herbert");
  narrator = none;
  series = some (codes "Dune");
  series_number = some (codes "2");
  isbn = none;
  asin = none;
}

abbrev offer : Text → Text → ℕ → List Text → SearchCandidate
offer id subject completion files = record {
  id = id;
  title = codes "Dune Messiah";
  author = some (codes "Frank Herbert");
  narrator = none;
  format = codes "m4b";
  size = pos 100;
  completion = completion;
  source_subject = subject;
  files = files;
}

abbrev whole : SearchCandidate
whole = offer (codes "a") (codes "Dune Messiah m4b") 1000 []

abbrev part_of_it : SearchCandidate
part_of_it = offer (codes "b") (codes "Dune Messiah m4b") 700 []

abbrev video : SearchCandidate
video = record (offer (codes "c") (codes "Dune Messiah 1080p") 1000 (codes "dune.mkv" ∷ [])) {
  format = codes "mkv";
}

abbrev text_only : SearchCandidate
text_only = record whole { format = codes "epub"; source_subject = codes "Dune Messiah" }

abbrev provider : Text → List SearchCandidate
provider query = if query =? codes "Dune Messiah" then part_of_it ∷ video ∷ [] else whole ∷ []

abbrev queries : List Text
queries =
    codes "Dune Messiah"
    ∷ codes "Dune Messiah Frank Herbert"
    ∷ codes "Frank Herbert Dune Messiah"
    ∷ codes "Dune.Messiah"
    ∷ codes "Dune_Messiah"
    ∷ codes "Dune Messiah audiobook"
    ∷ codes "Dune Messiah m4b"
    ∷ codes "Dune Messiah mp3"
    ∷ codes "Dune Dune Messiah"
    ∷ codes "Dune 2 Dune Messiah"
    ∷ []

abbrev found : OnDemandSearchResult
unfolding score_candidate text_functions
found = record {
  queries = codes "Dune Messiah" ∷ codes "Dune Messiah Frank Herbert" ∷ [];
  results = score_candidate no_ratio request whole ∷ [];
  stopped_early = true;
}

score_candidate-no_audio_example : (score_candidate no_ratio request text_only).bucket ≢ likely
unfolding audio_evidence text_functions
score_candidate-no_audio_example =
    score_candidate-no_audio no_ratio (λ a b. (omega arith, omega arith)) request text_only refl

expand_queries-IsQueries_example :
    (qs : List Text) × (expand_queries request ≡ ok qs) × (length qs ≤ 30) × IsQueries qs
unfolding squeezed text_functions join words
expand_queries-IsQueries_example = expand_queries-IsQueries request refl
