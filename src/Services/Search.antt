-- ===== src/Services/Search.antt =====
-- backend/lorex/services/on_demand_search.py: requests, candidates, and the queries of a request.
pub mod Score
pub mod Execute
pub mod Queries
pub mod Bounds
pub mod Results
pub mod Ranking
pub mod Duplicates
mod Tests
use lore_x.Prelude.{
  ℕ, suc, ◌+◌, Bool, true, false, not, ◌||◌, ◌&&◌, Option, none, some, List, [], ◌∷◌, ◌++◌, any,
  take, ◌==◌, if◌then◌else◌, ◌=?◌, nat_eq, list_eq,
}
use lore_x.Prelude.Int.{ℤ}
use lore_x.Result.{Result, ok, err, value_error}
use lore_x.Text.{Text, codes, is_empty, is_space, strip, casefold, in_range}
use lore_x.Text.Number.{words}
use lore_x.Domain.{join}

-- The number of a series is the text that it is formatted to.
pub record BookSearchRequest : Type 0 where
  pub title : Text
  pub author : Option Text
  pub narrator : Option Text
  pub series : Option Text
  pub series_number : Option Text
  pub isbn : Option Text
  pub asin : Option Text

-- The completion is a share in thousandths.
pub record SearchCandidate : Type 0 where
  pub id : Text
  pub title : Text
  pub author : Option Text
  pub narrator : Option Text
  pub format : Text
  pub size : ℤ
  pub completion : ℕ
  pub source_subject : Text
  pub files : List Text

-- `value or ""`
abbrev pub or_empty : Option Text → Text
or_empty none = []
or_empty (some s) = s

-- `[a-z0-9]`
unfoldable pub is_token_char : ℕ → Bool
is_token_char c = in_range 97 122 c || in_range 48 57 c

-- `re.findall(r"[a-z0-9]+", value.casefold())`
unfoldable pub tokens : Text → List Text
unfolding is_token_char
tokens value = words (λ c. not (is_token_char c)) (casefold value)

-- `_clean`
unfoldable pub clean : Option Text → Text
unfolding tokens
clean value = join (codes " ") (tokens (or_empty value))

-- `" ".join(value.split()).strip()`
unfoldable pub squeezed : Text → Text
squeezed value = strip (join (codes " ") (words is_space value))

-- `value.replace(" ", …)`
unfoldable pub replace_space : ℕ → Text → Text
replace_space c [] = []
replace_space c (d ∷ s) = (if d == 32 then c else d) ∷ replace_space c s

-- `add`, of `expand_queries`
unfoldable pub add_query : Text → List Text → List Text
unfolding squeezed
add_query value queries =
    let clean_value = squeezed value in
    if is_empty value || is_empty clean_value || any (λ q. q =? clean_value) queries
    then queries
    else queries ++ clean_value ∷ []

unfoldable pub add_queries : List Text → List Text → List Text
unfolding add_query
add_queries [] queries = queries
add_queries (v ∷ vs) queries = add_queries vs (add_query v queries)

abbrev pub spaced : Text → Text → Text
spaced a b = a ++ (codes " " ++ b)

abbrev pub if_some : Text → List Text → List Text
if_some s values = if is_empty s then [] else values

abbrev pub number_query : Option Text → Text → Text → List Text
number_query none series title = []
number_query (some number) series title = spaced series (spaced number title) ∷ []

-- What `expand_queries` adds, in its order.
unfoldable pub query_values : BookSearchRequest → List Text
unfolding squeezed replace_space
query_values request =
    let title = squeezed request.title in
    let author = squeezed (or_empty request.author) in
    let narrator = squeezed (or_empty request.narrator) in
    let series = squeezed (or_empty request.series) in
    title
    ∷ (if_some author (spaced title author ∷ spaced author title ∷ [])
        ++ (replace_space 46 title
            ∷ replace_space 95 title
            ∷ spaced title (codes "audiobook")
            ∷ spaced title (codes "m4b")
            ∷ spaced title (codes "mp3")
            ∷ (if_some narrator (spaced title narrator ∷ [])
                ++ (if_some series
                      (spaced series title ∷ number_query request.series_number series title)
                    ++ (or_empty request.isbn ∷ or_empty request.asin ∷ [])))))

unfoldable pub expand_queries : BookSearchRequest → Result (List Text)
unfolding squeezed query_values add_queries
expand_queries request =
    if is_empty (squeezed request.title)
    then err (value_error "book title is required")
    else ok (take 30 (add_queries (query_values request) []))
