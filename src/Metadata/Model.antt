-- ===== src/Metadata/Model.antt =====
-- backend/lorex/metadata/model.py and metadata/metrics.py.
use lore_x.Prelude.{
  ℕ, suc, ◌-◌, Bool, not, ◌||◌, ◌&&◌, Option, none, some, List, [], ◌∷◌, ◌++◌, keep, map,
  if◌then◌else◌, ◌==◌, nat_eq, list_eq,
}
use lore_x.Result.{Result, ok, err, value_error}
use lore_x.Text.{Text, codes, in_range, is_empty, is_space, strip, casefold}
use lore_x.Text.Number.{words}
use lore_x.Dict.{Dict, get, put}
use lore_x.Domain.{join}
use lore_x.Services.Search.{or_empty}

-- `str.upper` of one character
unfoldable pub upper_char : ℕ → Text
upper_char c =
    if in_range 97 122 c || (in_range 224 254 c && not (c == 247))
    then (c - 32) ∷ []
    else if c == 223
    then 83 ∷ 83 ∷ []
    else if c == 255
    then 376 ∷ []
    else if c == 181
    then 924 ∷ []
    else c ∷ []

unfoldable pub upper : Text → Text
unfolding upper_char
upper [] = []
upper (c ∷ s) = upper_char c ++ upper s

unfoldable pub normalize_text : Text → Text
unfolding upper
normalize_text value = casefold (join (codes " ") (words is_space (strip value)))

abbrev pub is_isbn_char : ℕ → Bool
is_isbn_char c = in_range 48 57 c || (c == 88) || (c == 120)

unfoldable pub normalize_isbn : Text → Text
unfolding upper
normalize_isbn value = upper (keep is_isbn_char value)

pub record MetadataLookup : Type 0 where
  pub title : Option Text
  pub authors : List Text
  pub isbn10 : Option Text
  pub isbn13 : Option Text
  pub asin : Option Text

-- The confidence is a share in thousandths.
pub record BookMetadata : Type 0 where
  pub title : Text
  pub authors : List Text
  pub source : Text
  pub provider_id : Option Text
  pub subtitle : Option Text
  pub description : Option Text
  pub published_date : Option Text
  pub isbn10 : Option Text
  pub isbn13 : Option Text
  pub asin : Option Text
  pub artwork_url : Option Text
  pub confidence : ℕ

pub data Status : Type 0 where
  found not_found : Status

pub record ProviderOutcome : Type 0 where
  pub status : Status
  pub metadata : Option BookMetadata

abbrev pub normalized_authors : List Text → List Text
normalized_authors authors = keep (λ a. not (is_empty a)) (map normalize_text authors)

unfoldable pub normalize_lookup_key : MetadataLookup → Result Text
unfolding normalize_text normalize_isbn upper
normalize_lookup_key lookup =
    let isbn13 = normalize_isbn (or_empty lookup.isbn13) in
    let isbn10 = normalize_isbn (or_empty lookup.isbn10) in
    let asin = upper (strip (or_empty lookup.asin)) in
    let title = normalize_text (or_empty lookup.title) in
    let authors = normalized_authors lookup.authors in
    if not (is_empty isbn13)
    then ok (codes "lorex:metadata:v1:isbn13:" ++ isbn13)
    else if not (is_empty isbn10)
    then ok (codes "lorex:metadata:v1:isbn10:" ++ isbn10)
    else if not (is_empty asin)
    then ok (codes "lorex:metadata:v1:asin:" ++ asin)
    else if not (is_empty title) && not (is_empty authors)
    then ok (
        codes "lorex:metadata:v1:title-author:"
        ++ (title ++ (codes "|" ++ join (codes "|") authors)))
    else err (value_error "metadata lookup requires an identifier or title and author")

-- The counters by name, and those that are kept for each provider.
pub record MetadataMetrics : Type 0 where
  pub counters : Dict Text ℕ
  pub providers : Dict Text (Dict Text ℕ)

abbrev pub no_metrics : MetadataMetrics
no_metrics = record {
  counters = [];
  providers =
      (codes "upstream_requests", [])
      ∷ (codes "provider_retries", [])
      ∷ (codes "provider_failures", [])
      ∷ [];
}

-- `counter[name] += 1`
abbrev pub count_one : Text → Dict Text ℕ → Dict Text ℕ
count_one name d = put name (elim (get name d) [ none ↦ 1 | some n ↦ suc n ]) d

unfoldable pub increment : Text → MetadataMetrics → MetadataMetrics
increment name m = record m { counters = count_one name m.counters }

unfoldable pub increment_provider : Text → Text → MetadataMetrics → MetadataMetrics
increment_provider name provider m = record m {
  providers =
      put name (count_one provider (elim (get name m.providers) [ none ↦ [] | some d ↦ d ]))
        m.providers;
}

abbrev pub count_of : Text → Dict Text ℕ → ℕ
count_of name d = elim (get name d) [ none ↦ 0 | some n ↦ n ]

-- The names that a snapshot always has.
abbrev pub snapshot_names : List Text
snapshot_names =
    codes "cache_hits"
    ∷ codes "cache_misses"
    ∷ codes "negative_cache_hits"
    ∷ codes "coalesced_followers"
    ∷ codes "local_fallbacks"
    ∷ codes "artwork_scheduled"
    ∷ codes "artwork_deduplicated"
    ∷ codes "artwork_dropped"
    ∷ []

-- `result.setdefault(name, 0)` for each name
unfoldable pub with_defaults : List Text → Dict Text ℕ → Dict Text ℕ
with_defaults [] d = d
with_defaults (n ∷ ns) d = with_defaults ns (elim (get n d) [ none ↦ put n 0 d | some v ↦ d ])

-- The counters of a snapshot; its other entries are the providers' own.
unfoldable pub snapshot : MetadataMetrics → Dict Text ℕ × Dict Text (Dict Text ℕ)
unfolding with_defaults
snapshot m = (with_defaults snapshot_names m.counters, m.providers)
