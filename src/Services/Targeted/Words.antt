-- ===== src/Services/Targeted/Words.antt =====
-- Which subjects match a request (services/targeted_nntp_search.py).
use lore_x.Prelude.{
  ℕ, ◌+◌, ◌≡◌, Bool, false, not, List, [], ◌∷◌, keep, length, leb, arith, if◌then◌else◌,
}
use lore_x.Text.{Text, is_empty}
use lore_x.Services.Search.{BookSearchRequest, tokens}
use lore_x.Services.Targeted.{is_one_of, required_words, minimum_words, subject_matches_request}

keep-complement :
    (p : Text → Bool) (xs : List Text)
    → length (keep p xs) + length (keep (λ x. not (p x)) xs) ≡ length xs
keep-complement p [] = omega arith
keep-complement p (x ∷ xs) = ground (arith, keep-complement p xs)

minimum_words_lem :
    (n a b : ℕ) → a + b ≡ n → leb (minimum_words n) a ≡ leb b (if leb n 2 then 0 else 1)
minimum_words_lem n a b h = ground arith

-- A subject matches a title with words exactly when few enough of the title's required words are
-- missing from it: none, if there are at most two, and else at most one.
pub subject_matches_request_lem :
    (subject : Text) (request : BookSearchRequest)
    → is_empty (tokens request.title) ≡ false
    → subject_matches_request subject request
      ≡ leb
          (length (keep (λ w. not (is_one_of (tokens subject) w)) (required_words request.title)))
          (if leb (length (required_words request.title)) 2 then 0 else 1)
unfolding subject_matches_request
subject_matches_request_lem subject request titled =
    let required = required_words request.title in
    rw titled (
      minimum_words_lem (length required) (length (keep (is_one_of (tokens subject)) required)) _
        (keep-complement (is_one_of (tokens subject)) required))
