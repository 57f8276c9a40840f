-- ===== src/Services/Search/Queries.antt =====
-- The queries of a request (services/on_demand_search.py).
use lore_x.Prelude.{
  ℕ, zero, suc, ◌≤◌, ◌≡◌, refl, Bool, false, ◌||◌, List, [], ◌∷◌, ◌++◌, any, take, length,
  length-take, arith, ◌=?◌, =?-comm, nat_eq, list_eq, Bool-cases, inl, inr,
}
use lore_x.Result.{ok}
use lore_x.Text.{Text, is_empty}
use lore_x.Services.Search.{
  BookSearchRequest, squeezed, add_query, add_queries, query_values, expand_queries,
}

-- No query stands twice in the list, and none is empty.
abbrev pub IsQueries : List Text → Type 0
IsQueries [] = Unit
IsQueries (q ∷ qs) = (any (λ p. p =? q) qs ≡ false) × (is_empty q ≡ false) × IsQueries qs

or_false : (a b : Bool) → a || b ≡ false → (a ≡ false) × (b ≡ false)
or_false a b h = ground arith

any_none-append :
    (v q : Text) (qs : List Text)
    → any (λ p. p =? q) qs ≡ false
    → (q =? v) ≡ false
    → any (λ p. p =? q) (qs ++ v ∷ []) ≡ false
any_none-append v q [] h k = rw (=?-comm v q, k) refl
any_none-append v q (p ∷ qs) h k = ground (arith, any_none-append v q qs)

IsQueries-append :
    (v : Text) (qs : List Text)
    → any (λ p. p =? v) qs ≡ false
    → is_empty v ≡ false
    → IsQueries qs
    → IsQueries (qs ++ v ∷ [])
IsQueries-append v [] h e d = (refl, e, tt)
IsQueries-append v (q ∷ qs) h e d =
    let (other, fresh) = or_false (q =? v) (any (λ p. p =? v) qs) h in
    (any_none-append v q qs d.0 other, d.1, IsQueries-append v qs fresh e d.2)

add_query-IsQueries :
    (value : Text) (qs : List Text) → IsQueries qs → IsQueries (add_query value qs)
unfolding add_query
add_query-IsQueries value qs d =
    elim (Bool-cases
      (is_empty value || is_empty (squeezed value) || any (λ q. q =? squeezed value) qs)) [
        | inl there ↦ rw there d
        | inr fresh ↦ rw fresh (
            let (blank, new) = or_false (is_empty value || is_empty (squeezed value)) _ fresh in
            IsQueries-append (squeezed value) qs new (or_false (is_empty value) _ blank).1 d)
      ]

add_queries-IsQueries : (values qs : List Text) → IsQueries qs → IsQueries (add_queries values qs)
unfolding add_queries
add_queries-IsQueries [] qs d = d
add_queries-IsQueries (v ∷ vs) qs d =
    add_queries-IsQueries vs (add_query v qs) (add_query-IsQueries v qs d)

any_none-take :
    (n : ℕ) (q : Text) (qs : List Text)
    → any (λ p. p =? q) qs ≡ false
    → any (λ p. p =? q) (take n qs) ≡ false
any_none-take zero q qs h = refl
any_none-take (suc n) q [] h = refl
any_none-take (suc n) q (p ∷ qs) h = ground (arith, any_none-take n q qs)

IsQueries-take : (n : ℕ) (qs : List Text) → IsQueries qs → IsQueries (take n qs)
IsQueries-take zero qs d = tt
IsQueries-take (suc n) [] d = tt
IsQueries-take (suc n) (q ∷ qs) (a, e, d) = (any_none-take n q qs a, e, IsQueries-take n qs d)

-- Where the request has a title, the queries are at most thirty, all different, and
-- none is empty.
pub expand_queries-IsQueries :
    (r : BookSearchRequest)
    → is_empty (squeezed r.title) ≡ false
    → (queries : List Text) × (expand_queries r ≡ ok queries)
      × (length queries ≤ 30)
      × IsQueries queries
unfolding expand_queries
expand_queries-IsQueries r titled =
    let all_queries = add_queries (query_values r) [] in
    (
      take 30 all_queries,
      rw titled refl,
      omega (arith, length-take 30 all_queries),
      IsQueries-take 30 all_queries (add_queries-IsQueries (query_values r) [] tt),
    )
