-- ===== src/Services/Search/Duplicates.antt =====
-- Which candidates of an on-demand search stay (services/on_demand_search.py).
use lore_x.Prelude.{◌≡◌, false, some, nat_eq, list_eq, pair_eq}
use lore_x.Dict.{Dict, get}
use lore_x.Services.Search.{SearchCandidate}
use lore_x.Services.Search.Execute.{Key, candidate_key, is_better}

abbrev pub Best : Type 0
Best = Dict Key SearchCandidate

-- Under the key of a candidate stands one that it does not beat.
abbrev pub IsRepresented : Best → SearchCandidate → Type 0
IsRepresented best c =
    (b : SearchCandidate) × (get {K = Key} (candidate_key c) best ≡ some b)
    × (is_better c b ≡ false)

-- A candidate stands under its key.
abbrev pub IsEntry {ℓ} : (SearchCandidate → Type ℓ) → Key → SearchCandidate → Type ℓ
IsEntry P k c = (k ≡ candidate_key c) × P c
