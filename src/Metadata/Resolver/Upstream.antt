-- ===== src/Metadata/Resolver/Upstream.antt =====
-- The lookup at the providers (metadata/resolver.py).
use lore_x.Prelude.{
  ◌≡◌, refl, Bool, true, false, ◌||◌, Option, none, some, Option-cases, List, [], ◌∷◌, arith, inl,
  inr,
}
use lore_x.Result.{Result, ok, err}
use lore_x.Text.{Text, codes}
use lore_x.Metadata.Model.{MetadataLookup, BookMetadata, ProviderOutcome, Status}
use lore_x.Metadata.Cache as Cache
use lore_x.Metadata.Cache.{InMemoryMetadataCache}
use lore_x.Metadata.Resolver.{
  MetadataCache, MetadataProvider, Collaborators, MetadataResolver, or_local, count, count_provider,
  set_found, set_not_found, schedule_artwork, lookup_failed, lookup_from, lookup_providers,
}

abbrev pub answer_metadata : Result ProviderOutcome → Option BookMetadata
answer_metadata (err e) = none
answer_metadata (ok outcome) = elim outcome.status [
  | Status.found ↦ outcome.metadata
  | Status.not_found ↦ none
]

-- The metadata of the first provider that has some.
abbrev pub first_found : MetadataLookup → List MetadataProvider → Option BookMetadata
first_found lookup [] = none
first_found lookup (p ∷ ps) = elim (answer_metadata (p.lookup lookup)) [
  | none ↦ first_found lookup ps
  | some m ↦ some m
]

abbrev pub raises : Result ProviderOutcome → Bool
raises (err e) = true
raises (ok outcome) = false

abbrev pub any_raises : MetadataLookup → List MetadataProvider → Bool
any_raises lookup [] = false
any_raises lookup (p ∷ ps) = raises (p.lookup lookup) || any_raises lookup ps

-- What is written under the key: a find, or that there is none if every provider has answered.
abbrev pub written :
    {C : Type 0}
    → (Text → BookMetadata → C → C)
    → (Text → C → C)
    → Text
    → Option BookMetadata
    → Bool
    → C
    → C
written set_it set_none key (some m) saw_error c = set_it key m c
written set_it set_none key none true c = c
written set_it set_none key none false c = set_none key c

or_false : (b : Bool) → b || false ≡ b
or_false true = refl
or_false false = refl

or_true : (b : Bool) → b || true ≡ true
or_true true = refl
or_true false = refl

-- The answer, and the caches that are left, when `o` has been found from `s` on.
abbrev pub IsAnswer :
    {C : Type 0}
    → MetadataCache C
    → Text
    → Option BookMetadata
    → Option BookMetadata
    → Bool
    → MetadataResolver C
    → (MetadataResolver C × Option BookMetadata)
    → Type 0
IsAnswer ops key local_metadata o saw_error s r =
    (r.1 ≡ or_local o local_metadata)
    × (r.0.fallback_cache
        ≡ written (λ k m c. Cache.set_found k m s.now c) (λ k c. Cache.set_not_found k s.now c) key
            o saw_error s.fallback_cache)
    × (r.0.cache
        ≡ written (λ k m c. (ops.set_found k m s.now c).0) (λ k c. (ops.set_not_found k s.now c).0)
            key o saw_error s.cache)
    × (r.0.now ≡ s.now)

module _ {C : Type 0} (ops : MetadataCache C) (with_them : Collaborators) (key : Text) where
  schedule_artwork-same :
      (m : BookMetadata) (s : MetadataResolver C)
      → ((schedule_artwork ops with_them key m s).fallback_cache ≡ s.fallback_cache)
        × ((schedule_artwork ops with_them key m s).cache ≡ s.cache)
        × ((schedule_artwork ops with_them key m s).now ≡ s.now)
  unfolding schedule_artwork count
  schedule_artwork-same m s = ground arith

  lookup_failed-IsAnswer :
      (l : Option BookMetadata) (saw_error : Bool) (s : MetadataResolver C)
      → IsAnswer ops key l none saw_error s (lookup_failed ops with_them key l saw_error s)
  unfolding lookup_failed set_not_found count
  lookup_failed-IsAnswer none true s = (refl, refl, refl, refl)
  lookup_failed-IsAnswer none false s = (refl, refl, refl, refl)
  lookup_failed-IsAnswer (some m) true s = (refl, refl, refl, refl)
  lookup_failed-IsAnswer (some m) false s = (refl, refl, refl, refl)

  module _ (lookup : MetadataLookup) (l : Option BookMetadata) where
    lookup_step :
        (p : MetadataProvider) (ps : List MetadataProvider) (saw_error : Bool)
        (s : MetadataResolver C) (answer : Result ProviderOutcome)
        → p.lookup lookup ≡ answer
        → ((saw : Bool) (t : MetadataResolver C)
            → IsAnswer ops key l
                (first_found lookup ps)
                (saw || any_raises lookup ps)
                t
                (lookup_from ops with_them key lookup l ps saw t))
        → IsAnswer ops key l
            (first_found lookup (p ∷ ps))
            (saw_error || any_raises lookup (p ∷ ps))
            s
            (lookup_from ops with_them key lookup l (p ∷ ps) saw_error s)
    unfolding lookup_from count_provider set_found
    lookup_step p ps saw_error s (err e) same later =
        rw (same, or_true saw_error, lookup_from, first_found, any_raises)
          (later true (
            count_provider (codes "provider_failures") p.name
              (count_provider (codes "upstream_requests") p.name s)))
    lookup_step p ps saw_error s (ok outcome) same later =
        elim (Option-cases (answer_metadata (ok outcome))) [
          | inl nothing ↦
              rw (same, nothing, lookup_from, first_found, any_raises)
                (later saw_error (count_provider (codes "upstream_requests") p.name s))
          | inr (m, there) ↦
              rw (same, there, lookup_from, first_found, any_raises)
                (let art =
                    schedule_artwork-same m
                      (set_found ops key m (count_provider (codes "upstream_requests") p.name s)) in
                  (refl, art.0, art.1, art.2))
        ]

    lookup_from-IsAnswer :
        (ps : List MetadataProvider) (saw_error : Bool) (s : MetadataResolver C)
        → IsAnswer ops key l
            (first_found lookup ps)
            (saw_error || any_raises lookup ps)
            s
            (lookup_from ops with_them key lookup l ps saw_error s)
    unfolding lookup_from
    lookup_from-IsAnswer [] saw_error s =
        rw (or_false saw_error) (lookup_failed-IsAnswer l saw_error s)
    lookup_from-IsAnswer (p ∷ ps) saw_error s =
        lookup_step p ps saw_error s _ refl (lookup_from-IsAnswer ps)

-- A lookup asks the providers in their order, until one has the book. Its answer is that provider's,
-- and else the local metadata. A find is written to both caches. That there is none is written to
-- both only where every provider has answered; after an exception the caches stay as they were.
pub lookup_providers-IsAnswer :
    {C : Type 0} (ops : MetadataCache C) (with_them : Collaborators) (key : Text)
    (lookup : MetadataLookup) (l : Option BookMetadata) (s : MetadataResolver C)
    → IsAnswer ops key l
        (first_found lookup with_them.providers)
        (any_raises lookup with_them.providers)
        s
        (lookup_providers ops with_them key lookup l s)
unfolding lookup_providers
lookup_providers-IsAnswer ops with_them key lookup l s =
    lookup_from-IsAnswer ops with_them key lookup l with_them.providers false s
