-- ===== src/Metadata/Resolver.antt =====
-- backend/lorex/metadata/resolver.py, as one worker runs it under the lock of its key. The shared cache
-- is an interface, since it may be in another process; what happens during a sleep, or until
-- the lock of the key is free, is a parameter. Times
-- are in milliseconds.
pub mod Upstream
pub mod Waiting
pub mod Again
mod Tests
use lore_x.Prelude.{
  ℕ, zero, suc, ◌+◌, Bool, true, false, ◌||◌, Option, none, some, List, [], ◌∷◌, ltb, leb,
  if◌then◌else◌,
}
use lore_x.Result.{Result, ok, err, value_error, ◌>>=◌}
use lore_x.Text.{Text, codes, is_empty}
use lore_x.Services.Search.{or_empty}
use lore_x.Metadata.Model.{
  MetadataLookup, BookMetadata, ProviderOutcome, Status, found, not_found, MetadataMetrics,
  increment, increment_provider, normalize_lookup_key, no_metrics,
}
use lore_x.Metadata.Cache as Cache
use lore_x.Metadata.Cache.{CacheEntry, InMemoryMetadataCache}

-- `MetadataCache`: an operation leaves a cache, and may raise.
pub record MetadataCache (C : Type 0) : Type 0 where
  pub get : Text → ℕ → C → C × Result (Option CacheEntry)
  pub set_found : Text → BookMetadata → ℕ → C → C × Result (Unit {0})
  pub set_not_found : Text → ℕ → C → C × Result (Unit {0})

pub record MetadataProvider : Type 0 where
  pub name : Text
  pub lookup : MetadataLookup → Result ProviderOutcome

-- The coordinator tells, at a time, whether it hands out a lease.
pub record Collaborators : Type 0 where
  pub providers : List MetadataProvider
  pub lease_coordinator : Option (Text → ℕ → Result Bool)
  pub artwork_scheduler : Option (Text → Text → Result Bool)
  pub follower_wait : ℕ
  pub poll_interval : ℕ

pub record MetadataResolver (C : Type 0) : Type 0 where
  pub cache : C
  pub fallback_cache : InMemoryMetadataCache
  pub metrics : MetadataMetrics
  pub now : ℕ

-- `local_metadata if result is None and local_metadata is not None else result`
abbrev pub or_local : Option BookMetadata → Option BookMetadata → Option BookMetadata
or_local (some m) local_metadata = some m
or_local none local_metadata = local_metadata

module _ {C : Type 0} where
  -- `__init__`
  unfoldable pub new_resolver : Collaborators → C → ℕ → Result (MetadataResolver C)
  new_resolver with_them cache now =
      if leb with_them.follower_wait 0 || leb with_them.poll_interval 0
      then err (value_error "follower wait and poll interval must be positive")
      else ok (record {
        cache = cache;
        fallback_cache = record { positive_ttl = 604800000; negative_ttl = 900000; items = [] };
        metrics = no_metrics;
        now = now;
      })

  unfoldable pub count : Text → MetadataResolver C → MetadataResolver C
  unfolding increment
  count name s = record s { metrics = increment name s.metrics }

  unfoldable pub count_provider : Text → Text → MetadataResolver C → MetadataResolver C
  unfolding increment_provider
  count_provider name provider s = record s { metrics = increment_provider name provider s.metrics }

module _ {C : Type 0} (ops : MetadataCache C) where
  abbrev pub entry_or_fallback :
      Text
      → MetadataResolver C
      → C
      → Result (Option CacheEntry)
      → MetadataResolver C × Option CacheEntry
  entry_or_fallback key s cache (ok entry) = (record s { cache = cache }, entry)
  entry_or_fallback key s cache (err e) =
      let (fallback, entry) = Cache.get key s.now s.fallback_cache in
      (record s { cache = cache; fallback_cache = fallback }, entry)

  unfoldable pub get_entry : Text → MetadataResolver C → MetadataResolver C × Option CacheEntry
  unfolding Cache.get
  get_entry key s =
      let (cache, answer) = ops.get key s.now s.cache in entry_or_fallback key s cache answer

  abbrev pub count_if : Bool → Text → MetadataResolver C → MetadataResolver C
  count_if b name s = if b then count name s else s

  -- `some` of the metadata, where there is an entry.
  abbrev pub read_entry :
      Bool
      → MetadataResolver C
      → Option CacheEntry
      → MetadataResolver C × Option (Option BookMetadata)
  read_entry count_miss s none = (count_if count_miss (codes "cache_misses") s, none)
  read_entry count_miss s (some entry) = elim entry.status [
    | not_found ↦ (count (codes "negative_cache_hits") s, some none)
    | found ↦ (count (codes "cache_hits") s, some entry.metadata)
  ]

  unfoldable pub read_cached :
      Text → Bool → MetadataResolver C → MetadataResolver C × Option (Option BookMetadata)
  unfolding get_entry count
  read_cached key count_miss s = let (s', entry) = get_entry key s in read_entry count_miss s' entry

  unfoldable pub set_found : Text → BookMetadata → MetadataResolver C → MetadataResolver C
  unfolding Cache.set_found
  set_found key metadata s = record s {
    fallback_cache = Cache.set_found key metadata s.now s.fallback_cache;
    cache = (ops.set_found key metadata s.now s.cache).0;
  }

  unfoldable pub set_not_found : Text → MetadataResolver C → MetadataResolver C
  unfolding Cache.set_not_found
  set_not_found key s = record s {
    fallback_cache = Cache.set_not_found key s.now s.fallback_cache;
    cache = (ops.set_not_found key s.now s.cache).0;
  }

  module _ (with_them : Collaborators) where
    abbrev pub scheduled : MetadataResolver C → Result Bool → MetadataResolver C
    scheduled s (ok accepted) = s
    scheduled s (err e) = count (codes "artwork_dropped") s

    unfoldable pub schedule_artwork : Text → BookMetadata → MetadataResolver C → MetadataResolver C
    unfolding count
    schedule_artwork key metadata s = elim with_them.artwork_scheduler [
      | none ↦ s
      | some submit ↦
          if is_empty (or_empty metadata.artwork_url)
          then s
          else scheduled s (submit key (or_empty metadata.artwork_url))
    ]

    -- What `lookup_providers` does once no provider has found the book.
    unfoldable pub lookup_failed :
        Text
        → Option BookMetadata
        → Bool
        → MetadataResolver C
        → MetadataResolver C × Option BookMetadata
    unfolding set_not_found count
    lookup_failed key local_metadata saw_error s =
        let s' = if saw_error then s else set_not_found key s in
        elim local_metadata [
          | none ↦ (s', none)
          | some m ↦ (count (codes "local_fallbacks") s', some m)
        ]

    -- The metadata that counts as found.
    abbrev pub found_metadata : ProviderOutcome → Option BookMetadata
    found_metadata outcome = elim outcome.status [ found ↦ outcome.metadata | not_found ↦ none ]

    unfoldable pub lookup_from :
        Text
        → MetadataLookup
        → Option BookMetadata
        → List MetadataProvider
        → Bool
        → MetadataResolver C
        → MetadataResolver C × Option BookMetadata
    unfolding lookup_failed set_found schedule_artwork count_provider
    lookup_from key lookup local_metadata [] saw_error s =
        lookup_failed key local_metadata saw_error s
    lookup_from key lookup local_metadata (p ∷ ps) saw_error s =
        let asked = count_provider (codes "upstream_requests") p.name s in
        elim (p.lookup lookup) [
          | err e ↦
              lookup_from key lookup local_metadata ps true
                (count_provider (codes "provider_failures") p.name asked)
          | ok outcome ↦ elim (found_metadata outcome) [
            | none ↦ lookup_from key lookup local_metadata ps saw_error asked
            | some m ↦ (schedule_artwork key m (set_found key m asked), some m)
          ]
        ]

    -- `_lookup_providers`, and `_leader_lookup`: the release of the lease leaves the state as it is.
    unfoldable pub lookup_providers :
        Text
        → MetadataLookup
        → Option BookMetadata
        → MetadataResolver C
        → MetadataResolver C × Option BookMetadata
    unfolding lookup_from
    lookup_providers key lookup local_metadata s =
        lookup_from key lookup local_metadata with_them.providers false s

    abbrev pub Answer : Type 0
    Answer = MetadataResolver C × Option BookMetadata

    -- A lease is there, or the coordinator fails, or neither.
    abbrev pub lease_of : Text → MetadataResolver C → Result Bool
    lease_of key s = elim with_them.lease_coordinator [
      | none ↦ ok false
      | some acquire ↦ acquire key s.now
    ]

    -- With a lease, the cache is read once more.
    unfoldable pub lead : Text → MetadataLookup → Option BookMetadata → MetadataResolver C → Answer
    unfolding read_cached lookup_providers
    lead key lookup local_metadata s =
        let (s', cached) = read_cached key false s in
        elim cached [
          | none ↦ lookup_providers key lookup local_metadata s'
          | some result ↦ (s', or_local result local_metadata)
        ]

    abbrev pub give_up : Option BookMetadata → MetadataResolver C → Answer
    give_up none s = (s, none)
    give_up (some m) s = (count (codes "local_fallbacks") s, some m)

    module _ (sleeper : ℕ → MetadataResolver C → MetadataResolver C) where
      -- The loop, for so many turns; `none` where they do not suffice.
      unfoldable pub wait_turns :
          ℕ → ℕ → Text → MetadataLookup → Option BookMetadata → MetadataResolver C → Option Answer
      unfolding read_cached lead lookup_providers count
      wait_turns zero deadline key lookup local_metadata s = none
      wait_turns (suc n) deadline key lookup local_metadata s =
          if ltb s.now deadline
          then (let (s1, cached) = read_cached key false s in
              let s2 = sleeper with_them.poll_interval s1 in
              let later = wait_turns n deadline key lookup local_metadata s2 in
              elim cached [
                | some result ↦ some (s1, or_local result local_metadata)
                | none ↦ elim (lease_of key s2) [
                  | err e ↦ some (lookup_providers key lookup local_metadata s2)
                  | ok true ↦ some (lead key lookup local_metadata s2)
                  | ok false ↦ later
                ]
              ])
          else some (give_up local_metadata s)

      unfoldable pub wait_for_leader :
          ℕ → Text → MetadataLookup → Option BookMetadata → MetadataResolver C → Option Answer
      unfolding wait_turns count
      wait_for_leader turns key lookup local_metadata s =
          let s' = count (codes "coalesced_followers") s in
          wait_turns turns (s'.now + with_them.follower_wait) key lookup local_metadata s'

      -- What follows the second reading of the cache.
      unfoldable pub resolve_missed :
          ℕ → Text → MetadataLookup → Option BookMetadata → MetadataResolver C → Option Answer
      unfolding lookup_providers wait_for_leader
      resolve_missed turns key lookup local_metadata s = elim with_them.lease_coordinator [
        | none ↦ some (lookup_providers key lookup local_metadata s)
        | some acquire ↦ elim (acquire key s.now) [
          | err e ↦ some (lookup_providers key lookup local_metadata s)
          | ok true ↦ some (lookup_providers key lookup local_metadata s)
          | ok false ↦ wait_for_leader turns key lookup local_metadata s
        ]
      ]

      -- `lock` is what happens until the lock of the key is free.
      module _ (lock : MetadataResolver C → MetadataResolver C) where
        unfoldable pub resolve_key :
            ℕ → Text → MetadataLookup → Option BookMetadata → MetadataResolver C → Option Answer
        unfolding read_cached resolve_missed count
        resolve_key turns key lookup local_metadata s =
            let (s1, cached) = read_cached key true s in
            let (s2, cached_again) = read_cached key false (lock s1) in
            elim cached [
              | some result ↦ some (s1, or_local result local_metadata)
              | none ↦ elim cached_again [
                | some result ↦
                    some (count (codes "coalesced_followers") s2, or_local result local_metadata)
                | none ↦ resolve_missed turns key lookup local_metadata s2
              ]
            ]

        unfoldable pub resolve :
            ℕ → MetadataLookup → Option BookMetadata → MetadataResolver C → Result (Option Answer)
        unfolding normalize_lookup_key resolve_key
        resolve turns lookup local_metadata s = normalize_lookup_key lookup >>= λ key.
            ok (resolve_key turns key lookup local_metadata s)

-- The cache in memory never raises.
abbrev pub in_memory : MetadataCache InMemoryMetadataCache
in_memory = record {
  get = λ key now c. let (c', entry) = Cache.get key now c in (c', ok entry);
  set_found = λ key metadata now c. (Cache.set_found key metadata now c, ok tt);
  set_not_found = λ key now c. (Cache.set_not_found key now c, ok tt);
}
