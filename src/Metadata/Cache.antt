-- ===== src/Metadata/Cache.antt =====
-- backend/lorex/metadata/cache.py: the cache in memory. The clock's time is an argument.
pub mod Expiry
use lore_x.Prelude.{
  ℕ, ◌+◌, Bool, Option, none, some, List, [], leb, ◌||◌, if◌then◌else◌, nat_eq, list_eq,
}
use lore_x.Result.{Result, ok, err, value_error}
use lore_x.Text.{Text}
use lore_x.Dict
use lore_x.Dict.{Dict}
use lore_x.Metadata.Model.{BookMetadata, Status, found, not_found}

pub record CacheEntry : Type 0 where
  pub status : Status
  pub metadata : Option BookMetadata
  pub expires_at : ℕ

pub record InMemoryMetadataCache : Type 0 where
  pub positive_ttl : ℕ
  pub negative_ttl : ℕ
  pub items : Dict Text CacheEntry

unfoldable pub new_cache : ℕ → ℕ → Result InMemoryMetadataCache
new_cache positive_ttl negative_ttl =
    if leb positive_ttl 0 || leb negative_ttl 0
    then err (value_error "cache TTLs must be positive")
    else ok (record { positive_ttl = positive_ttl; negative_ttl = negative_ttl; items = [] })

-- An entry that has expired is removed.
unfoldable pub get : Text → ℕ → InMemoryMetadataCache → InMemoryMetadataCache × Option CacheEntry
get key now c = elim (Dict.get key c.items) [
  | none ↦ (c, none)
  | some entry ↦
      if leb entry.expires_at now
      then (record c { items = Dict.remove key c.items }, none)
      else (c, some entry)
]

unfoldable pub set_found : Text → BookMetadata → ℕ → InMemoryMetadataCache → InMemoryMetadataCache
set_found key metadata now c = record c {
  items =
      Dict.put key
        (record { status = found; metadata = some metadata; expires_at = now + c.positive_ttl })
        c.items;
}

unfoldable pub set_not_found : Text → ℕ → InMemoryMetadataCache → InMemoryMetadataCache
set_not_found key now c = record c {
  items =
      Dict.put key
        (record { status = not_found; metadata = none; expires_at = now + c.negative_ttl }) c.items;
}

unfoldable pub delete : Text → InMemoryMetadataCache → InMemoryMetadataCache
delete key c = record c { items = Dict.remove key c.items }
