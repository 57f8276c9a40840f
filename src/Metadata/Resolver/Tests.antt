-- ===== src/Metadata/Resolver/Tests.antt =====
-- Lookups of one book (metadata/resolver.py, metadata/cache.py, metadata/model.py).
use lore_x.Prelude.{
  ℕ, suc, ◌+◌, ◌≡◌, refl, true, false, Option, none, some, [], ◌∷◌, arith, leb, if◌then◌else◌, ◌=?◌,
  nat_eq, list_eq,
}
use lore_x.Result.{ok, err, runtime_error}
use lore_x.Text.{Text, codes, text_functions}
use lore_x.Text.Number.{words}
use lore_x.Domain.{join}
use lore_x.Metadata.Model.{
  MetadataLookup, BookMetadata, found, not_found, no_metrics, normalize_lookup_key,
}
use lore_x.Metadata.Cache.{InMemoryMetadataCache, get, set_found, set_not_found, delete}
use lore_x.Metadata.Cache.Expiry.{get-set}
use lore_x.Metadata.Resolver.{MetadataProvider, Collaborators, in_memory, lookup_providers, resolve}
use lore_x.Metadata.Resolver.Upstream.{IsAnswer, lookup_providers-IsAnswer}
use lore_x.Metadata.Resolver.Waiting.{resolve-Returns}
use lore_x.Metadata.Resolver.Again.{Memory}

abbrev book : BookMetadata
book = record {
  title = codes "Dune";
  authors = codes "Frank Herbert" ∷ [];
  source = codes "b";
  provider_id = none;
  subtitle = none;
  description = none;
  published_date = none;
  isbn10 = none;
  isbn13 = none;
  asin = none;
  artwork_url = none;
  confidence = 1000;
}

abbrev lookup : MetadataLookup
lookup = record {
  title = some (codes " Dune ");
  authors = codes "Frank  Herbert" ∷ [];
  isbn10 = none;
  isbn13 = none;
  asin = none;
}

abbrev key : Text
key = codes "lorex:metadata:v1:title-author:dune|frank herbert"

key_of_lookup : normalize_lookup_key lookup ≡ ok key
unfolding normalize_lookup_key text_functions words join
key_of_lookup = refl

-- The first provider is down, the second has the book.
abbrev down : MetadataProvider
down = record { name = codes "a"; lookup = λ l. err (runtime_error "down") }

abbrev up : MetadataProvider
up = record { name = codes "b"; lookup = λ l. ok (record { status = found; metadata = some book }) }

-- The coordinator never hands out a lease.
abbrev with_them : Collaborators
with_them = record {
  providers = down ∷ up ∷ [];
  lease_coordinator = some (λ k now. ok false);
  artwork_scheduler = none;
  follower_wait = 3;
  poll_interval = 1;
}

abbrev empty : InMemoryMetadataCache
empty = record { positive_ttl = 100; negative_ttl = 10; items = [] }

abbrev resolver : Memory
resolver = record { cache = empty; fallback_cache = empty; metrics = no_metrics; now = 5 }

-- Nothing happens during a sleep but that time passes.
abbrev sleeper : ℕ → Memory → Memory
sleeper interval s = record s { now = suc s.now }

get-set_example :
    ((get key 20 (set_found key book 5 empty)).1 ≡ (
      if key =? key
      then (if leb (5 + 100) 20
          then none
          else some (record { status = found; metadata = some book; expires_at = 5 + 100 }))
      else (get key 20 empty).1))
    × ((get key 20 (set_not_found key 5 empty)).1 ≡ (
        if key =? key
        then (if leb (5 + 10) 20
            then none
            else some (record { status = not_found; metadata = none; expires_at = 5 + 10 }))
        else (get key 20 empty).1))
    × ((get key 20 (delete key empty)).1 ≡ (if key =? key then none else (get key 20 empty).1))
get-set_example = get-set key key book 5 20 empty

lookup_providers-IsAnswer_example :
    IsAnswer in_memory key none
      (some book)
      true
      resolver
      (lookup_providers in_memory with_them key lookup none resolver)
lookup_providers-IsAnswer_example =
    lookup_providers-IsAnswer in_memory with_them key lookup none resolver

resolve-Returns_example :
    (answer : Memory × Option BookMetadata) × (resolve in_memory with_them sleeper
        (λ r. r)
        4
        lookup
        none
        resolver
      ≡ ok (some answer))
resolve-Returns_example =
    resolve-Returns in_memory with_them sleeper (λ r. r) 4 key lookup none resolver
      (λ t. omega arith) key_of_lookup (omega arith)
