-- ===== src/Metadata/Cache/Expiry.antt =====
-- What the cache in memory answers (metadata/cache.py).
use lore_x.Prelude.{
  ℕ, ◌+◌, ◌≡◌, refl, sym, ap, ◌∙◌, Bool, true, false, Option, none, some, leb, if◌then◌else◌, ◌=?◌,
  nat_eq, list_eq, arith,
}
use lore_x.Text.{Text}
use lore_x.Dict as Dict
use lore_x.Dict.{get-put, get-remove}
use lore_x.Metadata.Model.{BookMetadata, found, not_found}
use lore_x.Metadata.Cache.{CacheEntry, InMemoryMetadataCache, get, set_found, set_not_found, delete}

-- An entry, as long as it has not expired.
abbrev pub alive : ℕ → Option CacheEntry → Option CacheEntry
alive now none = none
alive now (some entry) = if leb entry.expires_at now then none else some entry

pub get-alive :
    (key : Text) (now : ℕ) (c : InMemoryMetadataCache)
    → (get key now c).1 ≡ alive now (Dict.get key c.items)
unfolding get
get-alive key now c = ground arith

alive_if :
    (b : Bool) (now : ℕ) (o : Option CacheEntry) (key : Text) (c : InMemoryMetadataCache)
    → alive now (if b then o else Dict.get key c.items)
      ≡ (if b then alive now o else (get key now c).1)
alive_if true now o key c = refl
alive_if false now o key c = sym (get-alive key now c)

-- What the cache answers for a key after a write: for the key that was written, the new entry until its
-- time to live has passed and nothing from then on; for every other key, what it answered before.
pub get-set :
    (key other : Text) (m : BookMetadata) (now later : ℕ) (c : InMemoryMetadataCache)
    → ((get other later (set_found key m now c)).1 ≡ (
        if key =? other
        then (if leb (now + c.positive_ttl) later
            then none
            else some
                (record { status = found; metadata = some m; expires_at = now + c.positive_ttl }))
        else (get other later c).1))
      × ((get other later (set_not_found key now c)).1 ≡ (
          if key =? other
          then (if leb (now + c.negative_ttl) later
              then none
              else some (record {
                status = not_found;
                metadata = none;
                expires_at = now + c.negative_ttl;
              }))
          else (get other later c).1))
      × ((get other later (delete key c)).1
          ≡ (if key =? other then none else (get other later c).1))
unfolding set_found set_not_found delete
get-set key other m now later c = (
  get-alive other later _
      ∙ ap (alive later) (get-put key other _ c.items)
      ∙ alive_if (key =? other) later _ other c,
  get-alive other later _
      ∙ ap (alive later) (get-put key other _ c.items)
      ∙ alive_if (key =? other) later _ other c,
  get-alive other later _
      ∙ ap (alive later) (get-remove key other c.items)
      ∙ alive_if (key =? other) later _ other c,
)
