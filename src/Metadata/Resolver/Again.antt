-- ===== src/Metadata/Resolver/Again.antt =====
-- Books that are resolved again (metadata/resolver.py).
use lore_x.Prelude.{nat_eq, list_eq}
use lore_x.Text.{Text}
use lore_x.Dict as Dict
use lore_x.Metadata.Cache as Cache
use lore_x.Metadata.Cache.{InMemoryMetadataCache}
use lore_x.Metadata.Resolver.{MetadataResolver}

abbrev pub Memory : Type 0
Memory = MetadataResolver InMemoryMetadataCache
