-- ===== src/Downloader/Providers.antt =====
-- backend/lorex/downloader/provider.py. A client is an interface: the chunks that it yields for a
-- message id, and how the stream ends. A stream is read to its end, so that a pool's semaphore is free
-- again after it.
pub mod Order
pub mod Fallback
mod Tests
use lore_x.Prelude.{
  ℕ, ◌≡◌, Bool, true, false, not, ◌||◌, ◌&&◌, Option, none, some, List, [], ◌∷◌, ◌++◌,
  if◌then◌else◌, ◌=?◌, nat_eq, list_eq,
}
use lore_x.Prelude.Int.{ℤ, pos, leb_ℤ, ltb_ℤ}
use lore_x.Result.{
  Result, ok, err, Error, value_error, runtime_error, article_unavailable, provider_temporary,
}
use lore_x.Text.{Text}
use lore_x.Dict.{Dict, get, put, contains}
use lore_x.Nntp.Stream.{Bytes, Gen}
use lore_x.Indexer.Grouper.{text_le}

pub record ProviderConfig : Type 0 where
  pub name : Text
  pub host : Text
  pub port : ℤ
  pub priority : ℤ
  pub fill_server : Bool
  pub max_connections : ℤ
  pub enabled : Bool
  pub tls : Bool

-- `__post_init__`
unfoldable pub check_config : ProviderConfig → Result ProviderConfig
check_config c =
    if not c.tls
    then err (value_error "TLS is required for NNTP providers")
    else if leb_ℤ c.max_connections (pos 0)
    then err (value_error "max_connections must be positive")
    else if leb_ℤ c.port (pos 0)
    then err (value_error "port must be positive")
    else ok c

abbrev pub ArticleProvider : Type 0
ArticleProvider = Text → Gen (Unit {0})

pub record ProviderSet : Type 0 where
  pub configs : List ProviderConfig
  pub pools : Dict Text ArticleProvider

-- The pools of the enabled providers that have a client.
unfoldable pub build_pools :
    List ProviderConfig
    → Dict Text ArticleProvider
    → Dict Text ArticleProvider
    → Dict Text ArticleProvider
build_pools [] clients pools = pools
build_pools (c ∷ cs) clients pools =
    let skipped = build_pools cs clients pools in
    elim (get c.name clients) [
      | none ↦ skipped
      | some client ↦
          let added = build_pools cs clients (put c.name client pools) in
          if c.enabled then added else skipped
    ]

unfoldable pub new_provider_set : List ProviderConfig → Dict Text ArticleProvider → ProviderSet
unfolding build_pools
new_provider_set configs clients = record {
  configs = configs;
  pools = build_pools configs clients [];
}

-- The order of the keys `(fill_server, priority, name)`.
unfoldable pub config_le : ProviderConfig → ProviderConfig → Bool
config_le c d =
    if c.fill_server && not d.fill_server
    then false
    else if not c.fill_server && d.fill_server
    then true
    else if ltb_ℤ c.priority d.priority
    then true
    else if ltb_ℤ d.priority c.priority
    then false
    else text_le c.name d.name

-- `sorted`: a stable insertion sort.
unfoldable pub insert_config : ProviderConfig → List ProviderConfig → List ProviderConfig
insert_config c [] = c ∷ []
insert_config c (d ∷ cs) =
    let rest = insert_config c cs in if config_le c d then c ∷ d ∷ cs else d ∷ rest

unfoldable pub sort_enabled : List ProviderConfig → List ProviderConfig
unfolding insert_config
sort_enabled [] = []
sort_enabled (c ∷ cs) =
    let rest = sort_enabled cs in if c.enabled then insert_config c rest else rest

unfoldable pub ordered : ProviderSet → List ProviderConfig
unfolding sort_enabled
ordered s = sort_enabled s.configs

unfoldable pub pool_for : Text → ProviderSet → Result ArticleProvider
pool_for name s = elim (get name s.pools) [
  | none ↦ err (runtime_error "provider client is not configured")
  | some client ↦ ok client
]

-- The exceptions after which the next provider is asked.
unfoldable pub falls_back : Error → Bool
falls_back article_unavailable = true
falls_back provider_temporary = true
falls_back _ = false

-- The loop of `stream_with_fallback`, with the last error.
unfoldable pub stream_from :
    List ProviderConfig → Option Error → Text → ProviderSet → Gen (Unit {0})
unfolding falls_back
stream_from [] (some e) message_id s = ([], err e)
stream_from [] none message_id s = ([], err article_unavailable)
stream_from (c ∷ cs) last_error message_id s = elim (get c.name s.pools) [
  | none ↦ stream_from cs last_error message_id s
  | some client ↦ elim (client message_id).1 [
    | ok _ ↦ client message_id
    | err e ↦
        let later = stream_from cs (some e) message_id s in
        if falls_back e then ((client message_id).0 ++ later.0, later.1) else client message_id
  ]
]

unfoldable pub stream_with_fallback : Text → ProviderSet → Gen (Unit {0})
unfolding ordered stream_from
stream_with_fallback message_id s = stream_from (ordered s) none message_id s
