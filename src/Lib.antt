-- ===== src/Lib.antt =====
-- LoreX: the backend (backend/lorex) that indexes Usenet overview headers into releases, downloads
-- their articles and decodes them.
--
-- The parts and how they interact. `scan_group_once` (nntp/scanner.py) asks the protocol client
-- (nntp/client.py) for a window of overview rows and hands them, as one batch with a checkpoint, to
-- `index_batches` (services/indexing.py). That feeds every header to the grouper
-- (indexer/grouping.py), which parses its subject and collects the parts of a release; a finished
-- candidate is scored (indexer/classifier.py), turned into a record, and committed with the
-- checkpoint to the repository (repository.py). A download job is claimed from the job repository
-- (repository.py); each of its articles is tried at the providers in their order
-- (downloader/engine.py, downloader/provider.py), where a client reads a body (nntp/client.py) and decodes it
-- (nntp/yenc.py), and the progress is coalesced (downloader/progress.py). A search for one book ranks
-- what a provider of candidates offers (services/on_demand_search.py), or reads the groups from the
-- newest article down and indexes what matches (services/targeted_nntp_search.py). The metadata of a
-- book come from a cache or from the first upstream provider that has them (metadata/resolver.py), and
-- their artwork is fetched by a scheduler with bounded capacity (metadata/artwork.py). A worker takes
-- a job from its claim to the library (services/download_jobs.py), and the import of its file goes
-- through stages that can be resumed (library/pipeline.py), once its archive has been validated
-- (library/archive.py).
--
-- Files, with paths of the program below backend/lorex:
--   Prelude, Prelude/*     library names, Boolean tests, lists and integers over the native numbers
--   Dict, Result, Process  dictionaries; exceptions as values; procedures that change a state
--   Text, Text/*           str as lists of code points, bytes as lists of numbers below 256
--   Domain                 domain.py: the records that the parts share
--   Indexer/Subject        indexer/grouping.py: `_split_part_suffix` (split_part_suffix), both patterns
--   Indexer/Group          indexer/grouping.py: `_PendingGroup` (PendingGroup)
--   Indexer/Grouper        indexer/grouping.py: `StreamingHeaderGrouper` (Grouper), `group_headers`
--   Indexer/Classifier     indexer/classifier.py: `classify_audiobook`
--   Services/Indexing      services/indexing.py: `index_batches` and its inner functions
--   Services/Search        services/on_demand_search.py: `expand_queries`, `score_candidate`,
--                          `dedupe_candidates`, `execute_on_demand_search`
--   Services/Targeted      services/targeted_nntp_search.py: `subject_matches_request`,
--                          `scan_requested_book_group`, `acquire_requested_book`
--   Metadata/Model         metadata/model.py, metadata/metrics.py
--   Metadata/Cache         metadata/cache.py: `InMemoryMetadataCache`
--   Metadata/Artwork       metadata/artwork.py: `ArtworkScheduler`, its calls cut at their locks
--   Services/Downloads     services/download_jobs.py: `queue_release`, `process_next_download`
--   Metadata/Resolver      metadata/resolver.py: `MetadataResolver`
--   Library/Archive        library/archive.py: `validate_archive_members`, `ArchiveExtractor.extract`
--   Library/Filesystem     library/filesystem.py: `promote_verified_file`
--   Library/Media          library/media.py: `choose_media_action`; importer.py: `sanitize_component`
--   Library/Pipeline       library/pipeline.py: `ImportPipeline.process`
--   Nntp/Models            nntp/models.py, nntp/protocol.py: groups, providers, rows
--   Nntp/Client            nntp/client.py: `NntpClient` over an open connection (Connection)
--   Nntp/Scanner           nntp/scanner.py: `_scan_range`, `scan_group_once`
--   Nntp/Stream, Nntp/Crc  generators read to their end; zlib.crc32
--   Nntp/Yenc              nntp/yenc.py: `StreamingYencDecoder` (Decoder), `decode_yenc_stream`
--   Repository/Releases    repository.py: `ReleaseRepository`
--   Repository/Jobs        repository.py: `JobRepository`
--   Downloader/Progress    downloader/progress.py: `ProgressCoalescer`
--   Downloader/Providers   downloader/provider.py: `ProviderConfig`, `ProviderSet`
--   Downloader/Article     downloader/engine.py: `_download_article` (download_article)
--   Downloader/Engine      downloader/engine.py: `StreamingDownloader.download_job`
-- A child module states what its name says of its parent; the modules called Tests hold runs at
-- concrete inputs.
--
-- How state and operations correspond. An object is a record with the object's attributes; a method
-- takes it and returns the new one, with the result, or a `Result` where it may raise. A generator is
-- the list of its chunks with its end (Gen). The interfaces that the code takes as protocols, the
-- scanner's client and the article providers, are records or functions of their answers. Integers
-- that the code does not bound are ℤ; counters and part numbers are ℕ. Scores are tenths, and shares
-- of completion thousandths. Times are numbers that the operations take as arguments.
--
-- Bounds and fuel. The character classes of `str` are exact on Latin-1, and wider text is not told
-- apart from letters. `int` refuses more than 4300 digits, as Python does. The loops that consume
-- bytes run on fuel: `full_chunks` on the length of the output, since a chunk is not empty;
-- `body_lines` and `overview_rows` on the length of what is still to come, since a line is not empty.
-- `wait_turns` runs on as many turns as the caller allows; every turn sleeps, so that more turns than
-- the wait is long are enough. `run_active` runs on as many turns as articles are pending; every turn
-- takes one of them, and those that a raise leaves active are taken by `drain`.
--
-- Parameters: the ratio of two texts (difflib), the digest of a candidate's id (hashlib.sha1), the
-- decoding of a response's text, the answers of servers and providers, what other workers do while one
-- sleeps or waits for a lock, the order in which the articles of a job are done, the tools of the
-- import, and the listing and unpacking of an archive.
--
-- Not modelled: sockets and their faults, threads and semaphores, the SQL repositories, the HTTP
-- interface, the frontend, the converting of media files and the clients of the metadata services.

pub mod Dict
pub mod Domain
pub mod Downloader
pub mod Indexer
pub mod Library
pub mod Metadata
pub mod Nntp
pub mod Prelude
pub mod Process
pub mod Repository
pub mod Result
pub mod Services
pub mod Text
