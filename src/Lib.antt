-- ===== src/Lib.antt =====
-- agent-wrap runs coding agents in containers, with a sidecar that proxies and logs their
-- requests. Its index of the logs keeps every message once, as a blob; reports price the
-- requests.
--
-- Parts, and the files that model them (paths from the repository's root):
--
-- Prelude: shared names; Lists, Members, Texts (a text is the list of its code points), Keys and
--   Dict (Python's dict as an association list in insertion order), Floats (the operations of
--   `float`, a parameter, for what the runtime does with them is not in the repository).
-- Pricing: agent_wrap/domain/pricing/models.py and service.py (Usage, Totals), the arithmetic of
--   agent_wrap/domain/providers/pricing.py (Cost, CostBounds, Matching) and the cost of a
--   request in agent_wrap/domain/providers/base.py (Compute). Extract reads usage from JSON. A
--   method that changes a bucket or a provider takes and returns it. `cost_for_tiers` is
--   `CostComputer.cost_for_tiers`, and so on, name by name.
-- LogIndex: agent_wrap/infrastructure/logs/repositories/ingest.py. Codec is `BlobCodec`;
--   Pointers is the search by `HASH_POINTER_RE` of agent_wrap/constants.py; Sweep is
--   `LogIngestRepository.sweep_blobs` with what it calls, on the two tables that it reads.
--   Ingest has the three tables of 0001_create_log_index.sql as lists of rows, and the
--   writes of `LogIngestRepository`: `ingest_chunk`, which upserts the session, inserts the blobs
--   and then the rows, and the deletions. A write gives the tables afterwards, or `none` for an
--   exception, after which its transaction is rolled back. History is the sequence of such
--   writes and sweeps. The ids that SQLite gives, zlib and the decoding of UTF-8 are
--   parameters. The addresses that a chunk references, a set, are a list that may repeat
--   some, of which only membership matters. The pricing of a request and the index do not share
--   state.
-- Reader: agent_wrap/domain/logs/ingest.py, with agent_wrap/domain/logs/normalize.py
--   (Records) and agent_wrap/lib/canonical_json.py. Json has the values of `json.loads` and the
--   Runtime, what Python's libraries implement: json, hashlib, zlib, `str.strip`, the rounding
--   of floats, the two regular expressions. Parser is `RecordParser` and
--   `_BlobAccumulator`, Chunks is `read_ingest_chunks` with its loop over the lines, and Session
--   is `LogService._ingest_session` of agent_wrap/domain/logs/service.py, where the chunks
--   that Reader yields are applied by LogIndex. A generator that raises is the chunks that it
--   had yielded and a mark; the chunks are cut at limits that are an argument. Retention is
--   `retention_scope` and `_apply_retention` of the same service, over the directories by
--   session; `rmtree` is a parameter, and the empty parent directories stay.
--
-- Bounds and fuel: the loop that follows pointers runs on one step more than there are
-- candidates, since each round but the last takes one out; slicing into batches runs on one step
-- for each id, of which a batch takes at least one. Ids are packed in 32 bits, and what is
-- stored has at most 64 bits and no surrogates (LogIndex/Ingest/Storable); all other integers are
-- Python's, unbounded; a count is never negative, a time may be.
--
-- Updates: agent_wrap/domain/updates/service.py. Host has what the service drives (git, the
--   containers, the viewer's daemon, the terminal) as a parameter, and the list of what was
--   done; Git is `_GitOps`, Service is `UpdateService`. A run returns, or ends with an
--   exception, in a new state; the other files say what a run adds to the list, and in which
--   order.
--
-- Stats: agent_wrap/domain/stats/fold.py (Fold), with the days of format_utils.py and
--   agent_wrap/lib/daytime.py (Days). It takes its usage cells from the index and its prices
--   from Pricing, of which normalize_model and compute_cost are a parameter here, as is
--   datetime.
--
-- PathTree: agent_wrap/lib/path_tree.py, the tree that the reports draw: Build is
--   `build_path_tree`, whose nodes, changed in place there, are values here.
--
-- Listing: agent_wrap/domain/logs/listing.py, the session rows of the index as the viewer lists
--   them.
--
-- Locks: agent_wrap/lib/flock.py (Files) over a directory of lock files, of which the kernel
--   keeps the locks; agent_wrap/lib/priority_lock.py (Priority) as the steps of any number of
--   processes, of which each may crash between any two; agent_wrap/domain/sidecars/tracker.py
--   (Tracker). A call on the directory is one step: that a file is opened a moment before it is
--   locked is not modelled, nor are the lengths of waits. The removal of a stale file
--   may fail; that of a process's own does not.
--
-- Not modelled: docker, files, sockets and the terminal, which most services of
-- agent_wrap/domain drive; a disk that is full or a database that stays locked; the
-- third-party proxy; the page that shows the logs.
pub mod Prelude
pub mod Pricing
pub mod LogIndex
pub mod Reader
pub mod Locks
pub mod Updates
pub mod Stats
pub mod PathTree
pub mod Listing
