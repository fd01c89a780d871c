-- ===== src/LogIndex/Ingest/History.antt =====
-- The log index over its life: chunks, deletions and sweeps in any order, from the empty tables.
use claude_agent_wrap.Prelude.{ℕ, ◌≡◌, some, List, [], Text}
use claude_agent_wrap.Listing.Sessions.{SessionKey}
use claude_agent_wrap.LogIndex.Sweep.{Database, BlobSweep, Runtime, sweep_blobs}
use claude_agent_wrap.LogIndex.Ingest.{IngestChunk, Store, Ids, IsFresh, database_of}
use claude_agent_wrap.LogIndex.Ingest.Apply.{
  ingest_chunk, reset_session, delete_projects, delete_sessions,
}
use claude_agent_wrap.LogIndex.Ingest.Sound.{
  IsSound, ingest_chunk-IsSound, reset_session-IsSound, delete_projects-IsSound,
  delete_sessions-IsSound, swept-IsSound,
}

abbrev pub empty_store : Store
empty_store = record { sessions = []; blobs = []; requests = [] }

-- The tables that a history of calls leaves. A call that raises leaves them as they were.
pub data History (ids : Ids) (rt : Runtime) : Store → Type 0 where
  created : History ids rt empty_store
  ingests :
      (now : ℕ) (key : SessionKey) (chunk : IngestChunk) (s s' : Store)
      → History ids rt s
      → ingest_chunk ids now key chunk s ≡ some s'
      → History ids rt s'
  resets : (key : SessionKey) (s : Store) → History ids rt s → History ids rt (reset_session key s)
  drops_projects :
      (hashes : List Text) (s : Store)
      → History ids rt s
      → History ids rt (delete_projects hashes s)
  drops_sessions :
      (keys : List SessionKey) (s : Store)
      → History ids rt s
      → History ids rt (delete_sessions keys s)
  sweeps :
      (s : Store) (db : Database) (report : BlobSweep)
      → History ids rt s
      → sweep_blobs rt (database_of s) ≡ some (db, report)
      → History ids rt (record s { blobs = db.blobs })

empty_store-IsSound : IsSound (database_of empty_store)
empty_store-IsSound = record {
  keyed = record { unique_id = λ b d m n e. absurd m; unique_sha = λ b d m n e. absurd m };
  unpacks = λ r m h. absurd m;
  linked = λ r i m n. absurd m;
}

-- Whatever chunks were applied and whatever was deleted or swept, in any order: the blobs have
-- distinct ids and addresses, the vector of every request unpacks, and every id that a request
-- names is that of a blob that is there. SQLite gives new rows ids that no row has.
pub History-IsSound :
    (ids : Ids) (rt : Runtime) (s : Store)
    → IsFresh ids
    → History ids rt s
    → IsSound (database_of s)
History-IsSound ids rt _ new created = empty_store-IsSound
History-IsSound ids rt _ new (ingests now key chunk s s' h e) =
    ingest_chunk-IsSound ids now key chunk s s' new (History-IsSound ids rt s new h) e
History-IsSound ids rt _ new (resets key s h) =
    reset_session-IsSound key s (History-IsSound ids rt s new h)
History-IsSound ids rt _ new (drops_projects hashes s h) =
    delete_projects-IsSound hashes s (History-IsSound ids rt s new h)
History-IsSound ids rt _ new (drops_sessions keys s h) =
    delete_sessions-IsSound keys s (History-IsSound ids rt s new h)
History-IsSound ids rt _ new (sweeps s db report h e) =
    swept-IsSound rt s db report (History-IsSound ids rt s new h) e
