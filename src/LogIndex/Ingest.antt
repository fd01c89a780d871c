-- ===== src/LogIndex/Ingest.antt =====
-- `LogIngestRepository.ingest_chunk` and the writes of a session, and the tables they change:
-- agent_wrap/infrastructure/logs/repositories/ingest.py and 0001_create_log_index.sql.
pub mod Storable
pub mod Apply
pub mod Blobs
pub mod Lookup
pub mod Links
pub mod Rows
pub mod Sound
pub mod History
pub mod Written
pub mod Upsert
pub mod Effect
pub mod Returns
pub mod Owned
pub mod NextIds
use claude_agent_wrap.Prelude.{
  ℤ, ℕ, ◌+◌, ◌≡◌, Bool, true, false, not, ◌&&◌, ◌||◌, Option, none, some, List, [], ◌∷◌, ◌++◌, eqb,
  leb, any, keep, length, map, elem, if◌then◌else◌, Text, text_beq, text_eq, nat_eq, In,
}
use claude_agent_wrap.Prelude.Dict.{Dict, get, put}
use claude_agent_wrap.Listing.Sessions.{SessionKey}
use claude_agent_wrap.LogIndex.Codec.{Bytes, Codec, pack_ids}
use claude_agent_wrap.LogIndex.Sweep.{Blob, RequestRow, Database, to_list, batched}

pub record ContentBlob : Type 0 where
  pub sha256 : Bytes
  pub codec : Codec
  pub payload : Bytes

pub data Status : Type 0 where
  success failure : Status

-- `native`, `standard_logging_object` and `unrecoverable`.
pub data UsageSource : Type 0 where
  native standard_logging_object unrecoverable : UsageSource

-- The fields of a request that are stored as they are.
pub record Columns : Type 0 where
  pub status : Status
  pub model : Text
  pub usage_source : UsageSource
  pub started_at_us : Option ℤ
  pub first_token_at_us : Option ℤ
  pub ended_at_us : Option ℤ
  pub agent_id : Option Text
  pub finish_reason : Option Text
  pub max_tokens : Option ℤ
  pub error : Option Text
  pub input_tokens : ℕ
  pub output_tokens : ℕ
  pub cache_write_tokens : ℕ
  pub cache_write_5m : ℕ
  pub cache_write_1h : ℕ
  pub cache_read : ℕ

pub record RequestRecord : Type 0 where
  pub ordinal : ℕ
  pub columns : Columns
  pub message_addresses : List Bytes
  pub system_address : Option Bytes
  pub tools_address : Option Bytes
  pub response_address : Option Bytes

pub record SessionSummary : Type 0 where
  pub record_count : ℕ
  pub last_event_at_us : Option ℤ
  pub models : List Text
  pub alias : Option Text
  pub title : Option Text

pub record IngestChunk : Type 0 where
  pub blobs : List ContentBlob
  pub requests : List RequestRecord
  pub summary : SessionSummary
  pub messages_offset : ℕ
  pub strings_offset : ℕ

pub record SessionState : Type 0 where
  pub messages_offset : ℕ
  pub strings_offset : ℕ
  pub summary : SessionSummary

-- A row of `sessions`; the column of models, a JSON array, is the list that it holds.
pub record StoredSession : Type 0 where
  pub id : ℕ
  pub key : SessionKey
  pub last_ingested_at : ℕ
  pub state : SessionState

-- A row of `requests`.
pub record StoredRequest : Type 0 where
  pub session_id : ℕ
  pub ordinal : ℕ
  pub columns : Columns
  pub message_refs : Bytes
  pub system_blob : Option ℕ
  pub tools_blob : Option ℕ
  pub response_blob : Option ℕ

pub record Store : Type 0 where
  pub sessions : List StoredSession
  pub blobs : List Blob
  pub requests : List StoredRequest

-- What a sweep reads of a request.
abbrev pub row_of : StoredRequest → RequestRow
row_of r = record {
  message_refs = r.message_refs;
  system_blob = r.system_blob;
  tools_blob = r.tools_blob;
  response_blob = r.response_blob;
  error = r.columns.error;
}

abbrev pub database_of : Store → Database
database_of s = record { blobs = s.blobs; requests = map row_of s.requests }

unfoldable pub same_key : SessionKey → SessionKey → Bool
same_key a b =
    text_beq a.project_hash b.project_hash
    && (text_beq a.provider b.provider && text_beq a.claude_session_id b.claude_session_id)

-- SQLite gives a new row an id that no row has.
pub record Ids : Type 0 where
  pub fresh : List ℕ → ℕ

pub record IsFresh (ids : Ids) : Type 0 where
  pub fresh-new : (used : List ℕ) → ¬ In (ids.fresh used) used

-- `COALESCE(excluded.x, sessions.x)`
abbrev pub coalesce : Option Text → Option Text → Option Text
coalesce none old = old
coalesce (some t) old = some t

-- What the conflict clause of the upsert sets.
unfoldable pub refreshed : ℕ → IngestChunk → StoredSession → StoredSession
refreshed now chunk s = record s {
  last_ingested_at = now;
  state = record {
    messages_offset = chunk.messages_offset;
    strings_offset = chunk.strings_offset;
    summary = record chunk.summary {
      alias = coalesce chunk.summary.alias s.state.summary.alias;
      title = coalesce chunk.summary.title s.state.summary.title;
    };
  };
}

abbrev inserted : ℕ → SessionKey → ℕ → IngestChunk → StoredSession
inserted id key now chunk = record {
  id = id;
  key = key;
  last_ingested_at = now;
  state = record {
    messages_offset = chunk.messages_offset;
    strings_offset = chunk.strings_offset;
    summary = chunk.summary;
  };
}

-- `_upsert_session`: the sessions, and the id of the row.
unfoldable pub upsert_row :
    ℕ → SessionKey → ℕ → IngestChunk → List StoredSession → List StoredSession × ℕ
unfolding refreshed same_key
upsert_row new key now chunk [] = (inserted new key now chunk ∷ [], new)
upsert_row new key now chunk (s ∷ ss) =
    let rest = upsert_row new key now chunk ss in
    if same_key s.key key then (refreshed now chunk s ∷ ss, s.id) else (s ∷ rest.0, rest.1)

-- `session_state`
unfoldable pub session_state : SessionKey → List StoredSession → Option SessionState
unfolding same_key
session_state key [] = none
session_state key (s ∷ ss) = if same_key s.key key then some s.state else session_state key ss

abbrev addresses_in : List Blob → List Bytes
addresses_in = map (λ b. b.sha256)

-- `INSERT INTO blobs … ON CONFLICT (sha256) DO NOTHING`
unfoldable pub insert_blob : Ids → ContentBlob → List Blob → List Blob
insert_blob ids blob blobs =
    if elem blob.sha256 (map (λ (b : Blob). b.sha256) blobs)
    then blobs
    else record {
      id = ids.fresh (map (λ (b : Blob). b.id) blobs);
      sha256 = blob.sha256;
      codec = blob.codec;
      payload = blob.payload;
    }
      ∷ blobs

unfoldable pub insert_blobs : Ids → List ContentBlob → List Blob → List Blob
unfolding insert_blob
insert_blobs ids [] blobs = blobs
insert_blobs ids (b ∷ bs) blobs = insert_blobs ids bs (insert_blob ids b blobs)

abbrev pub record_addresses : RequestRecord → List Bytes
record_addresses r =
    r.message_addresses
    ++ (to_list r.system_address ++ (to_list r.tools_address ++ to_list r.response_address))

unfoldable pub requests_addresses : List RequestRecord → List Bytes
requests_addresses [] = []
requests_addresses (r ∷ rs) = record_addresses r ++ requests_addresses rs

-- `_referenced_addresses`, a set.
unfoldable pub referenced_addresses : IngestChunk → List Bytes
unfolding requests_addresses
referenced_addresses chunk =
    map (λ (b : ContentBlob). b.sha256) chunk.blobs ++ requests_addresses chunk.requests

-- `blob_ids.update(…)` with the rows of one batch.
unfoldable pub note_rows : List Blob → Dict Bytes ℕ → Dict Bytes ℕ
unfolding put
note_rows [] found = found
note_rows (b ∷ bs) found = note_rows bs (put b.sha256 b.id found)

unfoldable pub read_ids : List Blob → List (List Bytes) → Dict Bytes ℕ → Dict Bytes ℕ
unfolding note_rows elem
read_ids blobs [] found = found
read_ids blobs (batch ∷ more) found =
    read_ids blobs more (note_rows (keep (λ b. elem b.sha256 batch) blobs) found)

-- The ids that the requests use, after the blobs are in: the end of `_insert_blobs`.
unfoldable pub blob_ids : List Blob → IngestChunk → Dict Bytes ℕ
unfolding read_ids batched referenced_addresses
blob_ids blobs chunk = read_ids blobs (batched (referenced_addresses chunk)) []
