-- ===== src/LogIndex/Examples.antt =====
-- Runs of the sweep and of the codec on small inputs: two blobs that a request reaches, one of
-- them by a pointer in the other's text, and a third that nothing reaches.
use claude_agent_wrap.Prelude.{
  ℕ, zero, suc, ◌+◌, ◌≡◌, ◌≢◌, refl, ◌↔◌, inl, inr, none, some, List, [], ◌∷◌, ◌++◌, length, sum_by,
  ap, In, codes, Text, nat_eq, text_eq, arith, elem, text_beq,
}
use claude_agent_wrap.Prelude.Dict.{get, put}
use claude_agent_wrap.LogIndex.Codec.{
  Bytes, raw, Zlib, IsLossless, encode, decode, decode-encode, pack_ids, unpack_ids,
  unpack_ids-pack_ids,
}
use claude_agent_wrap.Listing.Sessions.{SessionKey}
use claude_agent_wrap.LogIndex.Ingest.{
  ContentBlob, success, native, Columns, RequestRecord, IngestChunk, StoredSession, StoredRequest,
  Store, database_of, session_state,
}
use claude_agent_wrap.LogIndex.Ingest.Apply.{ingest_chunk}
use claude_agent_wrap.LogIndex.Ingest.Blobs.{Holds}
use claude_agent_wrap.LogIndex.Ingest.Links.{Stands}
use claude_agent_wrap.LogIndex.Ingest.Sound.{IsSound}
use claude_agent_wrap.LogIndex.Ingest.History.{
  empty_store, History, created, ingests, History-IsSound,
}
use claude_agent_wrap.LogIndex.Ingest.Written.{IsWritten, History-sweep_blobs}
use claude_agent_wrap.LogIndex.Ingest.Owned.{IsOwned, History-IsOwned}
use claude_agent_wrap.LogIndex.Ingest.NextIds.{greatest, next_ids, next_ids-IsFresh}
use claude_agent_wrap.LogIndex.Ingest.Upsert.{state_after}
use claude_agent_wrap.LogIndex.Ingest.Effect.{
  ingest_chunk-Stands, ingest_chunk_state, ingest_chunk_again,
}
use claude_agent_wrap.LogIndex.Sweep.{Blob, RequestRow, Database, BlobSweep, Runtime, sweep_blobs}
use claude_agent_wrap.LogIndex.Sweep.Distinct.{is_distinct, is_distinct_unique}
use claude_agent_wrap.LogIndex.Sweep.References.{Reachable}
use claude_agent_wrap.LogIndex.Sweep.Safety.{IsKeyed}
use claude_agent_wrap.LogIndex.Sweep.Exact.{sweep_blobs_exact, sweep_blobs_freed, sweep_blobs_total}

abbrev repeat {ℓ} : {A : Type ℓ} → ℕ → A → List A
repeat zero a = []
repeat (suc n) a = a ∷ repeat n a

abbrev identity_zlib : Zlib
identity_zlib = record { compress = λ b. b; decompress = λ b. some b }

-- A codec that puts a byte before what it is given, and one that takes it off.
abbrev marking_zlib : Zlib
marking_zlib = record {
  compress = λ b. 120 ∷ b;
  decompress = λ b. elim b [ [] ↦ none | (x ∷ xs) ↦ some xs ];
}

identity_zlib-IsLossless : IsLossless identity_zlib
identity_zlib-IsLossless = record { decompress-compress = λ b. refl }

marking_zlib-IsLossless : IsLossless marking_zlib
marking_zlib-IsLossless = record { decompress-compress = λ b. refl }

abbrev runtime : Runtime
runtime = record { zlib = identity_zlib; decode_utf8 = λ b. b }

abbrev address : ℕ → Bytes
address n = repeat 32 n

-- The text of the first blob names the second by its address, 32 bytes 0xaa.
abbrev pointing : Text
pointing = codes "see hash:" ++ repeat 64 b'a'

abbrev first : Blob
first = record { id = 1; sha256 = address 1; codec = raw; payload = pointing }

abbrev second : Blob
second = record { id = 2; sha256 = address 170; codec = raw; payload = codes "body" }

abbrev third : Blob
third = record { id = 3; sha256 = address 3; codec = raw; payload = codes "stale" }

abbrev request : RequestRow
request = record {
  message_refs = 1 ∷ 0 ∷ 0 ∷ 0 ∷ [];
  system_blob = none;
  tools_blob = none;
  response_blob = none;
  error = none;
}

abbrev database : Database
database = record { blobs = first ∷ second ∷ third ∷ []; requests = request ∷ [] }

abbrev swept : Database
swept = record { blobs = first ∷ second ∷ []; requests = request ∷ [] }

abbrev report : BlobSweep
report = record { removed = 1; freed_bytes = 5 }

database-IsKeyed : IsKeyed database
unfolding is_distinct elem text_beq
database-IsKeyed = record {
  unique_id = is_distinct_unique (λ (b : Blob). b.id) database.blobs refl;
  unique_sha = is_distinct_unique (λ (b : Blob). b.sha256) database.blobs refl;
}

sweep_run : sweep_blobs runtime database ≡ some (swept, report)
unfolding sweep_blobs elem decode get put text_beq
sweep_run = refl

sweep_blobs_exact_example :
    In first swept.blobs ↔ (In first database.blobs × Reachable runtime database first)
sweep_blobs_exact_example =
    sweep_blobs_exact runtime database swept report database-IsKeyed sweep_run first

sweep_blobs_freed_example :
    (swept.requests ≡ database.requests)
    × (report.freed_bytes + sum_by (λ b. length b.payload) swept.blobs
        ≡ sum_by (λ b. length b.payload) database.blobs)
sweep_blobs_freed_example = sweep_blobs_freed runtime database swept report sweep_run

unpacks : (r : RequestRow) → In r database.requests → unpack_ids r.message_refs ≢ none
unfolding unpack_ids
unpacks r (inl e) h = cc
unpacks r (inr m) h = m

readable : (b : Blob) → In b database.blobs → decode identity_zlib b.codec b.payload ≢ none
unfolding decode
readable b (inl e) h = cc (ap (λ (x : Blob). decode identity_zlib x.codec x.payload) e, h)
readable b (inr (inl e)) h = cc (ap (λ (x : Blob). decode identity_zlib x.codec x.payload) e, h)
readable b (inr (inr (inl e))) h =
    cc (ap (λ (x : Blob). decode identity_zlib x.codec x.payload) e, h)
readable b (inr (inr (inr m))) h = m

sweep_blobs_total_example : (out : Database × BlobSweep) × (sweep_blobs runtime database ≡ some out)
sweep_blobs_total_example = sweep_blobs_total runtime database unpacks readable

decode-encode_example :
    decode marking_zlib
      (encode marking_zlib (repeat 600 7)).0
      (encode marking_zlib (repeat 600 7)).1
    ≡ some (repeat 600 7)
decode-encode_example = decode-encode marking_zlib marking_zlib-IsLossless (repeat 600 7)

unpack_ids-pack_ids_example :
    (b : Bytes) × (pack_ids (1 ∷ 70000 ∷ []) ≡ some b) × (unpack_ids b ≡ some (1 ∷ 70000 ∷ []))
unpack_ids-pack_ids_example = unpack_ids-pack_ids (1 ∷ 70000 ∷ []) (omega arith, (omega arith, tt))

abbrev key : SessionKey
key = record {
  project_hash = codes "p";
  provider = codes "anthropic";
  claude_session_id = codes "s";
}

abbrev other_key : SessionKey
other_key = record {
  project_hash = codes "p";
  provider = codes "bedrock";
  claude_session_id = codes "s";
}

abbrev columns : Columns
columns = record {
  status = success;
  model = codes "m";
  usage_source = native;
  started_at_us = none;
  first_token_at_us = none;
  ended_at_us = none;
  agent_id = none;
  finish_reason = none;
  max_tokens = none;
  error = none;
  input_tokens = 5;
  output_tokens = 7;
  cache_write_tokens = 3;
  cache_write_5m = 1;
  cache_write_1h = 2;
  cache_read = 0;
}

abbrev parsed : RequestRecord
parsed = record {
  ordinal = 0;
  columns = columns;
  message_addresses = address 4 ∷ address 4 ∷ [];
  system_address = none;
  tools_address = none;
  response_address = some (address 4);
}

abbrev chunk : IngestChunk
chunk = record {
  blobs = record { sha256 = address 4; codec = raw; payload = codes "hi" } ∷ [];
  requests = parsed ∷ [];
  summary = record {
    record_count = 1;
    last_event_at_us = none;
    models = [];
    alias = none;
    title = none;
  };
  messages_offset = 10;
  strings_offset = 0;
}

abbrev ingested : Store
ingested = record {
  sessions =
      record {
        id = 1;
        key = key;
        last_ingested_at = 50;
        state = record { messages_offset = 10; strings_offset = 0; summary = chunk.summary };
      }
      ∷ [];
  blobs = record { id = 1; sha256 = address 4; codec = raw; payload = codes "hi" } ∷ [];
  requests =
      record {
        session_id = 1;
        ordinal = 0;
        columns = columns;
        message_refs = 1 ∷ 0 ∷ 0 ∷ 0 ∷ 1 ∷ 0 ∷ 0 ∷ 0 ∷ [];
        system_blob = none;
        tools_blob = none;
        response_blob = some 1;
      }
      ∷ [];
}

ingest_run : ingest_chunk next_ids 50 key chunk empty_store ≡ some ingested
unfolding ingest_chunk greatest elem get put text_beq
ingest_run = refl

history : History next_ids runtime ingested
history = ingests 50 key chunk empty_store ingested created ingest_run

History-IsSound_example : IsSound (database_of ingested)
History-IsSound_example = History-IsSound next_ids runtime ingested next_ids-IsFresh history

written : IsWritten runtime next_ids ingested history
unfolding IsWritten encode history
written = (
  λ c m. elim m [
    | inl e ↦
        (codes "hi", ap (λ (x : ContentBlob). x.codec) e, ap (λ (x : ContentBlob). x.payload) e)
    | inr l ↦ absurd l
  ],
  tt,
)

History-sweep_blobs_example :
    (out : Database × BlobSweep) × (sweep_blobs runtime (database_of ingested) ≡ some out)
History-sweep_blobs_example =
    History-sweep_blobs next_ids runtime ingested history next_ids-IsFresh identity_zlib-IsLossless
      written

History-IsOwned_example : IsOwned ingested
History-IsOwned_example = History-IsOwned next_ids runtime ingested history

ingest_chunk-Stands_example :
    (x : StoredSession) × (q : StoredRequest) × In x ingested.sessions
    × (x.key ≡ key)
    × In q ingested.requests
    × Stands (λ a i. Holds ingested.blobs i a) x.id parsed q
ingest_chunk-Stands_example =
    ingest_chunk-Stands next_ids 50 key chunk empty_store ingested parsed ingest_run (inl refl)

ingest_chunk_state_example :
    (session_state key ingested.sessions ≡ some (state_after chunk (session_state key [])))
    × ((other : SessionKey)
        → key ≢ other
        → session_state other ingested.sessions ≡ session_state other [])
    × ((q : StoredRequest) → In q [] → In q ingested.requests)
    × ((b : Blob) → In b [] → In b ingested.blobs)
ingest_chunk_state_example =
    ingest_chunk_state next_ids 50 key chunk empty_store ingested ingest_run

ingest_chunk_again_example : ingest_chunk next_ids 60 key chunk ingested ≡ none
ingest_chunk_again_example =
    ingest_chunk_again next_ids 50 60 key chunk empty_store ingested parsed (inl refl) ingest_run
