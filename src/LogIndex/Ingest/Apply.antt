-- ===== src/LogIndex/Ingest/Apply.antt =====
-- The writes of `LogIngestRepository`, one transaction each: `none` is an exception, after which
-- the tables are as they were.
use claude_agent_wrap.Prelude.{
  ℤ, ltz, ℕ, ◌+◌, Bool, true, false, not, ◌&&◌, Option, none, some, ◌>>=◌, List, [], ◌∷◌, eqb, leb,
  any, keep, length, map, elem, if◌then◌else◌, Text, text_beq, text_eq, nat_eq,
}
use claude_agent_wrap.Prelude.Dict.{Dict, get}
use claude_agent_wrap.Listing.Sessions.{SessionKey}
use claude_agent_wrap.LogIndex.Codec.{Bytes, pack_ids}
use claude_agent_wrap.LogIndex.Ingest.Storable.{is_storable}
use claude_agent_wrap.LogIndex.Ingest.{
  ContentBlob, Columns, RequestRecord, IngestChunk, StoredSession, StoredRequest, Store, Ids,
  same_key, upsert_row, insert_blobs, blob_ids,
}

-- `blob_ids[address]` for each of a list: `none` is a `KeyError`.
unfoldable pub ids_of : Dict Bytes ℕ → List Bytes → Option (List ℕ)
unfolding get
ids_of found [] = some []
ids_of found (a ∷ as') = do i ← get a found; rest ← ids_of found as'; some (i ∷ rest)

-- `blob_id`
unfoldable pub id_of : Dict Bytes ℕ → Option Bytes → Option (Option ℕ)
unfolding get
id_of found none = some none
id_of found (some a) = do i ← get a found; some (some i)

-- The row of a request. An id that does not fit in 32 bits is an `OverflowError`.
unfoldable pub request_row : Dict Bytes ℕ → ℕ → RequestRecord → Option StoredRequest
unfolding ids_of id_of pack_ids
request_row found session r = do
  refs ← ids_of found r.message_addresses
  packed ← pack_ids refs
  system ← id_of found r.system_address
  tools ← id_of found r.tools_address
  response ← id_of found r.response_address
  some (record {
    session_id = session;
    ordinal = r.ordinal;
    columns = r.columns;
    message_refs = packed;
    system_blob = system;
    tools_blob = tools;
    response_blob = response;
  })

-- `UNIQUE (session_id, ordinal)`, and the check that a split is no wider than its total.
abbrev pub same_slot : StoredRequest → StoredRequest → Bool
same_slot q r = eqb q.session_id r.session_id && eqb q.ordinal r.ordinal

abbrev pub split_fits : Columns → Bool
split_fits c = leb (c.cache_write_5m + c.cache_write_1h) c.cache_write_tokens

abbrev pub allowed : StoredRequest → List StoredRequest → Bool
allowed q rows = split_fits q.columns && not (any (same_slot q) rows)

-- `_insert_requests`
unfoldable pub insert_requests :
    Dict Bytes ℕ → ℕ → List RequestRecord → List StoredRequest → Option (List StoredRequest)
unfolding request_row
insert_requests found session [] rows = some rows
insert_requests found session (r ∷ rs) rows = do
  q ← request_row found session r
  if allowed q rows then insert_requests found session rs (q ∷ rows) else none

-- `CHECK (length(sha256) = 32)`
unfoldable pub are_digests : List ContentBlob → Bool
are_digests [] = true
are_digests (b ∷ bs) = eqb (length b.sha256) 32 && are_digests bs

-- `ingest_chunk`, at the time `now`. What a statement cannot bind or the schema does not allow is an
-- exception wherever it comes, after which all is rolled back, so that the tests may come first.
unfoldable pub ingest_chunk : Ids → ℕ → SessionKey → IngestChunk → Store → Option Store
unfolding upsert_row insert_blobs blob_ids insert_requests are_digests is_storable
ingest_chunk ids now key chunk s =
    let (sessions, session) =
      upsert_row (ids.fresh (map (λ (x : StoredSession). x.id) s.sessions)) key now chunk
        s.sessions in
    let blobs = insert_blobs ids chunk.blobs s.blobs in
    if not (are_digests chunk.blobs && is_storable now key chunk)
    then none
    else insert_requests (blob_ids blobs chunk) session chunk.requests s.requests >>= λ rows.
        some (record { sessions = sessions; blobs = blobs; requests = rows })

-- `DELETE FROM sessions WHERE …`, with its cascade.
unfoldable pub delete_where : (StoredSession → Bool) → Store → Store
delete_where gone s = record s {
  sessions = keep (λ x. not (gone x)) s.sessions;
  requests =
      keep (λ q. not (elem q.session_id (map (λ (x : StoredSession). x.id) (keep gone s.sessions))))
        s.requests;
}

unfoldable pub reset_session : SessionKey → Store → Store
unfolding delete_where same_key
reset_session key = delete_where (λ x. same_key x.key key)

unfoldable pub delete_projects : List Text → Store → Store
unfolding delete_where
delete_projects [] s = s
delete_projects (hash ∷ hashes) s =
    delete_projects hashes (delete_where (λ x. text_beq x.key.project_hash hash) s)

unfoldable pub delete_sessions : List SessionKey → Store → Store
unfolding reset_session
delete_sessions [] s = s
delete_sessions (key ∷ keys) s = delete_sessions keys (reset_session key s)

abbrev pub SessionWatermark : Type 0
SessionWatermark = SessionKey × ℕ

unfoldable pub watermarks : List StoredSession → List SessionWatermark
watermarks [] = []
watermarks (x ∷ xs) = (x.key, x.state.messages_offset) ∷ watermarks xs

-- `last_event_at_us IS NOT NULL AND last_event_at_us < ?`
abbrev pub older : ℤ → Option ℤ → Bool
older cutoff none = false
older cutoff (some us) = ltz us cutoff

unfoldable pub expired_sessions : ℤ → List StoredSession → List SessionWatermark
unfolding watermarks
expired_sessions cutoff_us xs =
    watermarks (keep (λ x. older cutoff_us x.state.summary.last_event_at_us) xs)
