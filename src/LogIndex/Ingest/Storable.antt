-- ===== src/LogIndex/Ingest/Storable.antt =====
-- What the columns of the schema can hold: `INTEGER` and `TEXT` of a STRICT table of
-- 0001_create_log_index.sql, as `sqlite3` binds an `int` and a `str` to them.
use claude_agent_wrap.Prelude.{
  ℤ, pos, negsuc, ℕ, ◌^◌, Bool, true, ◌&&◌, ◌||◌, Option, none, some, List, [], ◌∷◌, ltb, leb, Text,
}
use claude_agent_wrap.Listing.Sessions.{SessionKey}
use claude_agent_wrap.LogIndex.Ingest.{Columns, RequestRecord, SessionSummary, IngestChunk}

-- An integer of more than 64 bits is an `OverflowError`.
unfoldable pub is_count : ℕ → Bool
is_count n = ltb n (2 ^ 63)

unfoldable pub is_integer : ℤ → Bool
unfolding is_count
is_integer (pos n) = is_count n
is_integer (negsuc n) = is_count n

-- A text with a surrogate is no UTF-8: a `UnicodeEncodeError`.
unfoldable pub is_text : Text → Bool
is_text [] = true
is_text (c ∷ cs) = (ltb c 55296 || leb 57344 c) && is_text cs

-- `None` is null.
abbrev pub or_null : {A : Type 0} → (A → Bool) → Option A → Bool
or_null p none = true
or_null p (some a) = p a

unfoldable pub are_columns : Columns → Bool
unfolding is_count is_integer is_text
are_columns c =
    is_text c.model
    && or_null is_integer c.started_at_us
    && or_null is_integer c.first_token_at_us
    && or_null is_integer c.ended_at_us
    && or_null is_text c.agent_id
    && or_null is_text c.finish_reason
    && or_null is_integer c.max_tokens
    && or_null is_text c.error
    && is_count c.input_tokens
    && is_count c.output_tokens
    && is_count c.cache_write_tokens
    && is_count c.cache_write_5m
    && is_count c.cache_write_1h
    && is_count c.cache_read

unfoldable pub are_rows : List RequestRecord → Bool
unfolding are_columns is_count
are_rows [] = true
are_rows (r ∷ rs) = is_count r.ordinal && are_columns r.columns && are_rows rs

unfoldable pub is_key : SessionKey → Bool
unfolding is_text
is_key key = is_text key.project_hash && is_text key.provider && is_text key.claude_session_id

-- The models are a JSON array in ASCII.
unfoldable pub is_summary : SessionSummary → Bool
unfolding is_count is_integer is_text
is_summary s =
    is_count s.record_count
    && or_null is_integer s.last_event_at_us
    && or_null is_text s.alias
    && or_null is_text s.title

-- Whether every value that a chunk binds fits its column.
unfoldable pub is_storable : ℕ → SessionKey → IngestChunk → Bool
unfolding is_count is_key is_summary are_rows
is_storable now key chunk =
    is_key key
    && is_count chunk.messages_offset
    && is_count chunk.strings_offset
    && is_count now
    && is_summary chunk.summary
    && are_rows chunk.requests
