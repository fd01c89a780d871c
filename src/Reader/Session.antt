-- ===== src/Reader/Session.antt =====
-- `LogService._ingest_session` of agent_wrap/domain/logs/service.py: the chunks of one session are
-- read and applied, one transaction each.
use claude_agent_wrap.Prelude.{
  ℕ, suc, ◌+◌, Bool, true, false, not, ◌&&◌, ◌||◌, Option, none, some, List, [], ◌∷◌, eqb, ltb,
  length, if◌then◌else◌,
}
use claude_agent_wrap.Listing.Sessions.{SessionKey}
use claude_agent_wrap.LogIndex.Codec.{Bytes}
use claude_agent_wrap.LogIndex.Ingest.{IngestChunk, SessionState, Store, Ids, session_state}
use claude_agent_wrap.LogIndex.Ingest.Apply.{ingest_chunk, reset_session}
use claude_agent_wrap.Reader.Json.{Runtime}
use claude_agent_wrap.Reader.Chunks.{Limits, read_ingest_chunks}

-- The two files of a session; `none` is one that is not there.
pub record LogFiles : Type 0 where
  pub messages : Option Bytes
  pub strings : Option Bytes

-- `SessionState.unseen()`
abbrev pub unseen : SessionState
unseen = record {
  messages_offset = 0;
  strings_offset = 0;
  summary = record {
    record_count = 0;
    last_event_at_us = none;
    models = [];
    alias = none;
    title = none;
  };
}

abbrev pub shrunk : Option Bytes → ℕ → Bool
shrunk none offset = false
shrunk (some file) offset = not (eqb offset 0) && ltb (length file) offset

unfoldable pub is_truncated : LogFiles → SessionState → Bool
is_truncated files state =
    shrunk files.messages state.messages_offset || shrunk files.strings state.strings_offset

pub record IngestReport : Type 0 where
  pub sessions_seen : ℕ
  pub sessions_changed : ℕ
  pub sessions_reset : ℕ
  pub records_ingested : ℕ

abbrev pub as_count : Bool → ℕ
as_count b = if b then 1 else 0

abbrev pub any_chunk : List IngestChunk → Bool
any_chunk [] = false
any_chunk (c ∷ cs) = true

unfoldable pub count_records : List IngestChunk → ℕ
count_records [] = 0
count_records (c ∷ cs) = length c.requests + count_records cs

-- Where the reading starts: the tables, the state, and whether the session was forgotten.
unfoldable pub resume : SessionKey → LogFiles → Store → Store × SessionState × Bool
unfolding session_state is_truncated reset_session
resume key files s = elim (session_state key s.sessions) [
  | none ↦ (s, unseen, false)
  | some state ↦
      if is_truncated files state then (reset_session key s, unseen, true) else (s, state, false)
]

-- The chunks applied one after the other, and whether all of them were: an exception leaves what was
-- committed. `clock` gives the time of each transaction.
unfoldable pub apply_chunks :
    Ids → (ℕ → ℕ) → ℕ → SessionKey → List IngestChunk → Store → Store × Bool
unfolding ingest_chunk
apply_chunks ids clock k key [] s = (s, true)
apply_chunks ids clock k key (c ∷ cs) s = elim (ingest_chunk ids (clock k) key c s) [
  | none ↦ (s, false)
  | some s' ↦ apply_chunks ids clock (suc k) key cs s'
]

-- The tables afterwards, and the report; `none` is an exception.
unfoldable pub ingest_session :
    Runtime → Limits → Ids → (ℕ → ℕ) → SessionKey → LogFiles → Store → Store × Option IngestReport
unfolding resume read_ingest_chunks apply_chunks count_records
ingest_session rt limits ids clock key files s =
    let (base, state, was_reset) = resume key files s in
    let (chunks, read) = read_ingest_chunks rt limits files.messages files.strings state in
    let (s', applied) = apply_chunks ids clock 0 key chunks base in
    (
      s',
      if applied && read
          then some (record {
            sessions_seen = 1;
            sessions_changed = as_count (any_chunk chunks || was_reset);
            sessions_reset = as_count was_reset;
            records_ingested = count_records chunks;
          })
          else none,
    )
