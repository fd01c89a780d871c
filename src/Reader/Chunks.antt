-- ===== src/Reader/Chunks.antt =====
-- `read_ingest_chunks` and what it calls: the lines of the two files of a session become chunks.
-- The two files are what they held when they were read, the messages first.
use claude_agent_wrap.Prelude.{
  ℤ, ℕ, suc, ◌+◌, ◌*◌, Bool, true, false, ◌&&◌, ◌||◌, Option, none, some, ◌>>=◌, List, [], ◌∷◌,
  ◌++◌, leb, eqb, length, drop, elem, if◌then◌else◌, Text, text_eq, text_lt, codes,
}
use claude_agent_wrap.Listing.Sessions.{sort_by}
use claude_agent_wrap.Stats.Fold.{after_last_slash}
use claude_agent_wrap.LogIndex.Codec.{Bytes}
use claude_agent_wrap.LogIndex.Ingest.{RequestRecord, SessionSummary, IngestChunk, SessionState}
use claude_agent_wrap.Reader.Json.{
  Json, str, obj, Fields, Runtime, find, text_of, to_micros, fields_or,
}
use claude_agent_wrap.Reader.Records.{extract_alias, extract_title}
use claude_agent_wrap.Reader.Parser.{
  Accumulator, empty_accumulator, taken, add_interned_string, parse,
}

-- What `for raw_line in handle` goes through: a line keeps its newline, the last may lack one.
abbrev pub onto_line : ℕ → List Bytes → List Bytes
onto_line b [] = (b ∷ []) ∷ []
onto_line b (l ∷ ls) = (b ∷ l) ∷ ls

unfoldable pub split_lines : Bytes → List Bytes
split_lines [] = []
split_lines (b ∷ bs) =
    let rest = split_lines bs in if eqb b b'\n' then (b ∷ []) ∷ rest else onto_line b rest

-- `raw_line.endswith(b"\n")`
unfoldable pub is_complete : Bytes → Bool
is_complete [] = false
is_complete (b ∷ []) = eqb b b'\n'
is_complete (b ∷ c ∷ bs) = is_complete (c ∷ bs)

-- `_SummaryAccumulator` and its snapshot, whose models are sorted.
abbrev pub add_model : Text → List Text → List Text
add_model m models = if elem m models then models else m ∷ models

abbrev pub or_old : Option Text → Option Text → Option Text
or_old none old = old
or_old (some t) old = some t

abbrev pub last_event : Option ℤ → Option ℤ → Option ℤ
last_event none old = old
last_event (some us) old = some us

abbrev pub models_with : Json → List Text → List Text
models_with (str m) models = add_model (after_last_slash m) models
models_with _ models = models

unfoldable pub snapshot : SessionSummary → SessionSummary
unfolding sort_by
snapshot summary = record summary { models = sort_by text_lt summary.models }

pub record Limits : Type 0 where
  pub max_records : ℕ
  pub max_payload_bytes : ℕ

abbrev pub chunk_limits : Limits
chunk_limits = record { max_records = 200; max_payload_bytes = 8 * 1024 * 1024 }

-- The variables of `read_ingest_chunks` between two lines.
pub record Pass : Type 0 where
  pub offset : ℕ
  pub ordinal : ℕ
  pub blobs : Accumulator
  pub summary : SessionSummary
  pub records : List RequestRecord

-- `offset += len(raw_line)`
abbrev pub advanced : Bytes → Pass → Pass
advanced line p = record p { offset = p.offset + length line }

abbrev pub chunk_of : Pass → ℕ → IngestChunk
chunk_of p strings_offset = record {
  blobs = p.blobs.pending;
  requests = p.records;
  summary = snapshot p.summary;
  messages_offset = p.offset;
  strings_offset = strings_offset;
}

-- What is left after a chunk is cut.
abbrev pub emptied : Pass → Pass
emptied p = record p { blobs = taken p.blobs; records = [] }

unfoldable pub is_full : Limits → Pass → Bool
is_full limits p =
    leb limits.max_records (length p.records) || leb limits.max_payload_bytes p.blobs.pending_bytes

-- The cut after a line: only a record can make a chunk full.
unfoldable pub cut : Limits → ℕ → Pass × Bool → List IngestChunk × Pass
unfolding is_full
cut limits strings_offset (p, grown) =
    if grown && is_full limits p then (chunk_of p strings_offset ∷ [], emptied p) else ([], p)

abbrev pub strings_past : Option Bytes → ℕ → List Bytes
strings_past none offset = []
strings_past (some file) offset = split_lines (drop offset file)

-- The last chunk, unless there is nothing new.
unfoldable pub last_chunk : ℕ → Pass → ℕ × Accumulator → List IngestChunk
last_chunk old p (strings_offset, blobs) =
    if eqb (length p.records) 0 && (eqb blobs.pending_bytes 0 && eqb strings_offset old)
    then []
    else chunk_of (record p { blobs = blobs }) strings_offset ∷ []

abbrev pub start : SessionState → Pass
start state = record {
  offset = state.messages_offset;
  ordinal = state.summary.record_count;
  blobs = empty_accumulator;
  summary = state.summary;
  records = [];
}

-- The chunks of the lines, and then what is yielded after them unless the lines raised.
abbrev pub ended :
    List IngestChunk → Option Pass → (Pass → List IngestChunk) → List IngestChunk × Bool
ended chunks none after = (chunks, false)
ended chunks (some p) after = (chunks ++ after p, true)

module _ (rt : Runtime) where
  -- `observe`: `none` is an exception.
  unfoldable pub observe : Fields → SessionSummary → Option SessionSummary
  unfolding find fields_or to_micros extract_alias extract_title after_last_slash elem
  observe rec summary = do
    timing ← fields_or rt (find (codes "timing") rec)
    end ← to_micros rt (find (codes "end") timing)
    alias ← extract_alias rt rec
    title ← extract_title rt rec
    some (record {
      record_count = suc summary.record_count;
      last_event_at_us = last_event end summary.last_event_at_us;
      models = models_with (find (codes "model") rec) summary.models;
      alias = or_old alias summary.alias;
      title = or_old title summary.title;
    })

  -- The record of a line, if it has one: a line that is blank or no JSON object has none.
  unfoldable pub record_of : Bytes → Option Fields
  record_of line = elim (rt.strip_bytes line) [
    | [] ↦ none
    | (b ∷ stripped) ↦ elim (rt.loads (b ∷ stripped)) [ some (obj rec) ↦ some rec | _ ↦ none ]
  ]

  -- `_parse_line` and the lines after its call: the pass, and whether a record was appended.
  unfoldable pub take_record : Fields → Pass → Option (Pass × Bool)
  unfolding observe parse
  take_record rec p = do
    summary ← observe rec p.summary
    out ← parse rt rec p.ordinal p.blobs
    some (
      record {
        offset = p.offset;
        ordinal = suc p.ordinal;
        blobs = out.1;
        summary = summary;
        records = p.records ++ (out.0 ∷ []);
      },
      true,
    )

  unfoldable pub take_line : Bytes → Pass → Option (Pass × Bool)
  unfolding record_of take_record
  take_line line p = elim (record_of line) [
    | none ↦ some (advanced line p, false)
    | some rec ↦ take_record rec (advanced line p)
  ]

  -- The loop over the lines: the chunks that are yielded, and the pass at its end; `none` is an
  -- exception, after those chunks.
  unfoldable pub read_lines : Limits → ℕ → List Bytes → Pass → List IngestChunk × Option Pass
  unfolding is_complete take_line cut
  read_lines limits strings_offset [] p = ([], some p)
  read_lines limits strings_offset (line ∷ lines) p =
      if is_complete line
      then elim (take_line line p) [
        | none ↦ ([], none)
        | some out ↦
            let (chunks, p') = cut limits strings_offset out in
            let (more, end) = read_lines limits strings_offset lines p' in (chunks ++ more, end)
      ]
      else ([], some p)

  -- One line of the strings file.
  unfoldable pub string_entry : Fields → Accumulator → Accumulator
  unfolding find add_interned_string
  string_entry entry blobs = elim (text_of (find (codes "hash") entry)) [
    | none ↦ blobs
    | some pointer ↦ elim (text_of (find (codes "original") entry)) [
      | none ↦ blobs
      | some original ↦ add_interned_string rt pointer original blobs
    ]
  ]

  unfoldable pub string_line : Bytes → Accumulator → Accumulator
  unfolding record_of string_entry
  string_line line blobs = elim (record_of line) [
    | none ↦ blobs
    | some entry ↦ string_entry entry blobs
  ]

  -- `_read_strings`, on the lines past the offset.
  unfoldable pub read_strings : List Bytes → ℕ → Accumulator → ℕ × Accumulator
  unfolding is_complete string_line
  read_strings [] offset blobs = (offset, blobs)
  read_strings (line ∷ lines) offset blobs =
      let rest = read_strings lines (offset + length line) (string_line line blobs) in
      if is_complete line then rest else (offset, blobs)

  -- `read_ingest_chunks`, of the messages and the strings of a session: the chunks, and whether the
  -- reading ended without an exception.
  unfoldable pub read_ingest_chunks :
      Limits → Option Bytes → Option Bytes → SessionState → List IngestChunk × Bool
  unfolding split_lines read_lines read_strings last_chunk
  read_ingest_chunks limits none strings state = ([], true)
  read_ingest_chunks limits (some messages) strings state =
      let (chunks, end) =
        read_lines limits state.strings_offset (split_lines (drop state.messages_offset messages))
          (start state) in
      ended chunks end (λ p.
        last_chunk state.strings_offset p
          (read_strings (strings_past strings state.strings_offset) state.strings_offset p.blobs))
