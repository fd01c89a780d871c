-- ===== src/Reader/Parser.antt =====
-- `RecordParser` and `_BlobAccumulator`: a record becomes a row's worth of columns, and its content
-- goes by address into the blobs of the pass.
use claude_agent_wrap.Prelude.{
  ℕ, ◌+◌, ◌/◌, ◌%◌, Option, none, some, ◌>>=◌, List, [], ◌∷◌, ◌++◌, ltb, length, elem,
  if◌then◌else◌, Text, text_beq, text_eq, codes,
}
use claude_agent_wrap.LogIndex.Codec.{Bytes, encode}
use claude_agent_wrap.LogIndex.Pointers.{after_prefix}
use claude_agent_wrap.LogIndex.Ingest.{ContentBlob, success, failure, Columns, RequestRecord}
use claude_agent_wrap.Reader.Json.{
  Json, null, str, arr, obj, Items, nil, cons, Fields, end, field, Runtime, find, fields_or_empty,
  text_of, int_of, non_negative_int, truthy, to_micros, canonical_bytes, or_else, fields_or,
}
use claude_agent_wrap.Reader.Records.{extract_record_fields, usage_source}

-- `_BlobAccumulator`; the set of the addresses that were seen is a list.
pub record Accumulator : Type 0 where
  pub seen : List Bytes
  pub pending : List ContentBlob
  pub pending_bytes : ℕ

abbrev pub empty_accumulator : Accumulator
empty_accumulator = record { seen = []; pending = []; pending_bytes = 0 }

-- What `take` leaves.
abbrev pub taken : Accumulator → Accumulator
taken blobs = record { seen = blobs.seen; pending = []; pending_bytes = 0 }

unfoldable pub cache_split : Fields → ℕ × ℕ
unfolding find
cache_split usage =
    let details = fields_or_empty (find (codes "prompt_tokens_details") usage) in
    let split = fields_or_empty (find (codes "cache_creation_token_details") details) in
    (
      non_negative_int (find (codes "ephemeral_5m_input_tokens") split),
      non_negative_int (find (codes "ephemeral_1h_input_tokens") split),
    )

-- A split wider than the total is dropped.
abbrev pub fitted : ℕ → ℕ × ℕ → ℕ × ℕ
fitted total (five, hour) = if ltb total (five + hour) then (0, 0) else (five, hour)

-- The list that `for m in value` goes through: `none` is a `TypeError`.
unfoldable pub items_list : Items → List Json
items_list nil = []
items_list (cons x xs) = x ∷ items_list xs

unfoldable pub keys_list : Fields → List Json
keys_list end = []
keys_list (field k v fs) = str k ∷ keys_list fs

unfoldable pub characters : Text → List Json
characters [] = []
characters (c ∷ t) = str (c ∷ []) ∷ characters t

abbrev hex_digit : ℕ → ℕ
hex_digit n = if ltb n 10 then b'0' + n else 87 + n

-- `address.hex()`
unfoldable pub hex : Bytes → Text
hex [] = []
hex (b ∷ bs) = hex_digit (b / 16) ∷ hex_digit (b % 16) ∷ hex bs

module _ (rt : Runtime) where
  -- `value or []`, gone through.
  unfoldable pub iterated : Json → Option (List Json)
  unfolding items_list keys_list characters truthy
  iterated (arr xs) = some (items_list xs)
  iterated (obj fs) = some (keys_list fs)
  iterated (str t) = some (characters t)
  iterated value = if truthy rt value then none else some []

  -- `_intern`
  unfoldable pub intern : Bytes → Bytes → Accumulator → Accumulator
  unfolding elem encode
  intern address raw blobs = if elem address blobs.seen then blobs else record {
    seen = address ∷ blobs.seen;
    pending =
        blobs.pending
        ++ (record {
          sha256 = address;
          codec = (encode rt.zlib raw).0;
          payload = (encode rt.zlib raw).1;
        }
            ∷ []);
    pending_bytes = blobs.pending_bytes + length (encode rt.zlib raw).1;
  }

  abbrev pub address_of : Json → Bytes
  address_of value = rt.sha256 (canonical_bytes rt value)

  -- `add_value`
  unfoldable pub add_value : Json → Accumulator → Accumulator
  unfolding canonical_bytes intern
  add_value value blobs =
      intern (rt.sha256 (canonical_bytes rt value)) (canonical_bytes rt value) blobs

  unfoldable pub add_values : List Json → Accumulator → Accumulator
  unfolding add_value
  add_values [] blobs = blobs
  add_values (v ∷ vs) blobs = add_values vs (add_value v blobs)

  unfoldable pub addresses_of : List Json → List Bytes
  unfolding canonical_bytes
  addresses_of [] = []
  addresses_of (v ∷ vs) = rt.sha256 (canonical_bytes rt v) ∷ addresses_of vs

  -- `add_optional`: the accumulator, and the address.
  unfoldable pub add_optional : Json → Accumulator → Accumulator
  unfolding add_value
  add_optional null blobs = blobs
  add_optional value blobs = add_value value blobs

  unfoldable pub optional_address : Json → Option Bytes
  unfolding canonical_bytes
  optional_address null = none
  optional_address value = some (rt.sha256 (canonical_bytes rt value))

  unfoldable pub add_interned_string : Text → Text → Accumulator → Accumulator
  unfolding hex after_prefix intern
  add_interned_string pointer original blobs =
      let raw = rt.encode_utf8 original in
      let digits : Text = elim (after_prefix (codes "hash:") pointer) [
        | none ↦ pointer
        | some rest ↦ rest
      ] in
      if text_beq (hex (rt.sha256 raw)) digits then intern (rt.sha256 raw) raw blobs else blobs

  -- The columns of a record, without its content.
  unfoldable pub columns_of : Fields → Option Columns
  unfolding extract_record_fields usage_source find to_micros cache_split or_else fields_or
  columns_of rec = do
    timing ← fields_or rt (find (codes "timing") rec)
    started ← to_micros rt (find (codes "start") timing)
    first ← to_micros rt (find (codes "completionStart") timing)
    ended ← to_micros rt (find (codes "end") timing)
    let fields = extract_record_fields rec
    let usage = fields.usage
    let total = non_negative_int (find (codes "cache_creation_input_tokens") usage)
    let split = fitted total (cache_split usage)
    some (record {
      status = elim (find (codes "status") rec) [
        | str s ↦ if text_beq s (codes "success") then success else failure
        | _ ↦ failure
      ];
      model = elim (find (codes "model") rec) [ str m ↦ m | _ ↦ [] ];
      usage_source = usage_source rec;
      started_at_us = started;
      first_token_at_us = first;
      ended_at_us = ended;
      agent_id = fields.agent_id;
      finish_reason = fields.finish_reason;
      max_tokens = int_of (find (codes "max_tokens") fields.data');
      error = text_of (find (codes "error") rec);
      input_tokens =
          non_negative_int
            (or_else rt (find (codes "input_tokens") usage) (find (codes "prompt_tokens") usage));
      output_tokens = non_negative_int (
          or_else rt (find (codes "output_tokens") usage) (find (codes "completion_tokens") usage));
      cache_write_tokens = total;
      cache_write_5m = split.0;
      cache_write_1h = split.1;
      cache_read = non_negative_int (find (codes "cache_read_input_tokens") usage);
    })

  -- `data.get("tools") or None`
  abbrev pub or_none : Json → Json
  or_none value = if truthy rt value then value else null

  -- `RecordParser.parse`: `none` is an exception.
  unfoldable pub parse : Fields → ℕ → Accumulator → Option (RequestRecord × Accumulator)
  unfolding columns_of iterated add_values addresses_of add_optional optional_address
      extract_record_fields find truthy
  parse rec ordinal blobs = do
    columns ← columns_of rec
    let fields = extract_record_fields rec
    messages ← iterated (find (codes "messages") fields.data')
    let system = find (codes "system") fields.data'
    let tools = or_none (find (codes "tools") fields.data')
    let response = find (codes "response") rec
    some (
      record {
        ordinal = ordinal;
        columns = columns;
        message_addresses = addresses_of messages;
        system_address = optional_address system;
        tools_address = optional_address tools;
        response_address = optional_address response;
      },
      add_optional response (add_optional tools (add_optional system (add_values messages blobs))),
    )
