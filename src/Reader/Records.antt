-- ===== src/Reader/Records.antt =====
-- The fields of one record: agent_wrap/domain/logs/normalize.py.
use claude_agent_wrap.Prelude.{
  Bool, false, ◌||◌, Option, none, some, ◌∷◌, if◌then◌else◌, Text, text_beq, codes,
}
use claude_agent_wrap.LogIndex.Ingest.{UsageSource, native, standard_logging_object, unrecoverable}
use claude_agent_wrap.Reader.Json.{
  Json, str, arr, obj, cons, Fields, end, field, Runtime, find, fields_or_empty, text_of,
}

pub record ExtractedFields : Type 0 where
  pub data' : Fields
  pub agent_id : Option Text
  pub reply : Fields
  pub usage : Fields
  pub finish_reason : Option Text

-- `body["data"] if isinstance(body.get("data"), dict) else body`
unfoldable pub body_data : Json → Fields
unfolding find
body_data (obj body) = elim (find (codes "data") body) [ obj inner ↦ inner | _ ↦ body ]
body_data _ = end

-- A text that is not empty.
abbrev pub some_text : Option Text → Option Text
some_text (some (c ∷ t)) = some (c ∷ t)
some_text _ = none

abbrev pub first_choice : Json → Fields
first_choice (arr (cons first more)) = fields_or_empty first
first_choice _ = end

unfoldable pub extract_record_fields : Fields → ExtractedFields
unfolding find body_data
extract_record_fields rec =
    let request = fields_or_empty (find (codes "request") rec) in
    let headers = fields_or_empty (find (codes "headers") request) in
    let response = fields_or_empty (find (codes "response") rec) in
    let first = first_choice (find (codes "choices") response) in
    record {
      data' = body_data (find (codes "body") request);
      agent_id = some_text (text_of (find (codes "x-claude-code-agent-id") headers));
      reply = fields_or_empty (find (codes "message") first);
      usage = fields_or_empty (find (codes "usage") response);
      finish_reason = text_of (find (codes "finish_reason") first);
    }

-- `usage_source`
unfoldable pub source_named : Json → UsageSource
source_named (str s) =
    if text_beq s (codes "standard_logging_object")
    then standard_logging_object
    else if text_beq s (codes "unrecoverable")
    then unrecoverable
    else native
source_named _ = native

unfoldable pub usage_source : Fields → UsageSource
unfolding find source_named
usage_source rec = elim (find (codes "response") rec) [
  | obj response ↦ source_named (find (codes "_usage_source") response)
  | _ ↦ unrecoverable
]

-- `_response_content_str`
unfoldable pub response_content_str : Json → Option Text
unfolding find
response_content_str (obj response) =
    let first = first_choice (find (codes "choices") response) in
    elim (text_of (find (codes "content") (fields_or_empty (find (codes "message") first)))) [
      | some content ↦ some content
      | none ↦ text_of (find (codes "text") first)
    ]
response_content_str _ = none

-- Whether the key is there at all.
unfoldable pub has_key : Text → Fields → Bool
has_key key end = false
has_key key (field k v fs) = text_beq k key || has_key key fs

module _ (rt : Runtime) where
  -- What `extract_alias` and `extract_title` do with a content, by their key and their expression.
  unfoldable pub name_in : Text → (Text → Option Text) → Text → Option Text
  unfolding find
  name_in key search stripped = elim (rt.loads_text stripped) [
    | none ↦ elim (search stripped) [ none ↦ none | some group ↦ some_text (some (rt.strip group)) ]
    | some (obj fs) ↦ elim (text_of (find key fs)) [
      | none ↦ none
      | some name ↦ some_text (some (rt.strip name))
    ]
    | some _ ↦ none
  ]

  -- `rec["response"]` of a record without one is a `KeyError`: `none`.
  unfoldable pub extract_named : Text → (Text → Option Text) → Fields → Option (Option Text)
  unfolding find has_key response_content_str name_in
  extract_named key search rec =
      if has_key (codes "response") rec
      then some (elim (some_text (response_content_str (find (codes "response") rec))) [
        | none ↦ none
        | some content ↦ name_in key search (rt.strip content)
      ])
      else none

  unfoldable pub extract_alias : Fields → Option (Option Text)
  unfolding extract_named
  extract_alias = extract_named (codes "name") rt.search_name

  unfoldable pub extract_title : Fields → Option (Option Text)
  unfolding extract_named
  extract_title = extract_named (codes "title") rt.search_title
