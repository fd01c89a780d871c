-- ===== src/Reader/Retention.antt =====
-- The retention of the logs: `retention_scope` and `_apply_retention` of
-- agent_wrap/domain/logs/service.py. A session's directory is known by its key.
use claude_agent_wrap.Prelude.{
  ℤ, ℕ, ◌+◌, Bool, false, Option, none, some, List, [], ◌∷◌, eqb, length, if◌then◌else◌,
}
use claude_agent_wrap.Listing.Sessions.{SessionKey}
use claude_agent_wrap.LogIndex.Codec.{Bytes}
use claude_agent_wrap.LogIndex.Ingest.{Store, same_key}
use claude_agent_wrap.LogIndex.Ingest.Apply.{SessionWatermark, expired_sessions, delete_sessions}
use claude_agent_wrap.Reader.Session.{LogFiles}

-- The tree of log directories, and what `rmtree` does to one: it is gone, or an `OSError` leaves
-- some of it.
abbrev pub Tree : Type 0
Tree = SessionKey → LogFiles

pub data Removal : Type 0 where
  gone : Removal
  left : LogFiles → Removal

abbrev pub absent : LogFiles
absent = record { messages = none; strings = none }

abbrev pub at_key : SessionKey → LogFiles → Tree → Tree
at_key key files tree k = if same_key k key then files else tree k

pub record ExpiredSession : Type 0 where
  pub key : SessionKey
  pub messages_offset : ℕ
  pub size_bytes : ℕ

pub record RetentionResult : Type 0 where
  pub sessions : ℕ
  pub freed_bytes : ℕ

-- `_fully_indexed`: a file that is not there is not fully indexed.
abbrev pub fully_indexed : Option Bytes → ℕ → Bool
fully_indexed none offset = false
fully_indexed (some file) offset = eqb (length file) offset

-- The survey's loop over the watermarks, with `directory_size` as a parameter.
unfoldable pub survey : (SessionKey → ℕ) → Tree → List SessionWatermark → List ExpiredSession
survey size tree [] = []
survey size tree ((key, offset) ∷ marks) =
    let rest = survey size tree marks in
    if fully_indexed (tree key).messages offset
    then record { key = key; messages_offset = offset; size_bytes = size key } ∷ rest
    else rest

-- `retention_scope`, once the age is a cutoff; 0 days is no retention.
unfoldable pub retention_scope : ℕ → ℤ → (SessionKey → ℕ) → Tree → Store → List ExpiredSession
unfolding survey expired_sessions
retention_scope days cutoff_us size tree s =
    if eqb days 0 then [] else survey size tree (expired_sessions cutoff_us s.sessions)

-- The loop of `_apply_retention`: the tree afterwards, the keys that were deleted, the bytes.
unfoldable pub remove_expired :
    (SessionKey → LogFiles → Removal) → List ExpiredSession → Tree → Tree × List SessionKey × ℕ
remove_expired rmtree [] tree = (tree, [], 0)
remove_expired rmtree (e ∷ es) tree =
    let skipped = remove_expired rmtree es tree in
    if fully_indexed (tree e.key).messages e.messages_offset
    then elim (rmtree e.key (tree e.key)) [
      | gone ↦
          let (tree', keys, freed) = remove_expired rmtree es (at_key e.key absent tree) in
          (tree', e.key ∷ keys, e.size_bytes + freed)
      | left files ↦ remove_expired rmtree es (at_key e.key files tree)
    ]
    else skipped

unfoldable pub apply_retention :
    (SessionKey → LogFiles → Removal)
    → List ExpiredSession
    → Tree
    → Store
    → Tree × Store × RetentionResult
unfolding remove_expired delete_sessions
apply_retention rmtree scope tree s =
    let (tree', keys, freed) = remove_expired rmtree scope tree in
    (tree', delete_sessions keys s, record { sessions = length keys; freed_bytes = freed })
