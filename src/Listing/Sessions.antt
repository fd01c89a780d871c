-- ===== src/Listing/Sessions.antt =====
-- `merge_sessions`, `fingerprint` and `rows_by_hash` over the session rows of the index.
use Prim.Native.Nat.{max}
use claude_agent_wrap.Prelude.{
  ℕ, ◌+◌, Bool, ◌&&◌, ◌||◌, Option, none, some, List, [], ◌∷◌, ◌++◌, eqb, length, elem,
  if◌then◌else◌, Text, text_beq, text_eq, text_lt,
}
use claude_agent_wrap.Prelude.Dict.{Dict, get, put, update, values}
use claude_agent_wrap.Prelude.Floats.{Floats}

pub record SessionKey : Type 0 where
  pub project_hash : Text
  pub provider : Text
  pub claude_session_id : Text

pub record SessionRow : Type 0 where
  pub key : SessionKey
  pub alias : Option Text
  pub title : Option Text
  pub last_event_at_us : Option ℕ
  pub last_ingested_ns : ℕ
  pub record_count : ℕ
  pub models : List Text

-- A tuple of texts is compared from its first part on.
unfoldable pub key_lt : SessionKey → SessionKey → Bool
key_lt a b =
    text_lt a.project_hash b.project_hash
    || (text_beq a.project_hash b.project_hash
        && (text_lt a.provider b.provider
            || (text_beq a.provider b.provider && text_lt a.claude_session_id b.claude_session_id)))

-- `sorted`, with the test for "comes before": what is equal keeps its order.
unfoldable pub insert_by : {A : Type 0} → (A → A → Bool) → A → List A → List A
insert_by before x [] = x ∷ []
insert_by before x (y ∷ ys) =
    let rest = insert_by before x ys in if before y x then y ∷ rest else x ∷ y ∷ ys

unfoldable pub sort_by : {A : Type 0} → (A → A → Bool) → List A → List A
unfolding insert_by
sort_by before [] = []
sort_by before (x ∷ xs) = insert_by before x (sort_by before xs)

-- `set(a) | set(b)`, as a list without repetition.
unfoldable pub union : List Text → List Text → List Text
union [] seen = seen
union (x ∷ xs) seen = let rest = union xs seen in if elem x rest then rest else x ∷ rest

-- `a or b`, of texts that may be missing: an empty one gives way too.
unfoldable pub or_text : Option Text → Option Text → Option Text
or_text none b = b
or_text (some []) b = b
or_text (some (c ∷ s)) b = some (c ∷ s)

-- `rev` and `count` of `Fingerprint`.
pub record Fingerprint : Type 0 where
  pub rev : Option ℕ
  pub count : ℕ

unfoldable pub newest : ℕ → List SessionRow → ℕ
newest rev [] = rev
newest rev (r ∷ rows) = newest (max rev r.last_ingested_ns) rows

unfoldable pub fingerprint : List SessionRow → Fingerprint
unfolding newest
fingerprint [] = record { rev = none; count = 0 }
fingerprint (r ∷ rows) = record {
  rev = some (newest r.last_ingested_ns rows);
  count = length (r ∷ rows);
}

unfoldable pub group_rows :
    List SessionRow → Dict Text (List SessionRow) → Dict Text (List SessionRow)
unfolding update
group_rows [] grouped = grouped
group_rows (r ∷ rows) grouped =
    group_rows rows (update r.key.project_hash [] (λ old. old ++ (r ∷ [])) grouped)

unfoldable pub rows_by_hash : List SessionRow → Dict Text (List SessionRow)
unfolding group_rows
rows_by_hash rows = group_rows rows []

module _ (fl : Floats) where
  open fl use {Num, zero, of_nat, over, below}

  pub record CombinedSessionMeta : Type 0 where
    pub session_id : Text
    pub alias : Option Text
    pub title : Option Text
    pub count : ℕ
    pub last_ts : Option Num
    pub models : List Text
    pub providers : List Text

  -- `_seconds`
  unfoldable pub seconds : Option ℕ → Option Num
  seconds none = none
  seconds (some micros) = some (over (of_nat micros) (of_nat 1_000_000))

  unfoldable pub first_meta : SessionRow → CombinedSessionMeta
  unfolding seconds sort_by
  first_meta row = record {
    session_id = row.key.claude_session_id;
    alias = row.alias;
    title = row.title;
    count = row.record_count;
    last_ts = seconds row.last_event_at_us;
    models = sort_by text_lt row.models;
    providers = row.key.provider ∷ [];
  }

  unfoldable pub later : Option Num → Option Num → Option Num
  later existing none = existing
  later none (some ts) = some ts
  later (some old) (some ts) = if below old ts then some ts else some old

  -- The end of the loop's body: a row is merged into the entry that its session has.
  unfoldable pub join_meta : CombinedSessionMeta → SessionRow → CombinedSessionMeta
  unfolding later seconds sort_by union or_text
  join_meta existing row = record {
    session_id = existing.session_id;
    alias = or_text existing.alias row.alias;
    title = or_text existing.title row.title;
    count = existing.count + row.record_count;
    last_ts = later existing.last_ts (seconds row.last_event_at_us);
    models = sort_by text_lt (union existing.models (union row.models []));
    providers =
        if elem row.key.provider existing.providers
        then existing.providers
        else sort_by text_lt (existing.providers ++ (row.key.provider ∷ []));
  }

  abbrev pub Merged : Type 0
  Merged = Dict Text CombinedSessionMeta

  unfoldable pub merge_row : SessionRow → Merged → Merged
  unfolding first_meta join_meta get put
  merge_row row merged = elim (get row.key.claude_session_id merged) [
    | none ↦ put row.key.claude_session_id (first_meta row) merged
    | some existing ↦ put row.key.claude_session_id (join_meta existing row) merged
  ]

  -- The loop, which skips a row without records.
  unfoldable pub merge_rows : List SessionRow → Merged → Merged
  unfolding merge_row
  merge_rows [] merged = merged
  merge_rows (row ∷ rows) merged =
      merge_rows rows (if eqb row.record_count 0 then merged else merge_row row merged)

  abbrev pub recency : CombinedSessionMeta → Num
  recency meta = elim meta.last_ts [ none ↦ zero | some ts ↦ ts ]

  unfoldable pub merge_sessions : List SessionRow → List CombinedSessionMeta
  unfolding merge_rows sort_by
  merge_sessions rows =
      sort_by (λ a b. below (recency b) (recency a))
        (values (merge_rows (sort_by (λ a b. key_lt a.key b.key) rows) []))
