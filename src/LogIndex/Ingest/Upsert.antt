-- ===== src/LogIndex/Ingest/Upsert.antt =====
-- On `_upsert_session`: the state that it leaves for a session, and the id of the row.
use claude_agent_wrap.Prelude.{
  ℕ, ◌≡◌, ◌≢◌, refl, sym, ap, ◌∙◌, ◌⊎◌, inl, inr, true, false, Option, none, some, List, [], ◌∷◌,
  In, Bool-cases, if◌then◌else◌, arith, text_beq_iff,
}
use claude_agent_wrap.Listing.Sessions.{SessionKey}
use claude_agent_wrap.LogIndex.Ingest.{
  IngestChunk, SessionState, StoredSession, same_key, coalesce, refreshed, upsert_row,
  session_state,
}

pub same_key_self : (key : SessionKey) → same_key key key ≡ true
unfolding same_key
same_key_self key = ground (
  arith,
  (text_beq_iff key.project_hash key.project_hash).1 refl,
  (text_beq_iff key.provider key.provider).1 refl,
  (text_beq_iff key.claude_session_id key.claude_session_id).1 refl,
)

pub same_key-eq : (a b : SessionKey) → same_key a b ≡ true → a ≡ b
unfolding same_key
same_key-eq a b h =
    let p : a.project_hash ≡ b.project_hash =
      (text_beq_iff a.project_hash b.project_hash).0 (ground arith) in
    let q : a.provider ≡ b.provider = (text_beq_iff a.provider b.provider).0 (ground arith) in
    let r : a.claude_session_id ≡ b.claude_session_id =
      (text_beq_iff a.claude_session_id b.claude_session_id).0 (ground arith) in
    λ t. record { project_hash = p t; provider = q t; claude_session_id = r t }

-- The alias and the title that a session has before a chunk.
abbrev alias_before : Option SessionState → Option (List ℕ)
alias_before none = none
alias_before (some st) = st.summary.alias

abbrev title_before : Option SessionState → Option (List ℕ)
title_before none = none
title_before (some st) = st.summary.title

coalesce-none : (a : Option (List ℕ)) → coalesce a none ≡ a
coalesce-none none = refl
coalesce-none (some a) = refl

-- The state that ingest leaves for a session: the chunk's, but an alias or a title that the chunk
-- lacks is the one there was.
abbrev pub state_after : IngestChunk → Option SessionState → SessionState
state_after chunk before = record {
  messages_offset = chunk.messages_offset;
  strings_offset = chunk.strings_offset;
  summary = record chunk.summary {
    alias = coalesce chunk.summary.alias (alias_before before);
    title = coalesce chunk.summary.title (title_before before);
  };
}

state_after-new :
    (chunk : IngestChunk)
    → state_after chunk none ≡ record {
      messages_offset = chunk.messages_offset;
      strings_offset = chunk.strings_offset;
      summary = chunk.summary;
    }
state_after-new chunk = λ t. record {
  messages_offset = chunk.messages_offset;
  strings_offset = chunk.strings_offset;
  summary = record chunk.summary {
    alias = coalesce-none chunk.summary.alias t;
    title = coalesce-none chunk.summary.title t;
  };
}

pub session_state-upsert :
    (new : ℕ) (key : SessionKey) (now : ℕ) (chunk : IngestChunk) (ss : List StoredSession)
    → session_state key (upsert_row new key now chunk ss).0
      ≡ some (state_after chunk (session_state key ss))
unfolding session_state upsert_row refreshed
session_state-upsert new key now chunk [] =
    rw (same_key_self key) (ap some (sym (state_after-new chunk)))
session_state-upsert new key now chunk (s ∷ ss) = elim (Bool-cases (same_key s.key key)) [
  | inl same ↦
      let kept : same_key (refreshed now chunk s).key key ≡ true = same in
      rw (same, kept, session_state, upsert_row) refl
  | inr other ↦
      rw (other, session_state, upsert_row, other) (session_state-upsert new key now chunk ss)
]

pub session_state-upsert_ne :
    (new : ℕ) (key other : SessionKey) (now : ℕ) (chunk : IngestChunk) (ss : List StoredSession)
    → key ≢ other
    → session_state other (upsert_row new key now chunk ss).0 ≡ session_state other ss
unfolding session_state upsert_row refreshed
session_state-upsert_ne new key other now chunk [] ne = elim (Bool-cases (same_key key other)) [
  | inl same ↦ absurd (ne (same_key-eq key other same))
  | inr apart ↦ rw apart refl
]
session_state-upsert_ne new key other now chunk (s ∷ ss) ne =
    elim (Bool-cases (same_key s.key key)) [
      | inr miss ↦
          let rest = session_state-upsert_ne new key other now chunk ss ne in
          rw (miss, session_state, upsert_row)
            (ap (λ x. if same_key s.key other then some s.state else x) rest)
      | inl same ↦ elim (Bool-cases (same_key s.key other)) [
        | inl both ↦ absurd (ne (sym (same_key-eq s.key key same) ∙ same_key-eq s.key other both))
        | inr apart ↦
            let kept : same_key (refreshed now chunk s).key other ≡ false = apart in
            rw (same, kept, session_state, upsert_row) refl
      ]
    ]

-- The id that the upsert returns is that of the row of the session.
pub upsert_row-In :
    (new : ℕ) (key : SessionKey) (now : ℕ) (chunk : IngestChunk) (ss : List StoredSession)
    → (x : StoredSession) × In x (upsert_row new key now chunk ss).0
      × (x.key ≡ key)
      × (x.id ≡ (upsert_row new key now chunk ss).1)
unfolding upsert_row refreshed
upsert_row-In new key now chunk [] = (_, inl refl, refl, refl)
upsert_row-In new key now chunk (s ∷ ss) = elim (Bool-cases (same_key s.key key)) [
  | inl same ↦
      rw (same, upsert_row) (refreshed now chunk s, inl refl, same_key-eq s.key key same, refl)
  | inr other ↦
      let (x, m, e, i) = upsert_row-In new key now chunk ss in
      rw (other, upsert_row) (x, inr m, e, i)
]

-- An upsert that comes later returns the same id.
pub upsert_row-again :
    (new new' : ℕ) (key : SessionKey) (now now' : ℕ) (chunk chunk' : IngestChunk)
    (ss : List StoredSession)
    → (upsert_row new' key now' chunk' (upsert_row new key now chunk ss).0).1
      ≡ (upsert_row new key now chunk ss).1
unfolding upsert_row refreshed
upsert_row-again new new' key now now' chunk chunk' [] = rw (same_key_self key) refl
upsert_row-again new new' key now now' chunk chunk' (s ∷ ss) =
    elim (Bool-cases (same_key s.key key)) [
      | inl same ↦
          let kept : same_key (refreshed now chunk s).key key ≡ true = same in
          rw (same, kept, upsert_row) refl
      | inr other ↦
          rw (other, upsert_row, other) (upsert_row-again new new' key now now' chunk chunk' ss)
    ]

-- That row is a new one, or one that the session had.
pub upsert_row-id :
    (new : ℕ) (key : SessionKey) (now : ℕ) (chunk : IngestChunk) (ss : List StoredSession)
    → ((upsert_row new key now chunk ss).1 ≡ new)
      ⊎ ((x : StoredSession) × In x ss
          × (x.key ≡ key)
          × ((upsert_row new key now chunk ss).1 ≡ x.id))
unfolding upsert_row
upsert_row-id new key now chunk [] = inl refl
upsert_row-id new key now chunk (s ∷ ss) = elim (Bool-cases (same_key s.key key)) [
  | inl same ↦ inr (s, inl refl, same_key-eq s.key key same, rw (same, upsert_row) refl)
  | inr other ↦
      rw (other, upsert_row)
        (elim (upsert_row-id new key now chunk ss) [
          | inl e ↦ inl e
          | inr (x, m, e, i) ↦ inr (x, inr m, e, i)
        ])
]
