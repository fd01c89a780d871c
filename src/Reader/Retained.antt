-- ===== src/Reader/Retained.antt =====
-- On the retention of the logs: what a run leaves as it was.
use claude_agent_wrap.Prelude.{
  ℕ, ◌≡◌, ◌≢◌, refl, sym, ap, subst, ◌∙◌, ◌⊎◌, inl, inr, true, false, not, Option, none, some, List,
  [], ◌∷◌, eqb, eqb_iff, length, drop, keep, In, Bool-cases,
}
use claude_agent_wrap.Listing.Sessions.{SessionKey}
use claude_agent_wrap.LogIndex.Codec.{Bytes}
use claude_agent_wrap.LogIndex.Ingest.{StoredSession, Store, same_key, session_state}
use claude_agent_wrap.LogIndex.Ingest.Apply.{delete_where, reset_session, delete_sessions}
use claude_agent_wrap.LogIndex.Ingest.Upsert.{same_key-eq}
use claude_agent_wrap.Reader.Session.{LogFiles}
use claude_agent_wrap.Reader.Retention.{
  Tree, Removal, gone, left, absent, at_key, ExpiredSession, fully_indexed, remove_expired,
  apply_retention,
}

same_key_ne : (a b : SessionKey) → a ≢ b → same_key a b ≡ false
same_key_ne a b ne = elim (Bool-cases (same_key a b)) [
  | inl same ↦ absurd (ne (same_key-eq a b same))
  | inr other ↦ other
]

session_state-keep :
    (key other : SessionKey) (ss : List StoredSession)
    → key ≢ other
    → session_state other (keep (λ x. not (same_key x.key key)) ss) ≡ session_state other ss
unfolding session_state
session_state-keep key other [] ne = refl
session_state-keep key other (x ∷ ss) ne = elim (Bool-cases (same_key x.key key)) [
  | inl same ↦
      let away : same_key x.key other ≡ false =
        same_key_ne x.key other (λ p. ne (sym (same_key-eq x.key key same) ∙ p)) in
      rw same (rw away (session_state-keep key other ss ne))
  | inr stays ↦ rw stays (elim (Bool-cases (same_key x.key other)) [
    | inl here ↦ rw here
    | inr there ↦ rw there (session_state-keep key other ss ne)
  ])
]

session_state-delete_sessions :
    (keys : List SessionKey) (key : SessionKey) (s : Store)
    → (In key keys → ⊥)
    → session_state key (delete_sessions keys s).sessions ≡ session_state key s.sessions
unfolding delete_sessions reset_session delete_where
session_state-delete_sessions [] key s out = refl
session_state-delete_sessions (k ∷ keys) key s out =
    session_state-delete_sessions keys key (reset_session k s) (λ m. out (inr m))
    ∙ session_state-keep k key s.sessions (λ p. out (inl (sym p)))

drop_all : (xs : Bytes) → drop (length xs) xs ≡ []
drop_all [] = refl
drop_all (x ∷ xs) = drop_all xs

fully_indexed_unread :
    (file : Option Bytes) (offset : ℕ)
    → ((f : Bytes) → file ≡ some f → drop offset f ≢ [])
    → fully_indexed file offset ≡ false
fully_indexed_unread none offset unread = refl
fully_indexed_unread (some f) offset unread = elim (Bool-cases (eqb (length f) offset)) [
  | inl same ↦
      absurd (
        unread f refl
          (subst (λ n. drop n f ≡ []) ((eqb_iff (length f) offset).0 same) (drop_all f)))
  | inr other ↦ other
]

at_key_ne :
    (key other : SessionKey) (files : LogFiles) (tree : Tree)
    → key ≢ other
    → at_key key files tree other ≡ tree other
at_key_ne key other files tree ne = rw (same_key_ne other key (λ p. ne (sym p)))

Removal-cases : (r : Removal) → (r ≡ gone) ⊎ ((files : LogFiles) × (r ≡ left files))
Removal-cases gone = inl refl
Removal-cases (left files) = inr (files, refl)

-- What `remove_expired` leaves as it was.
abbrev Spared : SessionKey → Tree → Tree × List SessionKey × ℕ → Type 0
Spared key tree out = (out.0 key ≡ tree key) × (In key out.1 → ⊥)

remove_expired-Spared :
    (rmtree : SessionKey → LogFiles → Removal) (scope : List ExpiredSession) (tree : Tree)
    (key : SessionKey)
    → ((e : ExpiredSession)
        → In e scope
        → e.key ≡ key
        → fully_indexed (tree key).messages e.messages_offset ≡ false)
    → Spared key tree (remove_expired rmtree scope tree)
unfolding remove_expired
remove_expired-Spared rmtree [] tree key unread = (refl, λ m. m)
remove_expired-Spared rmtree (e ∷ es) tree key unread =
    let differs : fully_indexed (tree e.key).messages e.messages_offset ≡ true → e.key ≢ key =
      λ read p. cc (
        read,
        unread e (inl refl) p,
        ap (λ k. fully_indexed (tree k).messages e.messages_offset) p,
      ) in
    let elsewhere : fully_indexed (tree e.key).messages e.messages_offset ≡ true
        → (files : LogFiles)
        → Spared key tree (remove_expired rmtree es (at_key e.key files tree)) =
      λ read files.
        let same : at_key e.key files tree key ≡ tree key =
          at_key_ne e.key key files tree (differs read) in
        let rest = remove_expired-Spared rmtree es (at_key e.key files tree) key (λ x m p.
          ap (λ t. fully_indexed t.messages x.messages_offset) same ∙ unread x (inr m) p) in
        (rest.0 ∙ same, rest.1) in
    elim (Bool-cases (fully_indexed (tree e.key).messages e.messages_offset)) [
      | inr skip ↦ rw skip (remove_expired-Spared rmtree es tree key (λ x m. unread x (inr m)))
      | inl read ↦ rw read (elim (Removal-cases (rmtree e.key (tree e.key))) [
        | inl went ↦ rw went (
          (elsewhere read absent).0,
          λ m. elim m [ inl p ↦ differs read (sym p) | inr i ↦ (elsewhere read absent).1 i ],
        )
        | inr (files, kept) ↦ rw kept (elsewhere read files)
      ])
    ]

-- Where every entry of the scope for a session leaves some of its messages file unread, or there
-- is no such file, a run of the retention neither touches the session's directory nor its state
-- in the index, whatever `rmtree` does to the other directories.
pub apply_retention-unread :
    (rmtree : SessionKey → LogFiles → Removal) (scope : List ExpiredSession) (tree : Tree)
    (s : Store) (key : SessionKey)
    → ((e : ExpiredSession)
        → In e scope
        → e.key ≡ key
        → (f : Bytes) → (tree key).messages ≡ some f
        → drop e.messages_offset f ≢ [])
    → ((apply_retention rmtree scope tree s).0 key ≡ tree key)
      × (session_state key (apply_retention rmtree scope tree s).1.sessions
          ≡ session_state key s.sessions)
unfolding apply_retention
apply_retention-unread rmtree scope tree s key unread =
    let spared : Spared key tree (remove_expired rmtree scope tree) =
      remove_expired-Spared rmtree scope tree key
        (λ e m p. fully_indexed_unread (tree key).messages e.messages_offset (unread e m p)) in
    (spared.0, session_state-delete_sessions (remove_expired rmtree scope tree).1 key s spared.1)
