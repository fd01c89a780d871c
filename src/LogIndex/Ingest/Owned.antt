-- ===== src/LogIndex/Ingest/Owned.antt =====
-- The foreign key of `requests`, with its `ON DELETE CASCADE`, through the writes of the index.
use claude_agent_wrap.Prelude.{
  ℕ, ◌≡◌, sym, ap, subst, ◌∙◌, inl, inr, Bool, true, not, some, List, [], ◌∷◌, map, keep, elem, In,
  In-map, In-elem, Bool-cases, nat_eq, Text,
}
use claude_agent_wrap.Listing.Sessions.{SessionKey}
use claude_agent_wrap.LogIndex.Sweep.{Runtime}
use claude_agent_wrap.LogIndex.Ingest.{
  IngestChunk, StoredSession, StoredRequest, Store, Ids, same_key, refreshed, upsert_row,
}
use claude_agent_wrap.LogIndex.Ingest.Apply.{
  ingest_chunk, delete_where, reset_session, delete_projects, delete_sessions,
}
use claude_agent_wrap.LogIndex.Ingest.Blobs.{map-In}
use claude_agent_wrap.LogIndex.Ingest.Rows.{
  ingest_chunk-Applied, session_after, insert_requests-rows,
}
use claude_agent_wrap.LogIndex.Ingest.Upsert.{upsert_row-In}
use claude_agent_wrap.LogIndex.Ingest.History.{
  History, created, ingests, resets, drops_projects, drops_sessions, sweeps,
}

abbrev ids_in : List StoredSession → List ℕ
ids_in = map (λ (x : StoredSession). x.id)

-- Every request is that of a session.
abbrev pub IsOwned : Store → Type 0
IsOwned s =
    (q : StoredRequest)
    → In q s.requests
    → In q.session_id (map (λ (x : StoredSession). x.id) s.sessions)

upsert_row-ids :
    (new : ℕ) (key : SessionKey) (now : ℕ) (chunk : IngestChunk) (ss : List StoredSession) (i : ℕ)
    → In i (ids_in ss)
    → In i (ids_in (upsert_row new key now chunk ss).0)
unfolding upsert_row refreshed
upsert_row-ids new key now chunk [] i m = absurd m
upsert_row-ids new key now chunk (s ∷ ss) i m = elim (Bool-cases (same_key s.key key)) [
  | inl same ↦ rw (same, upsert_row) m
  | inr other ↦
      rw (other, upsert_row)
        (elim m [ inl e ↦ inl e | inr l ↦ inr (upsert_row-ids new key now chunk ss i l) ])
]

pub ingest_chunk-IsOwned :
    (ids : Ids) (now : ℕ) (key : SessionKey) (chunk : IngestChunk) (s s' : Store)
    → IsOwned s
    → ingest_chunk ids now key chunk s ≡ some s'
    → IsOwned s'
ingest_chunk-IsOwned ids now key chunk s s' owned h q m =
    let after = ingest_chunk-Applied ids now key chunk s s' h in
    subst (λ ss. In q.session_id (ids_in ss)) (sym after.sessions_eq)
      (elim (insert_requests-rows _ _ chunk.requests s.requests s'.requests q after.requests_eq m) [
        | inl old ↦ upsert_row-ids _ key now chunk s.sessions q.session_id (owned q old)
        | inr (r, _, stands) ↦
            let (x, l, _, e) =
              upsert_row-In (ids.fresh (ids_in s.sessions)) key now chunk s.sessions in
            subst (λ i. In i (ids_in (session_after ids now key chunk s).0))
              (e ∙ sym stands.same_session) (In-map (λ (y : StoredSession). y.id) x _ l)
      ])

In-keep :
    {A : Type 0} (p : A → Bool) (a : A) (xs : List A) → In a xs → p a ≡ true → In a (keep p xs)
In-keep p a [] m h = m
In-keep p a (x ∷ xs) (inl e) h = rw (subst (λ y. p y ≡ true) e h) (inl e)
In-keep p a (x ∷ xs) (inr m) h = elim (Bool-cases (p x)) [
  | inl good ↦ rw good (inr (In-keep p a xs m h))
  | inr bad ↦ rw bad (In-keep p a xs m h)
]

pub keep-both :
    {A : Type 0} (p : A → Bool) (a : A) (xs : List A) → In a (keep p xs) → In a xs × (p a ≡ true)
keep-both p a [] m = absurd m
keep-both p a (x ∷ xs) m = elim (Bool-cases (p x)) [
  | inl good ↦ elim (rw good at m) [
    | inl e ↦ (inl e, subst (λ y. p y ≡ true) (sym e) good)
    | inr l ↦ let (n, h) = keep-both p a xs l in (inr n, h)
  ]
  | inr bad ↦ let (n, h) = keep-both p a xs (rw bad at m) in (inr n, h)
]

delete_where-IsOwned :
    (gone : StoredSession → Bool) (s : Store) → IsOwned s → IsOwned (delete_where gone s)
unfolding delete_where
delete_where-IsOwned gone s owned q m =
    let dead = ids_in (keep gone s.sessions) in
    let (old, alive) =
      keep-both (λ (y : StoredRequest). not (elem y.session_id dead)) q s.requests m in
    let (x, l, e) = map-In (λ (y : StoredSession). y.id) q.session_id s.sessions (owned q old) in
    elim (Bool-cases (gone x)) [
      | inl lost ↦
          let there : elem q.session_id dead ≡ true = In-elem q.session_id dead (
            subst (λ i. In i dead) (sym e)
              (In-map (λ (y : StoredSession). y.id) x _ (In-keep gone x s.sessions l lost))) in
          absurd (cc (sym alive ∙ ap not there))
      | inr stays ↦
          subst (λ i. In i (ids_in (keep (λ y. not (gone y)) s.sessions))) (sym e)
            (In-map (λ (y : StoredSession). y.id) x _
              (In-keep (λ y. not (gone y)) x s.sessions l (ap not stays)))
    ]

delete_projects-IsOwned :
    (hashes : List Text) (s : Store) → IsOwned s → IsOwned (delete_projects hashes s)
unfolding delete_projects
delete_projects-IsOwned [] s owned = owned
delete_projects-IsOwned (hash ∷ hashes) s owned =
    delete_projects-IsOwned hashes _ (delete_where-IsOwned _ s owned)

pub reset_session-IsOwned :
    (key : SessionKey) (s : Store) → IsOwned s → IsOwned (reset_session key s)
unfolding reset_session
reset_session-IsOwned key s owned = delete_where-IsOwned _ s owned

delete_sessions-IsOwned :
    (keys : List SessionKey) (s : Store) → IsOwned s → IsOwned (delete_sessions keys s)
unfolding delete_sessions
delete_sessions-IsOwned [] s owned = owned
delete_sessions-IsOwned (key ∷ keys) s owned =
    delete_sessions-IsOwned keys _ (reset_session-IsOwned key s owned)

-- Whatever chunks were applied and whatever was deleted or swept, in any order, every request that
-- is stored is that of a session that is stored.
pub History-IsOwned : (ids : Ids) (rt : Runtime) (s : Store) → History ids rt s → IsOwned s
History-IsOwned ids rt _ created = λ q m. absurd m
History-IsOwned ids rt _ (ingests now key chunk s s' h e) =
    ingest_chunk-IsOwned ids now key chunk s s' (History-IsOwned ids rt s h) e
History-IsOwned ids rt _ (resets key s h) = reset_session-IsOwned key s (History-IsOwned ids rt s h)
History-IsOwned ids rt _ (drops_projects hashes s h) =
    delete_projects-IsOwned hashes s (History-IsOwned ids rt s h)
History-IsOwned ids rt _ (drops_sessions keys s h) =
    delete_sessions-IsOwned keys s (History-IsOwned ids rt s h)
History-IsOwned ids rt _ (sweeps s db report h e) = History-IsOwned ids rt s h
