-- ===== src/LogIndex/Ingest/Effect.antt =====
-- What `ingest_chunk` leaves in the tables for the chunk that it was given.
use claude_agent_wrap.Prelude.{
  ℕ, ◌≡◌, ◌≢◌, sym, ap, subst, ◌∙◌, inl, inr, true, none, some, List, [], ◌∷◌, map, In,
  Option-cases, arith, any,
}
use claude_agent_wrap.Prelude.Dict.{Dict}
use claude_agent_wrap.Listing.Sessions.{SessionKey}
use claude_agent_wrap.LogIndex.Codec.{Bytes}
use claude_agent_wrap.LogIndex.Sweep.{Blob}
use claude_agent_wrap.LogIndex.Ingest.{
  RequestRecord, IngestChunk, StoredSession, StoredRequest, Store, Ids, upsert_row, session_state,
  blob_ids,
}
use claude_agent_wrap.LogIndex.Ingest.Apply.{same_slot, insert_requests, ingest_chunk}
use claude_agent_wrap.LogIndex.Ingest.Blobs.{Holds, insert_blobs-keeps}
use claude_agent_wrap.LogIndex.Ingest.Lookup.{blob_ids-Holds}
use claude_agent_wrap.LogIndex.Ingest.Upsert.{
  state_after, session_state-upsert, session_state-upsert_ne, upsert_row-In, upsert_row-again,
}
use claude_agent_wrap.LogIndex.Ingest.Links.{Gives, Stands, Stands-map, request_row-Stands}
use claude_agent_wrap.LogIndex.Ingest.Rows.{
  ingest_chunk-Applied, session_after, blobs_after, insert_requests-adds, insert_requests-keeps,
  insert_requests-cons,
}

-- After a chunk is applied, each request of it has a row under the session's own: the columns are the
-- request's, the vector unpacks to ids of blobs with the request's message addresses in their order,
-- and each of the three blob columns is the id of a blob with the request's address, or null for
-- none.
pub ingest_chunk-Stands :
    (ids : Ids) (now : ℕ) (key : SessionKey) (chunk : IngestChunk) (s s' : Store)
    (r : RequestRecord)
    → ingest_chunk ids now key chunk s ≡ some s'
    → In r chunk.requests
    → (x : StoredSession) × (q : StoredRequest) × In x s'.sessions
      × (x.key ≡ key)
      × In q s'.requests
      × Stands (λ a i. Holds s'.blobs i a) x.id r q
ingest_chunk-Stands ids now key chunk s s' r h m =
    let after = ingest_chunk-Applied ids now key chunk s s' h in
    let (x, n, e, i) = upsert_row-In _ key now chunk s.sessions in
    let (q, l, stands) =
      insert_requests-adds _ _ chunk.requests s.requests s'.requests r after.requests_eq m in
    (
      x,
      q,
      subst (In x) (sym after.sessions_eq) n,
      e,
      l,
      subst (λ j. Stands (λ a k. Holds s'.blobs k a) j r q) (sym i)
          (Stands-map (Gives (blob_ids (blobs_after ids chunk s) chunk)) (λ a k. Holds s'.blobs k a)
            _ r q
            (λ a k g.
              subst (λ (bs : List Blob). Holds bs k a) (sym after.blobs_eq)
                (blob_ids-Holds (blobs_after ids chunk s) chunk a k g))
            stands),
    )

-- After a chunk is applied, ingest resumes from the offsets and the summary of the chunk, with the
-- alias and the title that there were where the chunk has none; the state of every other session is
-- what it was; and no request and no blob is lost.
pub ingest_chunk_state :
    (ids : Ids) (now : ℕ) (key : SessionKey) (chunk : IngestChunk) (s s' : Store)
    → ingest_chunk ids now key chunk s ≡ some s'
    → (session_state key s'.sessions ≡ some (state_after chunk (session_state key s.sessions)))
      × ((other : SessionKey)
          → key ≢ other
          → session_state other s'.sessions ≡ session_state other s.sessions)
      × ((q : StoredRequest) → In q s.requests → In q s'.requests)
      × ((b : Blob) → In b s.blobs → In b s'.blobs)
ingest_chunk_state ids now key chunk s s' h =
    let after = ingest_chunk-Applied ids now key chunk s s' h in
    (
      ap (session_state key) after.sessions_eq ∙ session_state-upsert _ key now chunk s.sessions,
      λ other ne.
          ap (session_state other) after.sessions_eq
          ∙ session_state-upsert_ne _ key other now chunk s.sessions ne,
      λ q m. insert_requests-keeps _ _ chunk.requests s.requests s'.requests q after.requests_eq m,
      λ b m. subst (In b) (sym after.blobs_eq) (insert_blobs-keeps ids chunk.blobs s.blobs b m),
    )

any-In :
    (p : StoredRequest) (q : StoredRequest) (rows : List StoredRequest)
    → In q rows
    → p.session_id ≡ q.session_id
    → p.ordinal ≡ q.ordinal
    → any (same_slot p) rows ≡ true
any-In p q [] m e f = absurd m
any-In p q (x ∷ rows) (inl same) e f =
    let g : p.session_id ≡ x.session_id = e ∙ ap (λ (y : StoredRequest). y.session_id) same in
    let k : p.ordinal ≡ x.ordinal = f ∙ ap (λ (y : StoredRequest). y.ordinal) same in ground arith
any-In p q (x ∷ rows) (inr m) e f = ground (arith, any-In p q rows m e f)

insert_requests-taken :
    (found : Dict Bytes ℕ) (session : ℕ) (r : RequestRecord) (rs : List RequestRecord)
    (rows : List StoredRequest) (q : StoredRequest)
    → In r rs
    → In q rows
    → q.session_id ≡ session
    → q.ordinal ≡ r.ordinal
    → insert_requests found session rs rows ≡ none
insert_requests-taken found session r [] rows q n m e f = absurd n
insert_requests-taken found session r (t ∷ rs) rows q n m e f =
    elim (Option-cases (insert_requests found session (t ∷ rs) rows)) [
      | inl refused ↦ refused
      | inr (out, g) ↦
          let (p, made, ok, more) = insert_requests-cons found session t rs rows out g in
          elim n [
            | inl same ↦
                let stands = request_row-Stands found session t p made in
                let there =
                  any-In p q rows m (stands.same_session ∙ sym e)
                    (stands.same_ordinal ∙ sym (f ∙ ap (λ (x : RequestRecord). x.ordinal) same)) in
                absurd (ground (arith, there))
            | inr later ↦ absurd (
                cc (
                  sym more
                  ∙ insert_requests-taken found session r rs (p ∷ rows) q later (inr m) e f))
          ]
    ]

-- A chunk with a request is refused when it is presented again, at whatever time.
pub ingest_chunk_again :
    (ids : Ids) (now now' : ℕ) (key : SessionKey) (chunk : IngestChunk) (s s' : Store)
    (r : RequestRecord)
    → In r chunk.requests
    → ingest_chunk ids now key chunk s ≡ some s'
    → ingest_chunk ids now' key chunk s' ≡ none
ingest_chunk_again ids now now' key chunk s s' r n h =
    elim (Option-cases (ingest_chunk ids now' key chunk s')) [
      | inl refused ↦ refused
      | inr (s2, h2) ↦
          let after = ingest_chunk-Applied ids now key chunk s s' h in
          let again = ingest_chunk-Applied ids now' key chunk s' s2 h2 in
          let (q, m, stands) =
            insert_requests-adds _ _ chunk.requests s.requests s'.requests r after.requests_eq n in
          let same_row : (session_after ids now' key chunk s').1
              ≡ (session_after ids now key chunk s).1 =
            ap
              (λ (ss : List StoredSession).
                (upsert_row (ids.fresh (map (λ (x : StoredSession). x.id) s'.sessions)) key now'
                  chunk ss).1)
              after.sessions_eq
            ∙ upsert_row-again _ _ key now now' chunk chunk s.sessions in
          let none_left =
            insert_requests-taken (blob_ids (blobs_after ids chunk s') chunk)
              (session_after ids now' key chunk s').1 r chunk.requests s'.requests q n m
              (stands.same_session ∙ sym same_row) stands.same_ordinal in
          absurd (cc (sym again.requests_eq ∙ none_left))
    ]
