-- ===== src/LogIndex/Ingest/Rows.antt =====
-- On `_insert_requests` and `ingest_chunk`: the rows before and after.
use mathlib.Core.Option.{some-injective}
use claude_agent_wrap.Prelude.{
  ℕ, ◌≡◌, refl, sym, ap, subst, ◌∙◌, ◌⊎◌, inl, inr, true, some, >>=-some, List, [], ◌∷◌, map, In,
  Bool-cases, ◌&&◌, text_eq, nat_eq,
}
use claude_agent_wrap.Prelude.Dict.{Dict}
use claude_agent_wrap.Listing.Sessions.{SessionKey}
use claude_agent_wrap.LogIndex.Codec.{Bytes}
use claude_agent_wrap.LogIndex.Sweep.{Blob}
use claude_agent_wrap.LogIndex.Ingest.{
  RequestRecord, IngestChunk, StoredSession, StoredRequest, Store, Ids, upsert_row, insert_blobs,
  blob_ids,
}
use claude_agent_wrap.LogIndex.Ingest.Storable.{is_storable}
use claude_agent_wrap.LogIndex.Ingest.Apply.{
  request_row, allowed, insert_requests, are_digests, ingest_chunk,
}
use claude_agent_wrap.LogIndex.Ingest.Links.{Gives, Stands, request_row-Stands}

module _ (found : Dict Bytes ℕ) (session : ℕ) where
  pub insert_requests-cons :
      (r : RequestRecord) (rs : List RequestRecord) (rows out : List StoredRequest)
      → insert_requests found session (r ∷ rs) rows ≡ some out
      → (q : StoredRequest) × (request_row found session r ≡ some q)
        × (allowed q rows ≡ true)
        × (insert_requests found session rs (q ∷ rows) ≡ some out)
  unfolding insert_requests
  insert_requests-cons r rs rows out h =
      let (q, e, h1) = >>=-some (request_row found session r) _ out h in
      elim (Bool-cases (allowed q rows)) [
        | inl ok ↦ (q, e, ok, rw ok at h1)
        | inr bad ↦ absurd (cc (rw bad at h1))
      ]

  -- Every row afterwards was there, or stands for a request of the chunk.
  pub insert_requests-rows :
      (rs : List RequestRecord) (rows out : List StoredRequest) (q : StoredRequest)
      → insert_requests found session rs rows ≡ some out
      → In q out
      → In q rows ⊎ ((r : RequestRecord) × In r rs × Stands (Gives found) session r q)
  unfolding insert_requests
  insert_requests-rows [] rows out q h m = inl (subst (In q) (sym (some-injective rows out h)) m)
  insert_requests-rows (r ∷ rs) rows out q h m =
      let (p, e, _, h1) = insert_requests-cons r rs rows out h in
      elim (insert_requests-rows rs (p ∷ rows) out q h1 m) [
        | inl (inl s) ↦
            inr (r, inl refl, request_row-Stands found session r q (e ∙ ap some (sym s)))
        | inl (inr old) ↦ inl old
        | inr (t, n, s) ↦ inr (t, inr n, s)
      ]

  -- No row is changed or lost.
  pub insert_requests-keeps :
      (rs : List RequestRecord) (rows out : List StoredRequest) (q : StoredRequest)
      → insert_requests found session rs rows ≡ some out
      → In q rows
      → In q out
  unfolding insert_requests
  insert_requests-keeps [] rows out q h m = subst (In q) (some-injective rows out h) m
  insert_requests-keeps (r ∷ rs) rows out q h m =
      let (p, e, _, h1) = insert_requests-cons r rs rows out h in
      insert_requests-keeps rs (p ∷ rows) out q h1 (inr m)

  -- Every request of the chunk has a row.
  pub insert_requests-adds :
      (rs : List RequestRecord) (rows out : List StoredRequest) (r : RequestRecord)
      → insert_requests found session rs rows ≡ some out
      → In r rs
      → (q : StoredRequest) × In q out × Stands (Gives found) session r q
  unfolding insert_requests
  insert_requests-adds [] rows out r h m = absurd m
  insert_requests-adds (t ∷ rs) rows out r h (inl s) =
      let (p, e, _, h1) = insert_requests-cons t rs rows out h in
      (
        p,
        insert_requests-keeps rs (p ∷ rows) out p h1 (inl refl),
        subst (λ x. Stands (Gives found) session x p) (sym s)
            (request_row-Stands found session t p e),
      )
  insert_requests-adds (t ∷ rs) rows out r h (inr m) =
      let (p, e, _, h1) = insert_requests-cons t rs rows out h in
      insert_requests-adds rs (p ∷ rows) out r h1 m

abbrev pub session_after : Ids → ℕ → SessionKey → IngestChunk → Store → List StoredSession × ℕ
session_after ids now key chunk s =
    upsert_row (ids.fresh (map (λ (x : StoredSession). x.id) s.sessions)) key now chunk s.sessions

abbrev pub blobs_after : Ids → IngestChunk → Store → List Blob
blobs_after ids chunk s = insert_blobs ids chunk.blobs s.blobs

-- What a chunk that is applied leaves.
pub record Applied (ids : Ids) (now : ℕ) (key : SessionKey) (chunk : IngestChunk) (s s' : Store)
    : Type 0 where
  pub sessions_eq : s'.sessions ≡ (session_after ids now key chunk s).0
  pub blobs_eq : s'.blobs ≡ blobs_after ids chunk s
  pub requests_eq :
      insert_requests
        (blob_ids (blobs_after ids chunk s) chunk)
        (session_after ids now key chunk s).1
        chunk.requests
        s.requests
      ≡ some s'.requests

pub ingest_chunk-Applied :
    (ids : Ids) (now : ℕ) (key : SessionKey) (chunk : IngestChunk) (s s' : Store)
    → ingest_chunk ids now key chunk s ≡ some s'
    → Applied ids now key chunk s s'
unfolding ingest_chunk
ingest_chunk-Applied ids now key chunk s s' h =
    elim (Bool-cases (are_digests chunk.blobs && is_storable now key chunk)) [
      | inr bad ↦ absurd (cc (rw (bad, ingest_chunk) at h))
      | inl ok ↦
          let (rows, e, h1) = >>=-some _ _ s' (rw (ok, ingest_chunk) at h) in
          subst (Applied ids now key chunk s) (some-injective _ s' h1)
            (record { sessions_eq = refl; blobs_eq = refl; requests_eq = e })
    ]
