-- ===== src/Reader/Applied.antt =====
-- On `_ingest_session`: the reader and the index together.
use mathlib.Core.Option.{some-injective}
use claude_agent_wrap.Prelude.{
  ℕ, suc, ◌+◌, ◌^◌, ◌≡◌, ◌≤◌, ◌<◌, refl, sym, ap, subst, ◌∙◌, ◌⊎◌, inl, inr, true, some, List, [],
  ◌∷◌, ◌++◌, length, map, elem, text_eq, nat_eq, In, In-split, Bool-cases, arith, sum_by,
}
use claude_agent_wrap.Listing.Sessions.{SessionKey}
use claude_agent_wrap.LogIndex.Codec.{Bytes}
use claude_agent_wrap.LogIndex.Sweep.{Blob}
use claude_agent_wrap.LogIndex.Ingest.{
  ContentBlob, RequestRecord, IngestChunk, SessionState, StoredSession, StoredRequest, Store, Ids,
  IsFresh, same_key, refreshed, upsert_row, session_state, insert_blob, insert_blobs,
}
use claude_agent_wrap.LogIndex.Ingest.Storable.{is_storable}
use claude_agent_wrap.LogIndex.Ingest.Apply.{ingest_chunk}
use claude_agent_wrap.LogIndex.Ingest.Blobs.{Has, map-In, insert_blobs-Has, insert_blobs-keeps}
use claude_agent_wrap.LogIndex.Ingest.Rows.{ingest_chunk-Applied, insert_requests-rows, blobs_after}
use claude_agent_wrap.LogIndex.Ingest.Upsert.{state_after, session_state-upsert}
use claude_agent_wrap.LogIndex.Ingest.Returns.{Consecutive, next, ingest_chunk_total}
use claude_agent_wrap.LogIndex.Ingest.Owned.{IsOwned, ingest_chunk-IsOwned}
use claude_agent_wrap.Reader.Ready.{IsReady, AreReady, nothing, one_more}
use claude_agent_wrap.Reader.Session.{apply_chunks}

-- SQLite gives a new row an id that no row has, and at most one more than the greatest.
pub record IsNext (ids : Ids) : Type 0 where
  pub fresh : IsFresh ids
  pub fresh-below : (used : List ℕ) (m : ℕ) → ((i : ℕ) → In i used → i ≤ m) → ids.fresh used ≤ suc m

-- The ordinals of a session's requests are below `n`.
abbrev pub AreBelow : SessionKey → ℕ → Store → Type 0
AreBelow key n s =
    (x : StoredSession) (q : StoredRequest)
    → In x s.sessions
    → x.key ≡ key
    → In q s.requests
    → q.session_id ≡ x.id
    → q.ordinal < n

upsert_row-back :
    (new : ℕ) (key : SessionKey) (now : ℕ) (chunk : IngestChunk) (ss : List StoredSession)
    (x : StoredSession)
    → In x (upsert_row new key now chunk ss).0
    → (x.id ≡ new) ⊎ ((y : StoredSession) × In y ss × (y.key ≡ x.key) × (y.id ≡ x.id))
unfolding upsert_row refreshed
upsert_row-back new key now chunk [] x (inl e) = inl (ap (λ (z : StoredSession). z.id) e)
upsert_row-back new key now chunk [] x (inr m) = absurd m
upsert_row-back new key now chunk (s ∷ ss) x m = elim (Bool-cases (same_key s.key key)) [
  | inl same ↦ elim (rw (same, upsert_row) at m) [
    | inl e ↦ inr (
      s,
      inl refl,
      ap (λ (z : StoredSession). z.key) (sym e),
      ap (λ (z : StoredSession). z.id) (sym e),
    )
    | inr l ↦ inr (x, inr l, refl, refl)
  ]
  | inr other ↦ elim (rw (other, upsert_row) at m) [
    | inl e ↦ inr (
      s,
      inl refl,
      ap (λ (z : StoredSession). z.key) (sym e),
      ap (λ (z : StoredSession). z.id) (sym e),
    )
    | inr l ↦ elim (upsert_row-back new key now chunk ss x l) [
      | inl f ↦ inl f
      | inr (y, n, k, i) ↦ inr (y, inr n, k, i)
    ]
  ]
]

Consecutive-In :
    (n : ℕ) (rs : List RequestRecord) (r : RequestRecord)
    → Consecutive n rs
    → In r rs
    → r.ordinal < n + length rs
Consecutive-In n [] r c m = absurd m
Consecutive-In n (t ∷ rs) r (next _ _ c) (inl e) =
    let f : r.ordinal ≡ t.ordinal = ap (λ (z : RequestRecord). z.ordinal) e in omega arith
Consecutive-In n (t ∷ rs) r (next _ _ c) (inr m) =
    let low = Consecutive-In (suc t.ordinal) rs r c m in omega arith

-- After a chunk the session's ordinals are below the number that follows those of the chunk.
ingest_chunk-AreBelow :
    (ids : Ids) (now n : ℕ) (key : SessionKey) (chunk : IngestChunk) (s s' : Store)
    → IsFresh ids
    → IsOwned s
    → AreBelow key n s
    → Consecutive n chunk.requests
    → ingest_chunk ids now key chunk s ≡ some s'
    → AreBelow key (n + length chunk.requests) s'
ingest_chunk-AreBelow ids now n key chunk s s' new owned below c h x q m k l e =
    let after = ingest_chunk-Applied ids now key chunk s s' h in
    let used = map (λ (y : StoredSession). y.id) s.sessions in
    elim (insert_requests-rows _ _ chunk.requests s.requests s'.requests q after.requests_eq l) [
      | inr (r, there, stands) ↦
          subst (λ o. o < n + length chunk.requests) (sym stands.same_ordinal)
            (Consecutive-In n chunk.requests r c there)
      | inl old ↦
          elim (upsert_row-back (ids.fresh used) key now chunk s.sessions x
            (subst (In x) after.sessions_eq m)) [
              | inl created ↦
                  absurd (new.fresh-new used (subst (λ i. In i used) (e ∙ created) (owned q old)))
              | inr (y, o, same, i) ↦
                  let low = below y q o (same ∙ k) old (e ∙ sym i) in omega arith
            ]
    ]

insert_blob-below :
    (ids : Ids) (c : ContentBlob) (blobs : List Blob) (m : ℕ)
    → IsNext ids
    → ((b : Blob) → In b blobs → b.id ≤ m)
    → (b : Blob) → In b (insert_blob ids c blobs)
    → b.id ≤ suc m
unfolding insert_blob
insert_blob-below ids c blobs m nx small b l =
    elim (Bool-cases (elem c.sha256 (map (λ (x : Blob). x.sha256) blobs))) [
      | inl there ↦ let low = small b (rw (there, insert_blob) at l) in omega arith
      | inr absent ↦ elim (rw (absent, insert_blob) at l) [
        | inr old ↦ let low = small b old in omega arith
        | inl e ↦
            subst (λ i. i ≤ suc m) (sym (ap (λ (x : Blob). x.id) e))
              (nx.fresh-below (map (λ (x : Blob). x.id) blobs) m (λ i n.
                let (x, o, f) = map-In (λ (x : Blob). x.id) i blobs n in
                subst (λ j. j ≤ m) (sym f) (small x o)))
      ]
    ]

insert_blobs-below :
    (ids : Ids) (cs : List ContentBlob) (blobs : List Blob) (m : ℕ)
    → IsNext ids
    → ((b : Blob) → In b blobs → b.id ≤ m)
    → (b : Blob) → In b (insert_blobs ids cs blobs)
    → b.id ≤ m + length cs
unfolding insert_blobs
insert_blobs-below ids [] blobs m nx small b l = let low = small b l in omega arith
insert_blobs-below ids (c ∷ cs) blobs m nx small b l =
    let low =
      insert_blobs-below ids cs (insert_blob ids c blobs) (suc m) nx
        (insert_blob-below ids c blobs m nx small) b l in
    omega arith

-- The tables are ready for the chunks that a pass yields.
pub record IsFit (key : SessionKey) (known : List Bytes) (n m : ℕ) (s : Store) : Type 0 where
  pub stored : (a : Bytes) → In a known → Has s.blobs a
  pub owned : IsOwned s
  pub below : AreBelow key n s
  pub small : (b : Blob) → In b s.blobs → b.id ≤ m

-- The record count of the state that is stored for a session is above the ordinals of its requests.
abbrev pub IsCounted : SessionKey → Store → Type 0
IsCounted key s =
    (state : SessionState)
    → session_state key s.sessions ≡ some state
    → AreBelow key state.summary.record_count s

chunk-IsCounted :
    (ids : Ids) (key : SessionKey) (now n : ℕ) (chunk : IngestChunk) (s s' : Store)
    → chunk.summary.record_count ≡ n + length chunk.requests
    → AreBelow key (n + length chunk.requests) s'
    → ingest_chunk ids now key chunk s ≡ some s'
    → IsCounted key s'
chunk-IsCounted ids key now n chunk s s' counted below h state e =
    let after = ingest_chunk-Applied ids now key chunk s s' h in
    let at : state_after chunk (session_state key s.sessions) ≡ state = some-injective _ state (
      sym
        (ap (session_state key) after.sessions_eq ∙ session_state-upsert _ key now chunk s.sessions)
      ∙ e) in
    subst (λ c. AreBelow key c s')
      (sym counted ∙ ap (λ (x : SessionState). x.summary.record_count) at) below

module _ (ids : Ids) (nx : IsNext ids) (key : SessionKey) where
  chunk_total :
      (now n m : ℕ) (known : List Bytes) (chunk : IngestChunk) (s : Store)
      → IsReady known n chunk
      → IsFit key known n m s
      → is_storable now key chunk ≡ true
      → m + length chunk.blobs < 2 ^ 32
      → (s' : Store) × (ingest_chunk ids now key chunk s ≡ some s')
  chunk_total now n m known chunk s ready fit storable room =
      ingest_chunk_total ids now n key chunk s nx.fresh ready.digests storable
        (λ a l. elim (ready.closed a l) [
          | inl carried ↦ inl carried
          | inr old ↦ inr (fit.stored a old)
        ])
        (λ b l.
          let low = insert_blobs-below ids chunk.blobs s.blobs m nx fit.small b l in omega arith)
        ready.consecutive fit.below ready.fits fit.owned

  chunk-IsFit :
      (now n m : ℕ) (known : List Bytes) (chunk : IngestChunk) (s s' : Store)
      → IsReady known n chunk
      → IsFit key known n m s
      → ingest_chunk ids now key chunk s ≡ some s'
      → IsFit key
          (known ++ map (λ (b : ContentBlob). b.sha256) chunk.blobs)
          (n + length chunk.requests)
          (m + length chunk.blobs)
          s'
  chunk-IsFit now n m known chunk s s' ready fit h =
      let after = ingest_chunk-Applied ids now key chunk s s' h in
      let has : (a : Bytes) → Has (blobs_after ids chunk s) a → Has s'.blobs a =
        λ a. subst (λ bs. Has bs a) (sym after.blobs_eq) in
      record {
        stored = λ a l. elim (In-split a known _ l) [
          | inl old ↦
              let (b, o, e) = fit.stored a old in
              has a (b, insert_blobs-keeps ids chunk.blobs s.blobs b o, e)
          | inr new ↦
              let (c, o, e) = map-In (λ (b : ContentBlob). b.sha256) a chunk.blobs new in
              let (b, p, f) = insert_blobs-Has ids chunk.blobs s.blobs c o in
              has a (b, p, f ∙ sym e)
        ];
        owned = ingest_chunk-IsOwned ids now key chunk s s' fit.owned h;
        below =
            ingest_chunk-AreBelow ids now n key chunk s s' nx.fresh fit.owned fit.below
              ready.consecutive h;
        small = λ b l.
            insert_blobs-below ids chunk.blobs s.blobs m nx fit.small b
              (subst (In b) after.blobs_eq l);
      }

  -- All of the chunks are applied, and the session is left with what counts its requests.
  pub apply_chunks_total :
      (clock : ℕ → ℕ) (k n m : ℕ) (known : List Bytes) (chunks : List IngestChunk) (s : Store)
      → AreReady known n chunks
      → IsFit key known n m s
      → IsCounted key s
      → ((j : ℕ) (c : IngestChunk) → In c chunks → is_storable (clock j) key c ≡ true)
      → m + sum_by (λ c. length c.blobs) chunks < 2 ^ 32
      → ((apply_chunks ids clock k key chunks s).1 ≡ true)
        × IsOwned (apply_chunks ids clock k key chunks s).0
        × IsCounted key (apply_chunks ids clock k key chunks s).0
  unfolding apply_chunks
  apply_chunks_total clock k n m known [] s (nothing _ _) fit counted storable room =
      (refl, fit.owned, counted)
  apply_chunks_total clock k n m known (c ∷ cs) s (one_more _ _ _ _ ready rest) fit counted storable
        room =
      let (s', e) =
        chunk_total (clock k) n m known c s ready fit (storable k c (inl refl)) (omega arith) in
      let fit' = chunk-IsFit (clock k) n m known c s s' ready fit e in
      rw (e, apply_chunks)
        (apply_chunks_total clock (suc k) (n + length c.requests) (m + length c.blobs) _ cs s' rest
          fit' (chunk-IsCounted ids key (clock k) n c s s' ready.counted fit'.below e)
          (λ j d l. storable j d (inr l)) (omega arith))
