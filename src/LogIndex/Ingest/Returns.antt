-- ===== src/LogIndex/Ingest/Returns.antt =====
-- When `ingest_chunk` returns: what the reader of the logs has to see to.
use claude_agent_wrap.Prelude.{
  ℕ, suc, ◌≡◌, ◌<◌, ◌^◌, refl, sym, ap, subst, ◌∙◌, ◌⊎◌, inl, inr, true, false, Option, none, some,
  List, [], ◌∷◌, ◌++◌, map, In, In-append_left, In-append_right, Bool-cases, arith, text_eq, any,
  All, eqb,
}
use claude_agent_wrap.Prelude.Dict.{Dict, get}
use claude_agent_wrap.Listing.Sessions.{SessionKey}
use claude_agent_wrap.LogIndex.Codec.{Bytes, unpack_ids-pack_ids}
use claude_agent_wrap.LogIndex.Sweep.{Blob, to_list}
use claude_agent_wrap.LogIndex.Ingest.{
  ContentBlob, RequestRecord, IngestChunk, StoredSession, StoredRequest, Store, Ids, IsFresh,
  insert_blobs, blob_ids, requests_addresses, referenced_addresses, record_addresses,
}
use claude_agent_wrap.LogIndex.Ingest.Storable.{is_storable}
use claude_agent_wrap.LogIndex.Ingest.Apply.{
  ids_of, id_of, request_row, split_fits, same_slot, are_digests, allowed, insert_requests,
  ingest_chunk,
}
use claude_agent_wrap.LogIndex.Ingest.Blobs.{Has, insert_blobs-keeps, insert_blobs-Has, map-In}
use claude_agent_wrap.LogIndex.Ingest.Lookup.{blob_ids-Holds, blob_ids-found}
use claude_agent_wrap.LogIndex.Ingest.Upsert.{upsert_row-id}
use claude_agent_wrap.LogIndex.Ingest.Links.{request_row-Stands}
use claude_agent_wrap.LogIndex.Ingest.Rows.{session_after, blobs_after}

-- The ordinals are `n`, `n + 1` and so on.
pub data Consecutive : ℕ → List RequestRecord → Type 0 where
  last : (n : ℕ) → Consecutive n []
  next :
      (r : RequestRecord) (rs : List RequestRecord)
      → Consecutive (suc r.ordinal) rs
      → Consecutive r.ordinal (r ∷ rs)

-- The ids that a dict gives, and that fit in 32 bits.
abbrev Fits : Dict Bytes ℕ → Bytes → Type 0
Fits found a = (i : ℕ) × (get a found ≡ some i) × (i < 2 ^ 32)

module _ (found : Dict Bytes ℕ) where
  ids_of_total :
      (as' : List Bytes)
      → ((a : Bytes) → In a as' → Fits found a)
      → (is : List ℕ) × (ids_of found as' ≡ some is) × All (λ i. i < 2 ^ 32) is
  unfolding ids_of
  ids_of_total [] f = ([], refl, tt)
  ids_of_total (a ∷ as') f =
      let (i, e, low) = f a (inl refl) in
      let (is, g, lows) = ids_of_total as' (λ b m. f b (inr m)) in
      (i ∷ is, rw (e, g, ids_of) refl, (low, lows))

  id_of_total :
      (o : Option Bytes)
      → ((a : Bytes) → In a (to_list o) → Fits found a)
      → (q : Option ℕ) × (id_of found o ≡ some q)
  unfolding id_of
  id_of_total none f = (none, refl)
  id_of_total (some a) f = let (i, e, _) = f a (inl refl) in (some i, rw (e, id_of) refl)

  request_row_total :
      (session : ℕ) (r : RequestRecord)
      → ((a : Bytes) → In a (record_addresses r) → Fits found a)
      → (q : StoredRequest) × (request_row found session r ≡ some q)
  unfolding request_row
  request_row_total session r f =
      let (is, e, low) =
        ids_of_total r.message_addresses (λ a m. f a (In-append_left a r.message_addresses _ m)) in
      let (b, p, _) = unpack_ids-pack_ids is low in
      let rest : (a : Bytes)
          → In a
              (to_list r.system_address ++ (to_list r.tools_address ++ to_list r.response_address))
          → Fits found a =
        λ a m. f a (In-append_right a r.message_addresses _ m) in
      let (s, es) =
        id_of_total r.system_address
          (λ a m. rest a (In-append_left a (to_list r.system_address) _ m)) in
      let (t, et) = id_of_total r.tools_address (λ a m. rest a (
        In-append_right a (to_list r.system_address) _
          (In-append_left a (to_list r.tools_address) _ m))) in
      let (u, eu) = id_of_total r.response_address (λ a m. rest a (
        In-append_right a (to_list r.system_address) _
          (In-append_right a (to_list r.tools_address) _ m))) in
      (
        record {
          session_id = session;
          ordinal = r.ordinal;
          columns = r.columns;
          message_refs = b;
          system_blob = s;
          tools_blob = t;
          response_blob = u;
        },
        rw (e, p, es, et, eu, request_row) refl,
      )

  free_slot :
      (p : StoredRequest) (rows : List StoredRequest)
      → ((q : StoredRequest) → In q rows → q.session_id ≡ p.session_id → q.ordinal < p.ordinal)
      → any (same_slot p) rows ≡ false
  free_slot p [] f = refl
  free_slot p (q ∷ rows) f = elim (Bool-cases (eqb p.session_id q.session_id)) [
    | inl same ↦
        let low = f q (inl refl) (ground arith) in
        ground (arith, low, free_slot p rows (λ x m. f x (inr m)))
    | inr other ↦ ground (arith, free_slot p rows (λ x m. f x (inr m)))
  ]

  allowed-true :
      (p : StoredRequest) (rows : List StoredRequest)
      → split_fits p.columns ≡ true
      → any (same_slot p) rows ≡ false
      → allowed p rows ≡ true
  allowed-true p rows fits slot = rw (fits, slot) refl

  insert_requests_total :
      (session n : ℕ) (rs : List RequestRecord) (rows : List StoredRequest)
      → Consecutive n rs
      → ((q : StoredRequest) → In q rows → q.session_id ≡ session → q.ordinal < n)
      → ((r : RequestRecord) → In r rs → split_fits r.columns ≡ true)
      → ((a : Bytes) → In a (requests_addresses rs) → Fits found a)
      → (out : List StoredRequest) × (insert_requests found session rs rows ≡ some out)
  unfolding insert_requests requests_addresses
  insert_requests_total session n [] rows c free fits f = (rows, refl)
  insert_requests_total session n (r ∷ rs) rows (next _ _ c) free fits f =
      let (p, e) =
        request_row_total session r (λ a m. f a (In-append_left a (record_addresses r) _ m)) in
      let stands = request_row-Stands found session r p e in
      let slot : any (same_slot p) rows ≡ false = free_slot p rows (λ q m s.
        subst (λ x. q.ordinal < x) (sym stands.same_ordinal)
          (free q m (s ∙ stands.same_session))) in
      let fine : allowed p rows ≡ true =
        allowed-true p rows
          (subst (λ c. split_fits c ≡ true) (sym stands.same_columns) (fits r (inl refl))) slot in
      let later : (q : StoredRequest)
          → In q (p ∷ rows)
          → q.session_id ≡ session
          → q.ordinal < suc r.ordinal =
        λ q m s. elim m [
          | inl same ↦
              let at : q.ordinal ≡ r.ordinal =
                ap (λ (x : StoredRequest). x.ordinal) same ∙ stands.same_ordinal in
              omega arith
          | inr old ↦ let low = free q old s in omega arith
        ] in
      let (out, g) =
        insert_requests_total session (suc r.ordinal) rs (p ∷ rows) c later (λ t m. fits t (inr m))
          (λ a m. f a (In-append_right a (record_addresses r) _ m)) in
      (out, rw (e, fine, insert_requests) g)

requests-referenced :
    (chunk : IngestChunk) (a : Bytes)
    → In a (requests_addresses chunk.requests)
    → In a (referenced_addresses chunk)
unfolding referenced_addresses
requests-referenced chunk a m =
    In-append_right a (map (λ (b : ContentBlob). b.sha256) chunk.blobs) _ m

module _ (ids : Ids) (chunk : IngestChunk) (s : Store) where
  stored_after :
      (a : Bytes)
      → In a (map (λ (b : ContentBlob). b.sha256) chunk.blobs) ⊎ Has s.blobs a
      → Has (blobs_after ids chunk s) a
  stored_after a (inl carried) =
      let (c, m, e) = map-In (λ (b : ContentBlob). b.sha256) a chunk.blobs carried in
      let (b, n, f) = insert_blobs-Has ids chunk.blobs s.blobs c m in (b, n, f ∙ sym e)
  stored_after a (inr (b, m, e)) = (b, insert_blobs-keeps ids chunk.blobs s.blobs b m, e)

  every_Fits :
      ((a : Bytes)
        → In a (requests_addresses chunk.requests)
        → In a (map (λ (b : ContentBlob). b.sha256) chunk.blobs) ⊎ Has s.blobs a)
      → ((b : Blob) → In b (blobs_after ids chunk s) → b.id < 2 ^ 32)
      → (a : Bytes) → In a (requests_addresses chunk.requests)
      → Fits (blob_ids (blobs_after ids chunk s) chunk) a
  every_Fits closed small a m =
      let (i, e) =
        blob_ids-found (blobs_after ids chunk s) chunk a (requests-referenced chunk a m)
          (stored_after a (closed a m)) in
      let (b, l, p, _) = blob_ids-Holds (blobs_after ids chunk s) chunk a i e in
      (i, e, subst (λ j. j < 2 ^ 32) p (small b l))

pub ingest_chunk_total :
    (ids : Ids) (now n : ℕ) (key : SessionKey) (chunk : IngestChunk) (s : Store)
    → IsFresh ids
    → are_digests chunk.blobs ≡ true
    → is_storable now key chunk ≡ true
    → ((a : Bytes)
        → In a (requests_addresses chunk.requests)
        → In a (map (λ (b : ContentBlob). b.sha256) chunk.blobs) ⊎ Has s.blobs a)
    → ((b : Blob) → In b (insert_blobs ids chunk.blobs s.blobs) → b.id < 2 ^ 32)
    → Consecutive n chunk.requests
    → ((x : StoredSession) (q : StoredRequest)
        → In x s.sessions
        → x.key ≡ key
        → In q s.requests
        → q.session_id ≡ x.id
        → q.ordinal < n)
    → ((r : RequestRecord) → In r chunk.requests → split_fits r.columns ≡ true)
    → ((q : StoredRequest)
        → In q s.requests
        → In q.session_id (map (λ (x : StoredSession). x.id) s.sessions))
    → (s' : Store) × (ingest_chunk ids now key chunk s ≡ some s')
unfolding ingest_chunk
ingest_chunk_total ids now n key chunk s new digests storable closed small c free fits owned =
    let used = map (λ (x : StoredSession). x.id) s.sessions in
    let below : (q : StoredRequest)
        → In q s.requests
        → q.session_id ≡ (session_after ids now key chunk s).1
        → q.ordinal < n =
      λ q m e. elim (upsert_row-id (ids.fresh used) key now chunk s.sessions) [
        | inl fresh ↦ absurd (new.fresh-new used (subst (λ i. In i used) (e ∙ fresh) (owned q m)))
        | inr (x, l, k, i) ↦ free x q l k m (e ∙ i)
      ] in
    let (rows, g) =
      insert_requests_total (blob_ids (blobs_after ids chunk s) chunk)
        (session_after ids now key chunk s).1 n chunk.requests s.requests c below fits
        (every_Fits ids chunk s closed small) in
    (
      record {
        sessions = (session_after ids now key chunk s).0;
        blobs = blobs_after ids chunk s;
        requests = rows;
      },
      rw (digests, storable, g, ingest_chunk) refl,
    )
