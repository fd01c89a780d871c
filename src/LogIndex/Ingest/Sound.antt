-- ===== src/LogIndex/Ingest/Sound.antt =====
-- On `ingest_chunk`, the deletions and the sweep together, over the tables that they share.
use claude_agent_wrap.Prelude.{
  ℕ, ◌≡◌, ◌≢◌, sym, subst, ◌∙◌, inl, inr, Bool, none, some, List, [], ◌∷◌, map, keep, In, In-map,
  Bool-cases, text_eq, nat_eq, Text,
}
use claude_agent_wrap.Listing.Sessions.{SessionKey}
use claude_agent_wrap.LogIndex.Codec.{unpack_ids}
use claude_agent_wrap.LogIndex.Sweep.{Blob, RequestRow, Database, BlobSweep, Runtime, sweep_blobs}
use claude_agent_wrap.LogIndex.Sweep.References.{Names, by_request}
use claude_agent_wrap.LogIndex.Sweep.Safety.{IsKeyed}
use claude_agent_wrap.LogIndex.Sweep.Exact.{sweep_blobs_exact, sweep_blobs_freed}
use claude_agent_wrap.LogIndex.Ingest.{
  RequestRecord, IngestChunk, StoredSession, StoredRequest, Store, Ids, IsFresh, row_of,
  database_of, blob_ids,
}
use claude_agent_wrap.LogIndex.Ingest.Apply.{
  ingest_chunk, delete_where, reset_session, delete_projects, delete_sessions,
}
use claude_agent_wrap.LogIndex.Ingest.Blobs.{
  AreKeyed, map-In, insert_blobs-AreKeyed, insert_blobs-keeps,
}
use claude_agent_wrap.LogIndex.Ingest.Lookup.{blob_ids-Holds}
use claude_agent_wrap.LogIndex.Ingest.Rows.{insert_requests-rows, ingest_chunk-Applied, blobs_after}
use claude_agent_wrap.LogIndex.Ingest.Links.{Gives, Stands, Stands-Names}

-- The blobs have distinct ids and addresses, every request's vector unpacks, and every id that a
-- request names is that of a blob.
pub record IsSound (db : Database) : Type 0 where
  pub keyed : IsKeyed db
  pub unpacks : (r : RequestRow) → In r db.requests → unpack_ids r.message_refs ≢ none
  pub linked :
      (r : RequestRow) (i : ℕ)
      → In r db.requests
      → Names r i
      → (b : Blob) × In b db.blobs × (b.id ≡ i)

abbrev RefersTo : List Blob → RequestRow → ℕ → Type 0
RefersTo blobs r i = (b : Blob) × In b blobs × (b.id ≡ i)

-- What soundness asks of one row.
record IsRow (blobs : List Blob) (r : RequestRow) : Type 0 where
  unpacks : unpack_ids r.message_refs ≢ none
  linked : (i : ℕ) → Names r i → RefersTo blobs r i

IsSound-rows :
    (s : Store)
    → IsKeyed (database_of s)
    → ((q : StoredRequest) → In q s.requests → IsRow s.blobs (row_of q))
    → IsSound (database_of s)
IsSound-rows s k rows = record {
  keyed = k;
  unpacks = λ r m h.
      let (q, n, e) = map-In row_of r s.requests m in
      (rows q n).unpacks (subst (λ (x : RequestRow). unpack_ids x.message_refs ≡ none) e h);
  linked = λ r i m n.
      let (q, l, e) = map-In row_of r s.requests m in
      (rows q l).linked i (subst (λ x. Names x i) e n);
}

Stands-IsRow :
    (chunk : IngestChunk) (blobs : List Blob) (session : ℕ) (r : RequestRecord) (q : StoredRequest)
    → Stands (Gives (blob_ids blobs chunk)) session r q
    → IsRow blobs (row_of q)
Stands-IsRow chunk blobs session r q s = record {
  unpacks = λ h. absurd (cc (sym h ∙ s.unpacked));
  linked = λ i n.
      let (a, _, e) = Stands-Names (Gives (blob_ids blobs chunk)) session r q i s n in
      let (b, m, p, _) = blob_ids-Holds blobs chunk a i e in (b, m, p);
}

-- A chunk that is applied to sound tables leaves sound tables.
pub ingest_chunk-IsSound :
    (ids : Ids) (now : ℕ) (key : SessionKey) (chunk : IngestChunk) (s s' : Store)
    → IsFresh ids
    → IsSound (database_of s)
    → ingest_chunk ids now key chunk s ≡ some s'
    → IsSound (database_of s')
ingest_chunk-IsSound ids now key chunk s s' new sound h =
    let after = ingest_chunk-Applied ids now key chunk s s' h in
    let k : AreKeyed (blobs_after ids chunk s) =
      insert_blobs-AreKeyed ids chunk.blobs s.blobs new
        (record { unique_id = sound.keyed.unique_id; unique_sha = sound.keyed.unique_sha }) in
    let rows : (q : StoredRequest) → In q s'.requests → IsRow (blobs_after ids chunk s) (row_of q) =
      λ q m.
        elim (insert_requests-rows _ _ chunk.requests s.requests s'.requests q after.requests_eq
          m) [
            | inr (r, _, stands) ↦ Stands-IsRow chunk (blobs_after ids chunk s) _ r q stands
            | inl old ↦ record {
              unpacks = sound.unpacks (row_of q) (In-map row_of q s.requests old);
              linked = λ i n.
                  let (b, l, p) = sound.linked (row_of q) i (In-map row_of q s.requests old) n in
                  (b, insert_blobs-keeps ids chunk.blobs s.blobs b l, p);
            }
          ] in
    IsSound-rows s'
      (subst (λ x. IsKeyed (record { blobs = x; requests = map row_of s'.requests }))
        (sym after.blobs_eq) (record { unique_id = k.unique_id; unique_sha = k.unique_sha }))
      (λ q m. subst (λ x. IsRow x (row_of q)) (sym after.blobs_eq) (rows q m))

keep-In : {A : Type 0} (p : A → Bool) (a : A) (xs : List A) → In a (keep p xs) → In a xs
keep-In p a [] m = m
keep-In p a (x ∷ xs) m = elim (Bool-cases (p x)) [
  | inl good ↦ elim (rw good at m) [ inl e ↦ inl e | inr r ↦ inr (keep-In p a xs r) ]
  | inr bad ↦ inr (keep-In p a xs (rw bad at m))
]

-- So does a deletion of sessions, whichever they are.
pub delete_where-IsSound :
    (gone : StoredSession → Bool) (s : Store)
    → IsSound (database_of s)
    → IsSound (database_of (delete_where gone s))
unfolding delete_where
delete_where-IsSound gone s sound =
    IsSound-rows (delete_where gone s)
      (record { unique_id = sound.keyed.unique_id; unique_sha = sound.keyed.unique_sha })
      (λ q m.
        let old = In-map row_of q s.requests (keep-In _ q s.requests m) in
        record {
          unpacks = sound.unpacks (row_of q) old;
          linked = λ i n. sound.linked (row_of q) i old n;
        })

pub delete_projects-IsSound :
    (hashes : List Text) (s : Store)
    → IsSound (database_of s)
    → IsSound (database_of (delete_projects hashes s))
unfolding delete_projects
delete_projects-IsSound [] s sound = sound
delete_projects-IsSound (hash ∷ hashes) s sound =
    delete_projects-IsSound hashes _ (delete_where-IsSound _ s sound)

pub reset_session-IsSound :
    (key : SessionKey) (s : Store)
    → IsSound (database_of s)
    → IsSound (database_of (reset_session key s))
unfolding reset_session
reset_session-IsSound key s sound = delete_where-IsSound _ s sound

pub delete_sessions-IsSound :
    (keys : List SessionKey) (s : Store)
    → IsSound (database_of s)
    → IsSound (database_of (delete_sessions keys s))
unfolding delete_sessions
delete_sessions-IsSound [] s sound = sound
delete_sessions-IsSound (key ∷ keys) s sound =
    delete_sessions-IsSound keys _ (reset_session-IsSound key s sound)

-- A sweep that returns leaves sound tables as sound: it deletes no blob that a request names.
pub sweep_blobs-IsSound :
    (rt : Runtime) (db db' : Database) (report : BlobSweep)
    → IsSound db
    → sweep_blobs rt db ≡ some (db', report)
    → IsSound db'
sweep_blobs-IsSound rt db db' report sound h =
    let exact = sweep_blobs_exact rt db db' report sound.keyed h in
    let same = (sweep_blobs_freed rt db db' report h).0 in
    record {
      keyed = record {
        unique_id = λ b d m n. sound.keyed.unique_id b d ((exact b).0 m).0 ((exact d).0 n).0;
        unique_sha = λ b d m n. sound.keyed.unique_sha b d ((exact b).0 m).0 ((exact d).0 n).0;
      };
      unpacks = λ r m. sound.unpacks r (subst (In r) same m);
      linked = λ r i m n.
          let m' : In r db.requests = subst (In r) same m in
          let (b, l, p) = sound.linked r i m' n in
          (b, (exact b).1 (l, by_request b r m' (subst (Names r) (sym p) n)), p);
    }

pub swept-IsSound :
    (rt : Runtime) (s : Store) (db : Database) (report : BlobSweep)
    → IsSound (database_of s)
    → sweep_blobs rt (database_of s) ≡ some (db, report)
    → IsSound (database_of (record s { blobs = db.blobs }))
swept-IsSound rt s db report sound h =
    subst (λ x. IsSound (record { blobs = db.blobs; requests = x }))
      (sweep_blobs_freed rt (database_of s) db report h).0
      (sweep_blobs-IsSound rt (database_of s) db report sound h)
