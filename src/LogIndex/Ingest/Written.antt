-- ===== src/LogIndex/Ingest/Written.antt =====
-- On the payloads of the blobs over the life of the index, when the codec wrote them.
use claude_agent_wrap.Prelude.{
  ◌≡◌, ◌≢◌, refl, none, sym, subst, ◌∙◌, inl, inr, some, List, [], ◌∷◌, map, In, Bool-cases, elem,
  text_eq, Text,
}
use claude_agent_wrap.Listing.Sessions.{SessionKey}
use claude_agent_wrap.LogIndex.Codec.{Bytes, Codec, IsLossless, encode, decode, decode-encode}
use claude_agent_wrap.LogIndex.Sweep.{Blob, Database, BlobSweep, Runtime, sweep_blobs}
use claude_agent_wrap.LogIndex.Sweep.Exact.{sweep_blobs_exact, sweep_blobs_total}
use claude_agent_wrap.LogIndex.Ingest.{
  ContentBlob, Store, Ids, IsFresh, database_of, insert_blob, insert_blobs,
}
use claude_agent_wrap.LogIndex.Ingest.Apply.{
  delete_where, reset_session, delete_projects, delete_sessions,
}
use claude_agent_wrap.LogIndex.Ingest.Rows.{ingest_chunk-Applied}
use claude_agent_wrap.LogIndex.Ingest.History.{
  History, created, ingests, resets, drops_projects, drops_sessions, sweeps, History-IsSound,
}

module _ (rt : Runtime) where
  -- What `encode` makes of some bytes.
  abbrev pub IsEncoded : Codec → Bytes → Type 0
  IsEncoded codec payload =
      (b : Bytes) × (codec ≡ (encode rt.zlib b).0) × (payload ≡ (encode rt.zlib b).1)

  abbrev pub AreEncoded : List ContentBlob → Type 0
  AreEncoded cs = (c : ContentBlob) → In c cs → IsEncoded c.codec c.payload

  -- The chunks of a history carried what `encode` gave.
  unfoldable pub IsWritten : (ids : Ids) (s : Store) → History ids rt s → Type 0
  IsWritten ids _ created = Unit
  IsWritten ids _ (ingests now key chunk s s' h e) = AreEncoded chunk.blobs × IsWritten ids s h
  IsWritten ids _ (resets key s h) = IsWritten ids s h
  IsWritten ids _ (drops_projects hashes s h) = IsWritten ids s h
  IsWritten ids _ (drops_sessions keys s h) = IsWritten ids s h
  IsWritten ids _ (sweeps s db report h e) = IsWritten ids s h

  abbrev Encoded : List Blob → Type 0
  Encoded blobs = (b : Blob) → In b blobs → IsEncoded b.codec b.payload

  insert_blob-Encoded :
      (ids : Ids) (c : ContentBlob) (blobs : List Blob)
      → IsEncoded c.codec c.payload
      → Encoded blobs
      → Encoded (insert_blob ids c blobs)
  unfolding insert_blob
  insert_blob-Encoded ids c blobs ok old b m =
      elim (Bool-cases (elem c.sha256 (map (λ (x : Blob). x.sha256) blobs))) [
        | inl there ↦ old b (rw (there, insert_blob) at m)
        | inr absent ↦ elim (rw (absent, insert_blob) at m) [
          | inl e ↦ subst (λ (x : Blob). IsEncoded x.codec x.payload) (sym e) ok
          | inr l ↦ old b l
        ]
      ]

  insert_blobs-Encoded :
      (ids : Ids) (cs : List ContentBlob) (blobs : List Blob)
      → AreEncoded cs
      → Encoded blobs
      → Encoded (insert_blobs ids cs blobs)
  unfolding insert_blobs
  insert_blobs-Encoded ids [] blobs ok old = old
  insert_blobs-Encoded ids (c ∷ cs) blobs ok old =
      insert_blobs-Encoded ids cs (insert_blob ids c blobs) (λ d m. ok d (inr m))
        (insert_blob-Encoded ids c blobs (ok c (inl refl)) old)

  -- Deleting sessions leaves the blobs.
  delete_projects-blobs :
      (hashes : List Text) (s : Store) → (delete_projects hashes s).blobs ≡ s.blobs
  unfolding delete_projects delete_where
  delete_projects-blobs [] s = refl
  delete_projects-blobs (hash ∷ hashes) s = delete_projects-blobs hashes _

  delete_sessions-blobs :
      (keys : List SessionKey) (s : Store) → (delete_sessions keys s).blobs ≡ s.blobs
  unfolding delete_sessions reset_session delete_where
  delete_sessions-blobs [] s = refl
  delete_sessions-blobs (key ∷ keys) s = delete_sessions-blobs keys (reset_session key s)

  IsWritten-Encoded :
      (ids : Ids) (s : Store) (h : History ids rt s)
      → IsFresh ids
      → IsWritten ids s h
      → Encoded s.blobs
  unfolding IsWritten reset_session delete_where
  IsWritten-Encoded ids _ created new w = λ b m. absurd m
  IsWritten-Encoded ids _ (ingests now key chunk s s' h e) new w =
      subst Encoded (sym (ingest_chunk-Applied ids now key chunk s s' e).blobs_eq)
        (insert_blobs-Encoded ids chunk.blobs s.blobs w.0 (IsWritten-Encoded ids s h new w.1))
  IsWritten-Encoded ids _ (resets key s h) new w = IsWritten-Encoded ids s h new w
  IsWritten-Encoded ids _ (drops_projects hashes s h) new w =
      subst Encoded (sym (delete_projects-blobs hashes s)) (IsWritten-Encoded ids s h new w)
  IsWritten-Encoded ids _ (drops_sessions keys s h) new w =
      subst Encoded (sym (delete_sessions-blobs keys s)) (IsWritten-Encoded ids s h new w)
  IsWritten-Encoded ids _ (sweeps s db report h e) new w = λ b m.
      IsWritten-Encoded ids s h new w b
        ((sweep_blobs_exact rt (database_of s) db report (History-IsSound ids rt s new h).keyed e
            b).0
          m).0

  IsEncoded-decode :
      (codec : Codec) (payload : Bytes)
      → IsLossless rt.zlib
      → IsEncoded codec payload
      → decode rt.zlib codec payload ≢ none
  IsEncoded-decode codec payload l (b, p, q) bad =
      cc (sym bad ∙ (λ t. decode rt.zlib (p t) (q t)) ∙ decode-encode rt.zlib l b)

-- At any point of a history of writes, deletions and sweeps whose chunks carried what `encode` gave,
-- a sweep returns: every vector unpacks, every payload decompresses, and the loop ends.
-- Decompression undoes compression, and SQLite gives new rows ids that no row has.
pub History-sweep_blobs :
    (ids : Ids) (rt : Runtime) (s : Store) (h : History ids rt s)
    → IsFresh ids
    → IsLossless rt.zlib
    → IsWritten rt ids s h
    → (out : Database × BlobSweep) × (sweep_blobs rt (database_of s) ≡ some out)
History-sweep_blobs ids rt s h new l w =
    sweep_blobs_total rt (database_of s) (History-IsSound ids rt s new h).unpacks
      (λ b m. IsEncoded-decode rt b.codec b.payload l (IsWritten-Encoded rt ids s h new w b m))
