-- ===== src/LogIndex/Ingest/Lookup.antt =====
-- On the end of `_insert_blobs`: the dict from addresses to ids that is read back, batch by batch.
use claude_agent_wrap.Prelude.{
  ℕ, ◌≡◌, ◌≢◌, refl, sym, ap, subst, ◌⊎◌, inl, inr, none, some, List, [], ◌∷◌, keep, elem, In,
  In-elem, In-split, Bool-cases, text_eq, text_beq, text_beq_iff, nat_eq, arith, text_eq,
  Option-cases,
}
use claude_agent_wrap.Prelude.Dict.{Dict, get, put, get-put}
use claude_agent_wrap.LogIndex.Codec.{Bytes}
use claude_agent_wrap.LogIndex.Sweep.{Blob, batched}
use claude_agent_wrap.LogIndex.Sweep.Batches.{concat, batched-concat}
use claude_agent_wrap.LogIndex.Ingest.Blobs.{Has, Holds}
use claude_agent_wrap.LogIndex.Ingest.{
  IngestChunk, note_rows, read_ids, blob_ids, referenced_addresses,
}

note_rows-Holds :
    (rows : List Blob) (found : Dict Bytes ℕ) (a : Bytes) (i : ℕ)
    → get a (note_rows rows found) ≡ some i
    → Holds rows i a ⊎ (get a found ≡ some i)
unfolding note_rows
note_rows-Holds [] found a i h = inr h
note_rows-Holds (b ∷ bs) found a i h = elim (note_rows-Holds bs (put b.sha256 b.id found) a i h) [
  | inl (d, m, p, q) ↦ inl (d, inr m, p, q)
  | inr e ↦ elim (Bool-cases (text_beq b.sha256 a)) [
    | inl same ↦ inl (
      b,
      inl refl,
      ground (arith, get-put b.sha256 a b.id found),
      (text_beq_iff b.sha256 a).0 same,
    )
    | inr other ↦ inr (ground (arith, get-put b.sha256 a b.id found))
  ]
]

note_rows-keeps :
    (rows : List Blob) (found : Dict Bytes ℕ) (a : Bytes)
    → get a (note_rows rows found) ≡ none
    → get a found ≡ none
unfolding note_rows
note_rows-keeps [] found a h = h
note_rows-keeps (b ∷ bs) found a h =
    let e = note_rows-keeps bs (put b.sha256 b.id found) a h in
    ground (arith, get-put b.sha256 a b.id found)

note_rows-adds :
    (rows : List Blob) (found : Dict Bytes ℕ) (b : Blob)
    → In b rows
    → get b.sha256 (note_rows rows found) ≢ none
unfolding note_rows
note_rows-adds [] found b m h = m
note_rows-adds (d ∷ bs) found b (inl e) h =
    let g = note_rows-keeps bs (put d.sha256 d.id found) b.sha256 h in
    let s : d.sha256 ≡ b.sha256 = ap (λ (x : Blob). x.sha256) (sym e) in
    ground (arith, get-put d.sha256 b.sha256 d.id found, text_beq_iff d.sha256 b.sha256)
note_rows-adds (d ∷ bs) found b (inr m) h = note_rows-adds bs (put d.sha256 d.id found) b m h

module _ (blobs : List Blob) where
  selected-In :
      (b : Blob) (rows : List Blob) (batch : List Bytes)
      → In b (keep (λ x. elem x.sha256 batch) rows)
      → In b rows
  selected-In b [] batch m = m
  selected-In b (x ∷ xs) batch m = elim (Bool-cases (elem x.sha256 batch)) [
    | inl there ↦ elim (rw there at m) [ inl e ↦ inl e | inr r ↦ inr (selected-In b xs batch r) ]
    | inr other ↦ inr (selected-In b xs batch (rw other at m))
  ]

  In-selected :
      (b : Blob) (rows : List Blob) (batch : List Bytes)
      → In b rows
      → In b.sha256 batch
      → In b (keep (λ x. elem x.sha256 batch) rows)
  In-selected b [] batch m i = m
  In-selected b (x ∷ xs) batch (inl e) i =
      rw (In-elem x.sha256 batch (subst (λ (y : Blob). In y.sha256 batch) e i)) (inl e)
  In-selected b (x ∷ xs) batch (inr m) i = elim (Bool-cases (elem x.sha256 batch)) [
    | inl there ↦ rw there (inr (In-selected b xs batch m i))
    | inr other ↦ rw other (In-selected b xs batch m i)
  ]

  read_ids-Holds :
      (batches : List (List Bytes)) (found : Dict Bytes ℕ) (a : Bytes) (i : ℕ)
      → get a (read_ids blobs batches found) ≡ some i
      → Holds blobs i a ⊎ (get a found ≡ some i)
  unfolding read_ids
  read_ids-Holds [] found a i h = inr h
  read_ids-Holds (batch ∷ more) found a i h =
      let rows = keep (λ (x : Blob). elem x.sha256 batch) blobs in
      elim (read_ids-Holds more (note_rows rows found) a i h) [
        | inl holds ↦ inl holds
        | inr e ↦ elim (note_rows-Holds rows found a i e) [
          | inl (b, m, p, q) ↦ inl (b, selected-In b blobs batch m, p, q)
          | inr old ↦ inr old
        ]
      ]

  read_ids-keeps :
      (batches : List (List Bytes)) (found : Dict Bytes ℕ) (a : Bytes)
      → get a (read_ids blobs batches found) ≡ none
      → get a found ≡ none
  unfolding read_ids
  read_ids-keeps [] found a h = h
  read_ids-keeps (batch ∷ more) found a h =
      let rows = keep (λ (x : Blob). elem x.sha256 batch) blobs in
      note_rows-keeps rows found a (read_ids-keeps more (note_rows rows found) a h)

  read_ids-adds :
      (batches : List (List Bytes)) (found : Dict Bytes ℕ) (b : Blob)
      → In b blobs
      → In b.sha256 (concat batches)
      → get b.sha256 (read_ids blobs batches found) ≢ none
  unfolding read_ids
  read_ids-adds [] found b m i h = i
  read_ids-adds (batch ∷ more) found b m i h =
      let rows = keep (λ (x : Blob). elem x.sha256 batch) blobs in
      elim (In-split b.sha256 batch (concat more) i) [
        | inl here ↦
            note_rows-adds rows found b (In-selected b blobs batch m here)
              (read_ids-keeps more (note_rows rows found) b.sha256 h)
        | inr there ↦ read_ids-adds more (note_rows rows found) b m there h
      ]

  -- An id that is read for an address is that of a blob with the address.
  pub blob_ids-Holds :
      (chunk : IngestChunk) (a : Bytes) (i : ℕ)
      → get a (blob_ids blobs chunk) ≡ some i
      → Holds blobs i a
  unfolding blob_ids get
  blob_ids-Holds chunk a i h =
      elim (read_ids-Holds (batched (referenced_addresses chunk)) [] a i h) [
        | inl holds ↦ holds
        | inr e ↦ cc
      ]

  -- An address that is referenced and stored is read back.
  pub blob_ids-found :
      (chunk : IngestChunk) (a : Bytes)
      → In a (referenced_addresses chunk)
      → Has blobs a
      → (i : ℕ) × (get a (blob_ids blobs chunk) ≡ some i)
  unfolding blob_ids
  blob_ids-found chunk a i (b, m, e) = elim (Option-cases (get a (blob_ids blobs chunk))) [
    | inr found ↦ found
    | inl missing ↦ absurd (
        read_ids-adds (batched (referenced_addresses chunk)) [] b m
          (subst (In b.sha256) (sym (batched-concat (referenced_addresses chunk)))
            (subst (λ x. In x (referenced_addresses chunk)) (sym e) i))
          (subst (λ x. get x (blob_ids blobs chunk) ≡ none) (sym e) missing))
  ]
